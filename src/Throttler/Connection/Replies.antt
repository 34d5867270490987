-- ===== src/Throttler/Connection/Replies.antt =====
-- How a connection of src/config/redis-throttler.storage.ts answers its commands: one command and a
-- reply in parts, two commands at once, and what follows an error reply.
use mathlib.Core.List.{append_assoc}
use stellar_tip_api.Common.{ℕ, String, ◌≡◌, refl, ap, ◌∙◌, List, [], ◌∷◌, ◌++◌, arith, eqb_iff}
use stellar_tip_api.Common.Lists.{length}
use stellar_tip_api.Common.Value.{Value}
use stellar_tip_api.Throttler.Wire.{Wire}
use stellar_tip_api.Throttler.Resp.{parse, fault, server, parse_prefix}
use stellar_tip_api.Throttler.Resp.Reply.{Reply, write_line, NoReturn}
use stellar_tip_api.Throttler.Resp.Reply.Parse.{parse_from-write_line}
use stellar_tip_api.Throttler.Connection.{
  Connection, Settlement, rejected, by_parse, issue, on_data, receive,
}

module _ (wire : Wire) where
  -- A connection at which one command waits.
  abbrev pub waiting : ℕ → List ℕ → List (ℕ × Settlement) → Connection
  waiting id buffer settled = record { buffer = buffer; listeners = id ∷ []; settled = settled }

  parse-error :
      (message : String) (rest : List ℕ)
      → NoReturn (wire.encode message)
      → parse wire (write_line b'-' (wire.encode message) rest) ≡ fault (server message)
  unfolding parse parse_prefix
  parse-error message rest p =
      parse_from-write_line wire (length (write_line b'-' (wire.encode message) rest)) b'-'
        (wire.encode message) rest (omega arith) p
      ∙ ap (λ m. fault (server m)) (wire.decode-encode message)

  -- One command at a time: it is sent, and a chunk comes.
  abbrev pub exchange : ℕ × List ℕ → Connection → Connection
  exchange (id, chunk) c = receive wire chunk (issue id c)

  abbrev pub exchanges : List (ℕ × List ℕ) → Connection → Connection
  exchanges [] c = c
  exchanges (x ∷ xs) c = exchanges xs (exchange x c)

  abbrev pub refusals : String → List (ℕ × List ℕ) → List (ℕ × Settlement) → List (ℕ × Settlement)
  refusals message [] settled = settled
  refusals message ((id, chunk) ∷ xs) settled =
      refusals message xs ((id, rejected (by_parse (server message))) ∷ settled)

  -- A connection at which no command waits.
  abbrev pub idle : List ℕ → List (ℕ × Settlement) → Connection
  idle buffer settled = record { buffer = buffer; listeners = []; settled = settled }

  exchange-error :
      (message : String) (id : ℕ) (buffer chunk rest : List ℕ) (settled : List (ℕ × Settlement))
      → NoReturn (wire.encode message)
      → buffer ++ chunk ≡ write_line b'-' (wire.encode message) rest
      → exchange (id, chunk) (idle buffer settled)
        ≡ idle
            (write_line b'-' (wire.encode message) rest)
            ((id, rejected (by_parse (server message))) ∷ settled)
  unfolding receive on_data issue
  exchange-error message id buffer chunk rest settled p e =
      rw (e, parse-error message rest p, (eqb_iff id id).1 refl)

  exchanges-error :
      (message : String) (rest : List ℕ) (xs : List (ℕ × List ℕ)) (settled : List (ℕ × Settlement))
      → NoReturn (wire.encode message)
      → (exchanges xs (idle (write_line b'-' (wire.encode message) rest) settled)).settled
        ≡ refusals message xs settled
  exchanges-error message rest [] settled p = refl
  exchanges-error message rest ((id, chunk) ∷ xs) settled p =
      let longer : write_line b'-' (wire.encode message) rest ++ chunk
          ≡ write_line b'-' (wire.encode message) (rest ++ chunk) =
        ap (λ l. b'-' ∷ l) (append_assoc (wire.encode message) (13 ∷ 10 ∷ rest) chunk) in
      ap (λ c. (exchanges xs c).settled)
        (exchange-error message id (write_line b'-' (wire.encode message) rest) chunk
          (rest ++ chunk) settled p longer)
      ∙ exchanges-error message (rest ++ chunk) xs
          ((id, rejected (by_parse (server message))) ∷ settled) p

  -- After one error reply every later command is refused with the same message, whatever the
  -- server answers it.
  pub error_reply_stays :
      (message : String) (id : ℕ) (xs : List (ℕ × List ℕ)) (settled : List (ℕ × Settlement))
      → NoReturn (wire.encode message)
      → (exchanges ((id, write_line b'-' (wire.encode message) []) ∷ xs) (idle [] settled)).settled
        ≡ refusals message xs ((id, rejected (by_parse (server message))) ∷ settled)
  error_reply_stays message id xs settled p =
      ap (λ c. (exchanges xs c).settled)
        (exchange-error message id [] (write_line b'-' (wire.encode message) []) [] settled p refl)
      ∙ exchanges-error message [] xs ((id, rejected (by_parse (server message))) ∷ settled) p
