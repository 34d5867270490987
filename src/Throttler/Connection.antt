-- ===== src/Throttler/Connection.antt =====
-- `command` of RedisCommandConnection in src/config/redis-throttler.storage.ts, as the events of its
-- socket: a command that is sent adds its two listeners, and each chunk of bytes goes to every
-- listener that there was when it came, in order. How the socket is opened is not modelled.
pub mod Replies
use stellar_tip_api.Common.{ℕ, String, List, [], ◌∷◌, ◌++◌, eqb, if◌then◌else◌}
use stellar_tip_api.Common.Value.{Value}
use stellar_tip_api.Throttler.Wire.{Wire}
use stellar_tip_api.Throttler.Resp.{
  Fault, Parse, incomplete, fault, unmodelled, out_of_fuel, parsed, parse,
}

pub data Rejection : Type 0 where
  by_parse : Fault → Rejection
  by_socket : String → Rejection

pub data Settlement : Type 0 where
  resolved : Value → Settlement
  rejected : Rejection → Settlement

-- `listeners` are the commands that wait for data; `settled`, newest first, those that have been
-- answered.
pub record Connection : Type 0 where
  pub buffer : List ℕ
  pub listeners : List ℕ
  pub settled : List (ℕ × Settlement)

-- `socket.off('data', onData)`
unfoldable pub off : ℕ → List ℕ → List ℕ
off id [] = []
off id (x ∷ xs) = if eqb x id then xs else x ∷ off id xs

-- `socket.on('data', onData)`
unfoldable pub issue : ℕ → Connection → Connection
issue id c = record c { listeners = c.listeners ++ (id ∷ []) }

unfoldable pub settle : ℕ → Settlement → Connection → Connection
unfolding off
settle id s c = record c { listeners = off id c.listeners; settled = (id, s) ∷ c.settled }

-- The part of `onData` after the buffer has grown. What is `unmodelled` leaves the command waiting.
unfoldable pub after_parse : ℕ → Parse Value → Connection → Connection
unfolding settle
after_parse id incomplete c = c
after_parse id unmodelled c = c
after_parse id out_of_fuel c = c
after_parse id (fault e) c = settle id (rejected (by_parse e)) c
after_parse id (parsed v rest) c = record (settle id (resolved v) c) { buffer = rest }

module _ (wire : Wire) where
  unfoldable pub on_data : List ℕ → ℕ → Connection → Connection
  unfolding after_parse
  on_data chunk id c =
      let buffer = c.buffer ++ chunk in
      after_parse id (parse wire buffer) (record c { buffer = buffer })

  unfoldable pub deliver : List ℕ → List ℕ → Connection → Connection
  deliver chunk [] c = c
  deliver chunk (id ∷ ids) c = deliver chunk ids (on_data chunk id c)

  -- the socket's 'data' event
  unfoldable pub receive : List ℕ → Connection → Connection
  unfolding deliver
  receive chunk c = deliver chunk c.listeners c

  unfoldable pub receive_all : List (List ℕ) → Connection → Connection
  receive_all [] c = c
  receive_all (chunk ∷ chunks) c = receive_all chunks (receive chunk c)

-- the socket's 'error' event, at each command that waits
unfoldable pub fail_all : String → List ℕ → Connection → Connection
unfolding settle
fail_all message [] c = c
fail_all message (id ∷ ids) c = fail_all message ids (settle id (rejected (by_socket message)) c)

unfoldable pub socket_error : String → Connection → Connection
unfolding fail_all
socket_error message c = fail_all message c.listeners c
