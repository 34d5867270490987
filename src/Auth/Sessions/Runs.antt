-- ===== src/Auth/Sessions/Runs.antt =====
-- Runs of the calls of src/auth/auth.service.ts that open, carry on and end sessions: they refine
-- the open sessions of Auth/Sessions.antt.
use stellar_tip_api.Common.{refl, List, [], ◌∷◌}
use stellar_tip_api.Database.{Database}
use stellar_tip_api.Auth.{AuthService}
use stellar_tip_api.Auth.Sessions.{
  sessions, Call, log_in, log_in_by_email, refresh, end_all, serve, serve_all, AllowsAll, done,
  next,
}
use stellar_tip_api.Auth.Sessions.Refine.{IsKeyed, IsFresh, KeepsTo}
use stellar_tip_api.Auth.Sessions.Rotations.{refresh-refines, end_all-refines}
use stellar_tip_api.Auth.Sessions.Openings.{log_in-refines, log_in_by_email-refines}

-- The random token of a call is in no row yet.
abbrev pub CallIsFresh : Call → Database → Type 0
CallIsFresh (log_in now token user) db = IsFresh token db.refresh_tokens
CallIsFresh (log_in_by_email now token email password) db = IsFresh token db.refresh_tokens
CallIsFresh (refresh now new_token token) db = IsFresh new_token db.refresh_tokens
CallIsFresh (end_all user_id) db = Unit

module _ (service : AuthService) where
  call-refines :
      (call : Call) (db : Database)
      → IsKeyed db.refresh_tokens
      → CallIsFresh call db
      → KeepsTo service call (serve service call db).0 db (serve service call db).1
  call-refines (log_in now token user) db keyed fresh =
      log_in-refines service now token user _ db _ keyed fresh refl
  call-refines (log_in_by_email now token email password) db keyed fresh =
      log_in_by_email-refines service now token email password _ db _ keyed fresh refl
  call-refines (refresh now new_token token) db keyed fresh =
      refresh-refines service now new_token token _ db _ keyed fresh refl
  call-refines (end_all user_id) db keyed fresh = end_all-refines service user_id _ db _ keyed refl

  -- Each call draws a token that is in no row when it comes.
  abbrev pub AllFresh : List Call → Database → Type 0
  AllFresh [] db = Unit
  AllFresh (call ∷ calls) db = CallIsFresh call db × AllFresh calls (serve service call db).1

  -- Whatever calls come, one after the other, what they answer and leave in the table is allowed of
  -- the open sessions: logins open one, a refresh that answers spends an open one that is not
  -- expired, ending closes a user's, and a call that throws opens none. An id and a token are one
  -- row's at the start, and each call draws a token that no row has.
  pub calls_refine_sessions :
      (calls : List Call) (db : Database)
      → IsKeyed db.refresh_tokens
      → AllFresh calls db
      → let (answers, last) = serve_all service calls db in
        AllowsAll service calls answers (sessions db.refresh_tokens) (sessions last.refresh_tokens)
  unfolding serve_all
  calls_refine_sessions [] db keyed fresh = done (sessions db.refresh_tokens)
  calls_refine_sessions (call ∷ calls) db keyed (fresh, rest) =
      let (allowed, keyed') = call-refines call db keyed fresh in
      next call calls (serve service call db).0 _ _ _ _ allowed
        (calls_refine_sessions calls (serve service call db).1 keyed' rest)
