-- ===== src/Shared/Filter/Laws.antt =====
-- Requests that fail, by src/shared/filters and src/shared/middleware together.
use stellar_tip_api.Common.{
  ℕ, ◌≤◌, false, String, ◌≡◌, refl, ◌⊎◌, inl, inr, Option, none, some, leb, leb→le, or_text,
  is_empty, arith, Bool-cases,
}
use stellar_tip_api.Common.Num.{Num}
use stellar_tip_api.Common.Value.{Value, Fields, string, property}
use stellar_tip_api.Shared.Logging.{
  Entry, error, warn, info, log_at, log_error, format_meta, with_meta, with_text, assign, set_field,
  redact_sensitive, redact_fields, redact_value, is_sensitive,
}
use stellar_tip_api.Shared.Filter.{
  Thrown, HttpRequest, status_of, respond, log_of, catch_exception, use_request_id, id_of, meta_of,
  log_status, log_finished,
}

or_text-set : (o : Option String) (t : String) → is_empty t ≡ false → is_empty (or_text o t) ≡ false
or_text-set none t set = set
or_text-set (some s) t set = elim (Bool-cases (is_empty s)) [ inl e ↦ rw e set | inr f ↦ rw f f ]

request_id_lem :
    (uuid : String) (header : Option String)
    → is_empty uuid ≡ false
    → or_text (some (or_text header uuid)) "unknown" ≡ or_text header uuid
request_id_lem uuid header set = rw (or_text-set header uuid set) refl

logged_id :
    (status_code : ℕ) (msg : String) (request : HttpRequest) (took : Num)
    → property (log_status status_code msg (meta_of request status_code took)).meta "requestId"
      ≡ string (id_of request)
unfolding log_status meta_of log_at log_error format_meta with_meta with_text assign set_field
    redact_sensitive redact_fields redact_value is_sensitive property
logged_id status_code msg request took = elim (Bool-cases (leb 500 status_code)) [
  | inl t ↦ rw t refl
  | inr f ↦ rw f refl
]

-- An entry at the level that a status calls for.
pub HasLevel : ℕ → Entry → Type 0
HasLevel status_code line =
    ((500 ≤ status_code) × (line.level ≡ error))
    ⊎ ((400 ≤ status_code) × (status_code ≤ 499) × (line.level ≡ warn))
    ⊎ ((status_code ≤ 399) × (line.level ≡ info))

log_status-HasLevel :
    (status_code : ℕ) (msg : String) (meta : Fields)
    → HasLevel status_code (log_status status_code msg meta)
unfolding HasLevel log_status log_at log_error
log_status-HasLevel status_code msg meta = elim (Bool-cases (leb 500 status_code)) [
  | inl t ↦ inl (leb→le 500 status_code t, rw t refl)
  | inr f ↦ inr (elim (Bool-cases (leb 400 status_code)) [
    | inl t ↦ inl (leb→le 400 status_code t, ground (arith, f), rw f (rw t refl))
    | inr g ↦ inr (ground (arith, g), rw f (rw g refl))
  ])
]

-- The answer to a request that failed tells the id that is also in the header X-Request-Id, and that
-- is never empty, since the random one is not. The failure is logged just when its status is 500 or
-- more. The line of the finished request has the same id, and its level is error from 500 on, warn
-- from 400 to 499, and info below.
pub failure_is_traced :
    (string_of : Value → String) (uuid timestamp : String) (header : Option String)
    (request : HttpRequest) (thrown : Thrown) (start now : ℕ)
    → is_empty uuid ≡ false
    → let (request', id) = use_request_id uuid header request in
      let (logged, response) = catch_exception string_of thrown request' timestamp in
      let line = log_finished string_of request' response.status_code start now in
      (response.request_id ≡ id)
      × (is_empty id ≡ false)
      × (((500 ≤ response.status_code) × (logged ≡ some (log_of string_of thrown request')))
          ⊎ ((response.status_code ≤ 499) × (logged ≡ none)))
      × (property line.meta "requestId" ≡ string id)
      × HasLevel response.status_code line
unfolding use_request_id catch_exception respond log_finished id_of
failure_is_traced string_of uuid timestamp header request thrown start now set =
    let request' = record request { request_id = some (or_text header uuid) } in
    (
      request_id_lem uuid header set,
      or_text-set header uuid set,
      elim (Bool-cases (leb 500 (status_of thrown))) [
        | inl t ↦ inl (leb→le 500 (status_of thrown) t, rw t refl)
        | inr f ↦ inr (ground (arith, f), rw f refl)
      ],
      logged_id (status_of thrown) _ request' _,
      log_status-HasLevel (status_of thrown) _ _,
    )
