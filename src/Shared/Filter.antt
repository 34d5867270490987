-- ===== src/Shared/Filter.antt =====
-- src/shared: what every response goes through. `GlobalExceptionFilter` of
-- filters/global-exception.filter.ts, `RequestIdMiddleware` and `HttpLoggingMiddleware` of
-- middleware, and `ResponseInterceptor` of interceptors/response.interceptor.ts.
pub mod Laws
mod Tests
use Prim.Native.String
use stellar_tip_api.Common.{
  ℕ, Bool, true, false, String, Option, none, some, if◌then◌else◌, leb, or_text, truthy, ◌-◌,
}
use stellar_tip_api.Common.Num.{Num, num, fin, negsuc}
use stellar_tip_api.Common.Value.{
  Value, Values, Fields, undefined, string, number, array, object, nil, cons, field, end, property,
  at,
}
use stellar_tip_api.Throttler.Storage.{value_truthy}
use stellar_tip_api.Shared.Logging.{Entry, info, warn, log_at, log_error}

-- What a handler threw: an `HttpException` with its status and response, an `Error` with its
-- message and stack, or anything else.
pub data Thrown : Type 0 where
  http : ℕ → Value → Option String → Thrown
  error : String → Option String → Thrown
  other : Thrown

abbrev pub status_of : Thrown → ℕ
status_of (http status response stack) = status
status_of (error message stack) = 500
status_of other = 500

-- `errors[0] || message`, where an array of messages was taken for the message before
abbrev pub first_or_all : Values → Value
first_or_all messages = if value_truthy (at messages 0) then at messages 0 else array messages

abbrev pub internal : Value
internal = string "Internal server error"

-- the message of `resp.message`
abbrev pub message_of_field : Value → Value
message_of_field (array messages) = first_or_all messages
message_of_field v = if value_truthy v then v else internal

abbrev pub message_of_response : Value → Value
message_of_response (string s) = string s
message_of_response (object fs) = message_of_field (property fs "message")
message_of_response v = internal

abbrev pub message_of : Thrown → Value
message_of (http status response stack) = message_of_response response
message_of (error message stack) = string message
message_of other = internal

-- the messages of an array, if there are any
abbrev pub errors_of_field : Value → Option Values
errors_of_field (array (cons v vs)) = some (cons v vs)
errors_of_field v = none

abbrev pub errors_of : Thrown → Option Values
errors_of (http status (object fs) stack) = errors_of_field (property fs "message")
errors_of thrown = none

abbrev pub stack_of : Thrown → Option String
stack_of (http status response stack) = stack
stack_of (error message stack) = stack
stack_of other = none

pub record ErrorResponse : Type 0 where
  pub status_code : ℕ
  pub message : Value
  pub errors : Option Values
  pub request_id : String
  pub timestamp : String
  pub path : String

pub record HttpRequest : Type 0 where
  pub method : String
  pub url : String
  pub original_url : String
  pub request_id : Option String

unfoldable pub respond : Thrown → HttpRequest → String → ErrorResponse
respond thrown request timestamp = record {
  status_code = status_of thrown;
  message = message_of thrown;
  errors = errors_of thrown;
  request_id = or_text request.request_id "unknown";
  timestamp = timestamp;
  path = request.url;
}

module _ (string_of : Value → String) where
  abbrev pub log_of : Thrown → HttpRequest → Entry
  log_of thrown request =
      log_error
        (String.◌++◌ request.method (
          String.◌++◌ " " (
            String.◌++◌ request.url (
              String.◌++◌ " " (
                String.◌++◌ (string_of (number (num (status_of thrown))))
                  (String.◌++◌ ": " (string_of (message_of thrown))))))))
        (stack_of thrown) (some "ExceptionFilter")
        (some (
          field "requestId" (string (or_text request.request_id "unknown"))
            (field "statusCode" (number (num (status_of thrown))) end)))

  -- what is logged, and what is answered
  unfoldable pub catch_exception : Thrown → HttpRequest → String → Option Entry × ErrorResponse
  unfolding respond
  catch_exception thrown request timestamp = (
    if leb 500 (status_of thrown) then some (log_of thrown request) else none,
    respond thrown request timestamp,
  )

-- `RequestIdMiddleware`: the request with its id, and the header `X-Request-Id` of the response
unfoldable pub use_request_id : String → Option String → HttpRequest → HttpRequest × String
use_request_id uuid header request =
    let request_id = or_text header uuid in
    (record request { request_id = some request_id }, request_id)

-- `Date.now() - startTime`; the clock may have been set back
unfoldable pub duration : ℕ → ℕ → Num
duration start now = if leb start now then num (now - start) else fin (negsuc (start - now - 1))

-- `requestId ?? ''`
unfoldable pub id_of : HttpRequest → String
id_of request = elim (request.request_id) [ none ↦ "" | some id ↦ id ]

-- `HttpLoggingMiddleware`: what the line of a finished request tells
unfoldable pub meta_of : HttpRequest → ℕ → Num → Fields
unfolding id_of
meta_of request status_code took = field "method" (string request.method) (
    field "url" (string request.original_url) (
      field "statusCode" (number (num status_code))
        (field "duration" (number took) (field "requestId" (string (id_of request)) end))))

-- the line of a text and its data, at the level of the status
unfoldable pub log_status : ℕ → String → Fields → Entry
log_status status_code msg meta =
    if leb 500 status_code
    then log_error msg none (some "HTTP") (some meta)
    else log_at (if leb 400 status_code then warn else info) msg (some "HTTP") (some meta)

-- what is logged when the response has been sent
unfoldable pub log_finished : (Value → String) → HttpRequest → ℕ → ℕ → ℕ → Entry
unfolding log_status meta_of duration
log_finished string_of request status_code start now =
    log_status status_code
      (String.◌++◌ request.method (
        String.◌++◌ " " (
          String.◌++◌ request.original_url (
            String.◌++◌ " " (
              String.◌++◌ (string_of (number (num status_code)))
                (String.◌++◌ " " (String.◌++◌ (string_of (number (duration start now))) "ms")))))))
      (meta_of request status_code (duration start now))

pub record SuccessResponse {ℓ} (T : Type ℓ) : Type ℓ where
  pub success : Bool
  pub status_code : ℕ
  pub body : T
  pub request_id : String
  pub timestamp : String

-- `ResponseInterceptor`: the answer of a handler in its envelope
unfoldable pub intercept {ℓ} : {T : Type ℓ} → HttpRequest → ℕ → T → String → SuccessResponse T
unfolding id_of
intercept request status_code body timestamp = record {
  success = true;
  status_code = status_code;
  body = body;
  request_id = id_of request;
  timestamp = timestamp;
}
