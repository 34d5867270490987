-- ===== src/Shared/Filter/Tests.antt =====
-- A request with no id of its own whose handler threw (src/shared).
use stellar_tip_api.Common.{◌≤◌, false, ◌≡◌, refl, ◌⊎◌, none, some, String, is_empty}
use stellar_tip_api.Common.Value.{Value, string, object, array, cons, nil, field, end, property, at}
use stellar_tip_api.Throttler.Storage.{value_truthy}
use stellar_tip_api.Shared.Filter.{
  Thrown, http, error, HttpRequest, respond, log_of, catch_exception, use_request_id, log_finished,
}
use stellar_tip_api.Shared.Filter.Laws.{HasLevel, failure_is_traced}

abbrev request : HttpRequest
request = record { method = "GET"; url = "/tips/x"; original_url = "/tips/x"; request_id = none }

abbrev printed : Value → String
printed v = "v"

abbrev broken : Thrown
broken = error "relation tips does not exist" none

failure_is_traced_example :
    let (request', id) = use_request_id "9f" none request in
    let (logged, response) = catch_exception printed broken request' "t" in
    let line = log_finished printed request' response.status_code 10 25 in
    (response.request_id ≡ id)
    × (is_empty id ≡ false)
    × (((500 ≤ response.status_code) × (logged ≡ some (log_of printed broken request')))
        ⊎ ((response.status_code ≤ 499) × (logged ≡ none)))
    × (property line.meta "requestId" ≡ string id)
    × HasLevel response.status_code line
failure_is_traced_example = failure_is_traced printed "9f" "t" none request broken 10 25 refl

-- The message of an error that is no HTTP exception is sent to the client.
message_is_told : (respond broken request "t").message ≡ string "relation tips does not exist"
unfolding respond
message_is_told = refl

-- Of several messages the first is the message.
first_message :
    (respond
      (http 400
        (object (field "message" (array (cons (string "a") (cons (string "b") nil))) end))
        none)
      request
      "t").message
    ≡ string "a"
unfolding respond property value_truthy at
first_message = refl
