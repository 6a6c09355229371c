-- ===== src/Receiver/Request/Tests.antt =====
-- The theorems about the order of handlers and the response at concrete requests.
use asapo.Base.{◌≡◌, ◌↔◌, none, some, true, false}
use asapo.Common.Networking.{no_error, warning}
use asapo.Receiver.Request.{internal_error, Request, warning_message, create_response_to_request}
use asapo.Receiver.Request.Reply.{is_warned, response_codes}

abbrev warned_request : Request
warned_request = record { response_message = some (4, warning_message); already_processed = false }

response_codes_example :
    let code = (create_response_to_request warned_request (some internal_error)).error_code in
    ((code ≡ no_error) ↔ ((some internal_error ≡ none) × (is_warned warned_request ≡ false)))
    × ((code ≡ warning) ↔ (is_warned warned_request ≡ true))
response_codes_example = response_codes warned_request (some internal_error)
