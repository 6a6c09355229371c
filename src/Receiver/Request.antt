-- ===== src/Receiver/Request.antt =====
-- receiver/src/request.cpp, receiver/src/request_handler/requests_dispatcher.cpp and
-- receiver/src/connection.cpp: a request goes through its handlers, and the producer gets a response.
-- The handlers are a function over the state `W` of the world outside; a message is a number.
pub mod Reply
pub mod Handlers
mod Tests
use asapo.Base.{
  ℕ, ◌⊎◌, inl, inr, Bool, true, List, [], ◌∷◌, Option, none, some, if◌then◌else◌, State, ◌>>=◌,
  pure,
}
use asapo.Common.Networking.{
  NetworkErrorCode, no_error, reauthorize, warning, wrong_request, not_supported,
  authorization_error, internal_server_error,
}

-- `ReceiverErrorType`, and the errors of other kinds that handlers return.
pub data ReceiverError : Type 0 where
  invalid_op_code bad_request authorization_failure internal_error : ReceiverError
  re_authorization_failure warning_duplicated_request unsupported_client processing_error :
      ReceiverError
  memory_allocation_error file_already_exists io_error : ReceiverError

pub data ResponseMessageType : Type 0 where
  info_message warning_message : ResponseMessageType

-- The fields of a `Request` that its handlers set; an empty message is `none`.
pub record Request : Type 0 where
  pub response_message : Option (ℕ × ResponseMessageType)
  pub already_processed : Bool

pub set_response_message : Request → ℕ → ResponseMessageType → Request
set_response_message r m t = record r { response_message = some (m, t) }

pub set_already_processed_flag : Request → Request
set_already_processed_flag r = record r { already_processed = true }

-- `ReceiverRequestHandler::ProcessRequest`, which may change the request.
abbrev pub Step : Type 0 → Type 0
Step W = Request → State W (Option ReceiverError × Request)

module _ {W : Type 0} where
  -- On with the other handlers, or an end at the first error.
  pub next_handler : Step W → Option ReceiverError → Step W
  next_handler rest (some e) r = pure (some e, r)
  next_handler rest none r = rest r

  pub handle : List (Step W) → Step W
  handle [] r = pure (none, r)
  handle (h ∷ hs) r = do (err, r') ← h r; next_handler (handle hs) err r'

pub get_network_code_from_error : Option ReceiverError → NetworkErrorCode
get_network_code_from_error none = no_error
get_network_code_from_error (some authorization_failure) = authorization_error
get_network_code_from_error (some unsupported_client) = not_supported
get_network_code_from_error (some re_authorization_failure) = reauthorize
get_network_code_from_error (some bad_request) = wrong_request
get_network_code_from_error (some _) = internal_server_error

pub record GenericNetworkResponse : Type 0 where
  pub error_code : NetworkErrorCode
  pub message : Option (ReceiverError ⊎ ℕ)

-- The message is the error's explanation, over which the request's own message is written.
pub create_response_to_request : Request → Option ReceiverError → GenericNetworkResponse
unfolding get_network_code_from_error
create_response_to_request r err = elim r.response_message [
  | none ↦ record {
    error_code = get_network_code_from_error err;
    message = elim err [ none ↦ none | some e ↦ some (inl e) ];
  }
  | some (m, type) ↦ record {
    error_code = elim type [
      | warning_message ↦ warning
      | info_message ↦ get_network_code_from_error err
    ];
    message = some (inr m);
  }
]

-- `ProcessRequest` of the dispatcher: handle, send the response, and the error that the connection's
-- loop sees. `send` says whether the response could be sent.
unfoldable pub process_request :
    {W : Type 0}
    → (GenericNetworkResponse → State W Bool)
    → List (Step W)
    → Request
    → State W (Option ReceiverError)
process_request send handlers r = do
  (handle_err, r') ← handle handlers r
  sent ← send (create_response_to_request r' handle_err)
  pure (elim handle_err [ some e ↦ some e | none ↦ if sent then none else some processing_error ])
