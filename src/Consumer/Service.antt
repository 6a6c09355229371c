-- ===== src/Consumer/Service.antt =====
-- consumer/api/cpp/src/consumer_impl.cpp and consumer_impl.h: the requests of the consumer to the
-- services: the errors it makes of replies, the search for a service, and the requests that it repeats
-- until a timeout. A text is the list of its bytes. The HTTP client, the JSON parser and what other
-- threads do are functions over the state `W` of the world outside. The address of a request is kept in
-- its parts, and the texts of errors are left out. Times are in milliseconds and do not reach 2^64.
pub mod Repeat
pub mod Timeout
pub mod Record
pub mod Data
pub mod Message
mod Tests
use asapo.Base.{
  ℕ, zero, suc, ◌+◌, Bool, true, false, ◌||◌, List, [], ◌∷◌, Option, none, some, ◌==◌, ltb, leb,
  if◌then◌else◌, State, ◌>>=◌, ◌>>◌, pure, effect,
}
use asapo.Common.Encoding.{c_string}

abbrev pub Text : Type 0
Text = List ℕ

pub data HttpError : Type 0 where
  transfer_error connection_error : HttpError

pub data HttpCode : Type 0 where
  ok no_content partial_content bad_request unauthorized internal_server_error : HttpCode
  service_unavailable not_found conflict unsupported_media_type : HttpCode
  other_code : ℕ → HttpCode

pub record ConsumerErrorData : Type 0 where
  pub id : ℕ
  pub id_max : ℕ
  pub next_stream : Text

pub record PartialErrorData : Type 0 where
  pub id : ℕ
  pub expected_size : ℕ

-- An error with the data that is set with it, and `none` where no data is set; `simple_error` is one of
-- the JSON parser.
pub data ConsumerError : Type 0 where
  wrong_input interrupted_transaction unavailable_service unsupported_client : ConsumerError
  local_io_error simple_error : ConsumerError
  no_data end_of_stream stream_finished : Option ConsumerErrorData → ConsumerError
  partial_data : Option PartialErrorData → ConsumerError

-- `JsonStringParser` on a text and the name of a field.
pub record JsonParser : Type 0 where
  pub get_uint64 : Text → Text → Option ℕ
  pub get_string : Text → Text → Option Text

-- `std::string::find` with a result.
pub starts_with : Text → Text → Bool
starts_with [] s = true
starts_with (c ∷ p) [] = false
starts_with (c ∷ p) (d ∷ s) = let rest = starts_with p s in if c == d then rest else false

pub contains : Text → Text → Bool
unfolding starts_with
contains p [] = starts_with p []
contains p (c ∷ s) = starts_with p (c ∷ s) || contains p s

abbrev pub get_record_by_id : Text
get_record_by_id =
    b'g' ∷ b'e' ∷ b't' ∷ b'_' ∷ b'r' ∷ b'e' ∷ b'c' ∷ b'o' ∷ b'r' ∷ b'd' ∷ b'_' ∷ b'b' ∷ b'y' ∷ b'_'
    ∷ b'i' ∷ b'd' ∷ []

abbrev pub id_name : Text
id_name = b'i' ∷ b'd' ∷ []

abbrev pub id_max_name : Text
id_max_name = b'i' ∷ b'd' ∷ b'_' ∷ b'm' ∷ b'a' ∷ b'x' ∷ []

abbrev pub next_stream_name : Text
next_stream_name = b'n' ∷ b'e' ∷ b'x' ∷ b't' ∷ b'_' ∷ b's' ∷ b't' ∷ b'r' ∷ b'e' ∷ b'a' ∷ b'm' ∷ []

abbrev pub size_name : Text
size_name = b's' ∷ b'i' ∷ b'z' ∷ b'e' ∷ []

abbrev pub underscore_id_name : Text
underscore_id_name = b'_' ∷ b'i' ∷ b'd' ∷ []

abbrev pub and_then : {A B : Type 0} → Option A → (A → Option B) → Option B
and_then none f = none
and_then (some a) f = f a

abbrev pub is_empty : Text → Bool
is_empty [] = true
is_empty (c ∷ cs) = false

module _ (json : JsonParser) where
  pub get_no_data_response_from_json : Text → Option ConsumerErrorData
  get_no_data_response_from_json s = and_then (json.get_uint64 s id_name) (λ i.
      and_then (json.get_uint64 s id_max_name) (λ m.
        and_then (json.get_string s next_stream_name)
          (λ n. some (record { id = i; id_max = m; next_stream = n }))))

  pub get_partial_data_response_from_json : Text → Option PartialErrorData
  get_partial_data_response_from_json s = and_then (json.get_uint64 s size_name) (λ n.
      and_then (json.get_uint64 s underscore_id_name)
        (λ i. some (record { id = i; expected_size = n })))

  pub consumer_error_from_partial_data_response : Text → ConsumerError
  consumer_error_from_partial_data_response s = elim (get_partial_data_response_from_json s) [
    | none ↦ interrupted_transaction
    | some d ↦ partial_data (some d)
  ]

  pub no_data_error : ConsumerErrorData → ConsumerError
  no_data_error d =
      if leb d.id_max d.id
      then (if is_empty d.next_stream then end_of_stream (some d) else stream_finished (some d))
      else no_data (some d)

  pub consumer_error_from_no_data_response : Text → ConsumerError
  unfolding contains get_no_data_response_from_json no_data_error
  consumer_error_from_no_data_response s =
      if contains get_record_by_id s
      then elim (get_no_data_response_from_json s) [
        | none ↦ interrupted_transaction
        | some d ↦ no_data_error d
      ]
      else no_data none

  -- `c_string`: the text is passed as a C string.
  pub consumer_error_from_http_code : HttpCode → Text → Option ConsumerError
  consumer_error_from_http_code ok s = none
  consumer_error_from_http_code no_content s = none
  consumer_error_from_http_code partial_content s =
      some (consumer_error_from_partial_data_response (c_string s))
  consumer_error_from_http_code bad_request s = some wrong_input
  consumer_error_from_http_code unauthorized s = some wrong_input
  consumer_error_from_http_code internal_server_error s = some interrupted_transaction
  consumer_error_from_http_code service_unavailable s = some unavailable_service
  consumer_error_from_http_code not_found s = some unavailable_service
  consumer_error_from_http_code conflict s =
      some (consumer_error_from_no_data_response (c_string s))
  consumer_error_from_http_code unsupported_media_type s = some unsupported_client
  consumer_error_from_http_code (other_code n) s = some interrupted_transaction

  abbrev pub consumer_error_from_server_error : HttpError → ConsumerError
  consumer_error_from_server_error transfer_error = interrupted_transaction
  consumer_error_from_server_error connection_error = unavailable_service

  pub process_request_responce : Option HttpError → HttpCode → Text → Option ConsumerError
  unfolding consumer_error_from_http_code
  process_request_responce (some e) code s = some (consumer_error_from_server_error e)
  process_request_responce none code s = consumer_error_from_http_code code s

pub data Service : Type 0 where
  broker file_transfer : Service

-- The last part of the address of a request: what `OpToUriCmd` gives, an identifier or another word.
pub data Suffix : Type 0 where
  next groupedlast last error_command : Suffix
  by_id : ℕ → Suffix
  other_command : Text → Suffix

pub data Api : Type 0 where
  discovery : Service → Api
  broker_api : Text → Text → Suffix → Api
  transfer : Text → Api
  folder_token : Api

-- `none` of the parameters stands for one that is not given.
pub record RequestInfo : Type 0 where
  pub host : Text
  pub api : Api
  pub min_size : Option ℕ
  pub resend : Option (ℕ × ℕ)
  pub cookie : Text
  pub size_only : Bool
  pub post : Bool

-- What the client uses. `request` is `Get` or `Post` with the reply's text; `sleep` waits 100 ms and says
-- how long the round took.
pub record ServiceIo (W : Type 0) : Type 0 where
  pub json : JsonParser
  pub endpoint : Text
  pub request : RequestInfo → State W (Option HttpError × HttpCode × Text)
  pub interrupted : W → Bool
  pub clear_interrupt_flag : W → W
  pub sleep : State W ℕ

-- An error or `nullptr`, the text of the reply, and the address of the service, empty where none is
-- known.
abbrev pub Reply : Type 0
Reply = Option ConsumerError × Text × Text

module _ {W : Type 0} (io : ServiceIo W) where
  -- The address is forgotten only if there was no reply.
  pub process_request : RequestInfo → Text → State W Reply
  process_request r uri w =
      let ((err, code, s), w') = io.request r w in
      ((process_request_responce io.json err code s, s, elim err [ none ↦ uri | some e ↦ [] ]), w')

  abbrev pub get_discovery_request : Service → RequestInfo
  get_discovery_request service = record {
    host = io.endpoint;
    api = discovery service;
    min_size = none;
    resend = none;
    cookie = [];
    size_only = false;
    post = false;
  }

  pub process_discover_service_result : Option ConsumerError → Text → Option ConsumerError × Text
  process_discover_service_result none [] = (some unavailable_service, [])
  process_discover_service_result none (c ∷ uri) = (none, c ∷ uri)
  process_discover_service_result (some unsupported_client) uri = (some unsupported_client, [])
  process_discover_service_result (some err) uri = (some unavailable_service, [])

  pub discover_service : Service → Text → State W (Option ConsumerError × Text)
  unfolding process_request process_discover_service_result
  discover_service service (c ∷ uri) w = ((none, c ∷ uri), w)
  discover_service service [] w =
      let ((err, s, _), w') = process_request (get_discovery_request service) [] w in
      (process_discover_service_result err s, w')
