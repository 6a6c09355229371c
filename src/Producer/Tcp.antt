-- ===== src/Producer/Tcp.antt =====
-- producer/api/cpp/src/request_handler_tcp.cpp: how a request is sent to one of the receivers. Its children
-- Connection and Receivers have the connection to one and the list of all.
pub mod Connection
pub mod Receivers
pub mod Send
pub mod Counter
mod Tests
use asapo.Base.{
  ℕ, ◌+◌, ◌-◌, Bool, true, false, not, ◌&&◌, ◌||◌, List, [], ◌∷◌, Option, none, some, ltb, ◌==◌,
  if◌then◌else◌, sub64, add64, State, ◌>>=◌, ◌>>◌, pure, effect,
}
use asapo.Common.Networking.{
  NetworkErrorCode, no_error, reauthorize, warning, wrong_request, not_supported, no_data,
  authorization_error, internal_server_error, GenericRequestHeader,
}
use asapo.Producer.Request.{ProducerRequest, need_send, need_send_meta_data, data_from_file}
use asapo.Producer.Tcp.Connection.{
  ProducerError, wrong_input, local_io_error, unsupported_client, server_warning,
  re_authorization_needed, internal_error, timeout_error, io_error, Payload, header, metadata, body,
  Io, RequestHandlerTcp, connected, receive_response, disconnect, connect_to_receiver,
}
use asapo.Producer.Tcp.Receivers.{update_receivers_list, rebalance_if_needed}

pub server_error : Option ProducerError → Bool
server_error none = false
server_error (some wrong_input) = false
server_error (some local_io_error) = false
server_error (some unsupported_client) = false
server_error (some server_warning) = false
server_error (some re_authorization_needed) = true
server_error (some internal_error) = true
server_error (some timeout_error) = true
server_error (some io_error) = true

pub immediate_callback_after_error : Option ProducerError → Bool
immediate_callback_after_error (some wrong_input) = true
immediate_callback_after_error (some unsupported_client) = true
immediate_callback_after_error _ = false

-- There is an error and it is no warning.
pub failed : Option ProducerError → Bool
failed none = false
failed (some server_warning) = false
failed (some _) = true

-- The result of `ProcessRequestUnlocked`, `*retry`, and what the callback was called with.
pub record Outcome : Type 0 where
  pub success : Bool
  pub retry : Bool
  pub callback : Option (Option ProducerError × Option ℕ)

-- `ProcessRequestCallback`, and the value that its caller returns.
pub answered : ProducerRequest → Option ProducerError → Option ℕ → Bool → Outcome
answered r err response success = record {
  success = success;
  retry = false;
  callback = if r.has_callback then some (err, response) else none;
}

pub put_back : Outcome
put_back = record { success = false; retry = true; callback = none }

-- The functions that take the pool's mutex and the counter that the pool's handlers share.
pub can_create_new_connections : ℕ → ℕ → Bool
can_create_new_connections ncurrent max_connections = ltb ncurrent max_connections

pub ready_process_request : RequestHandlerTcp → ℕ → ℕ → Bool
unfolding connected can_create_new_connections
ready_process_request h ncurrent max_connections =
    connected h || can_create_new_connections ncurrent max_connections

pub tear_down_processing_request_locked : ℕ → Bool → ℕ
tear_down_processing_request_locked ncurrent request_processed_successfully =
    if not request_processed_successfully && ltb 0 ncurrent then ncurrent - 1 else ncurrent

-- `ProcessRequestTimeoutUnlocked`.
pub process_request_timeout : ProducerRequest → Option (Option ProducerError × Option ℕ)
process_request_timeout r = if r.has_callback then some (some timeout_error, none) else none

module _ {W : Type 0} (io : Io W) where
  pub send_data : ℕ → ProducerRequest → State W (Option ProducerError)
  unfolding need_send data_from_file
  send_data sd r = elim (need_send r) [
    | false ↦ pure none
    | true ↦ do
      sent ← elim (data_from_file r) [
        | some path ↦ io.send_file sd path r.header.data_size
        | none ↦ io.send sd body r.header.data_size
      ]
      pure (if sent then none else some io_error)
  ]

  pub send_meta_data : ℕ → ProducerRequest → State W (Option ProducerError)
  unfolding need_send_meta_data
  send_meta_data sd r = elim (need_send_meta_data r) [
    | false ↦ pure none
    | true ↦ do
      sent ← io.send sd metadata r.header.meta_size
      pure (if sent then none else some io_error)
  ]

  pub send_request_content : ℕ → ProducerRequest → State W (Option ProducerError)
  unfolding send_meta_data send_data
  send_request_content sd r = do
    sent ← io.send sd (header r.header) io.header_size
    elim sent [
      | false ↦ pure (some io_error)
      | true ↦ do
        err ← send_meta_data sd r
        elim err [ some e ↦ pure (some e) | none ↦ send_data sd r ]
    ]

  pub try_send_to_receiver : ℕ → ProducerRequest → State W (Option ProducerError × Option ℕ)
  unfolding send_request_content receive_response
  try_send_to_receiver sd r = do
    err ← send_request_content sd r
    elim err [ some e ↦ pure (some e, none) | none ↦ receive_response io sd ]

  pub process_error_from_receiver :
      Option ProducerError → RequestHandlerTcp → State W (Bool × RequestHandlerTcp)
  unfolding disconnect server_error failed
  process_error_from_receiver err h = elim (failed err) [
    | false ↦ pure (server_error err, h)
    | true ↦ do h' ← disconnect io h; pure (server_error err, h')
  ]

  -- The second half of the loop's body, on a connected handler: `none` is `continue`.
  pub send_connected :
      RequestHandlerTcp → ℕ → ProducerRequest → State W (Option Outcome × RequestHandlerTcp)
  send_connected h sd r = do
    (err, response) ← try_send_to_receiver sd r
    (can_retry, h') ← process_error_from_receiver err h
    pure (if can_retry then none else some (answered r err response (not (failed err))), h')

  -- Where `ConnectToReceiver` has returned no error there is a socket.
  pub send_if_connected :
      RequestHandlerTcp → ProducerRequest → State W (Option Outcome × RequestHandlerTcp)
  send_if_connected h r = elim h.sd [ none ↦ pure (none, h) | some sd ↦ send_connected h sd r ]

  -- The first half of the loop's body, once `ConnectToReceiver` has returned.
  pub after_connect :
      ProducerRequest
      → Option ProducerError
      → RequestHandlerTcp
      → State W (Option Outcome × RequestHandlerTcp)
  after_connect r none h = send_if_connected h r
  after_connect r (some e) h = pure (
    if immediate_callback_after_error (some e) then some (answered r (some e) none false) else none,
    h,
  )

  -- The body of the loop over the receivers.
  pub send_to_receiver :
      RequestHandlerTcp → ProducerRequest → ℕ → State W (Option Outcome × RequestHandlerTcp)
  send_to_receiver h r uri = elim h.sd [
    | some sd ↦ send_connected h sd r
    | none ↦ do
      (err, h') ← connect_to_receiver io h r.source_credentials_size uri
      after_connect r err h'
  ]

  -- The end of the loop's body: `return`, or on with the next receiver.
  pub next_receiver :
      (RequestHandlerTcp → State W (Outcome × RequestHandlerTcp))
      → Option Outcome
      → RequestHandlerTcp
      → State W (Outcome × RequestHandlerTcp)
  next_receiver rest none h = rest h
  next_receiver rest (some outcome) h = pure (outcome, h)

  -- The loop of `SendToOneOfTheReceivers`.
  pub send_to_one_of :
      List ℕ → RequestHandlerTcp → ProducerRequest → State W (Outcome × RequestHandlerTcp)
  send_to_one_of [] h r = pure (put_back, h)
  send_to_one_of (uri ∷ uris) h r = do
    (result, h') ← send_to_receiver h r uri
    next_receiver (λ x. send_to_one_of uris x r) result h'

  -- `UpdateDataSizeFromFileIfNeeded`; `none` is kLocalIOError.
  pub update_data_size_from_file_if_needed : ProducerRequest → State W (Option ProducerRequest)
  unfolding data_from_file
  update_data_size_from_file_if_needed r = elim (data_from_file r) [
    | none ↦ pure (some r)
    | some path ↦ elim (ltb 0 r.header.data_size) [
      | true ↦ pure (some r)
      | false ↦ do
        size ← io.file_size path
        pure (elim size [
          | none ↦ none
          | some n ↦ some (record r { header = record (r.header) { data_size = n } })
        ])
    ]
  ]

  -- `ProcessRequestUnlocked` once the data's size is known, or the file could not be read.
  pub process_sized :
      RequestHandlerTcp
      → ProducerRequest
      → Option ProducerRequest
      → State W (Outcome × RequestHandlerTcp)
  process_sized h r none = pure (answered r (some local_io_error) none false, h)
  process_sized h r (some r') = do
    h' ← rebalance_if_needed io h
    send_to_one_of h'.receivers_list h' r'

  pub process_request_unlocked :
      RequestHandlerTcp → ProducerRequest → State W (Outcome × RequestHandlerTcp)
  process_request_unlocked h r = do
    sized ← update_data_size_from_file_if_needed r
    process_sized h r sized

  -- `PrepareProcessingRequestLocked`, with the counter.
  pub prepare_processing_request_locked : RequestHandlerTcp → ℕ → State W (ℕ × RequestHandlerTcp)
  unfolding update_receivers_list
  prepare_processing_request_locked h ncurrent = elim h.sd [
    | some _ ↦ pure (ncurrent, h)
    | none ↦ do (_, h') ← update_receivers_list io h; pure (add64 ncurrent 1, h')
  ]
