-- ===== src/Producer/Tcp/Connection.antt =====
-- producer/api/cpp/src/request_handler_tcp.cpp: the connection of a handler to a receiver.
-- A socket is a number, `none` is kDisconnectedSocketDescriptor; a URI, a path and a message are
-- numbers, and an empty `connected_receiver_uri_` is `none`. The calls of the `IO` interface, of the
-- clock and of the discovery service are the functions of a record, over a state `W` of the world
-- outside. Log messages are left out.
use asapo.Base.{ℕ, Bool, true, false, List, Option, none, some, State, ◌>>=◌, ◌>>◌, pure, effect}
use asapo.Common.Networking.{
  NetworkErrorCode, no_error, reauthorize, warning, wrong_request, not_supported,
  authorization_error, GenericRequestHeader,
}

pub data ProducerError : Type 0 where
  wrong_input local_io_error unsupported_client server_warning : ProducerError
  re_authorization_needed internal_error timeout_error io_error : ProducerError

-- What goes over the socket.
pub data Payload : Type 0 where
  authorize_header : Payload
  credentials : Payload
  header : GenericRequestHeader → Payload
  metadata : Payload
  body : Payload

pub record SendResponse : Type 0 where
  pub error_code : NetworkErrorCode
  pub message : ℕ

-- `send`, `send_file` say whether they succeeded; `connect`, `receive` and `file_size` are `none` on an
-- error. `header_size` is `sizeof(GenericRequestHeader)`.
pub record Io (W : Type 0) : Type 0 where
  pub header_size : ℕ
  pub connect : ℕ → W → Option ℕ × W
  pub send : ℕ → Payload → ℕ → W → Bool × W
  pub send_file : ℕ → ℕ → ℕ → W → Bool × W
  pub receive : ℕ → W → Option SendResponse × W
  pub close_socket : ℕ → W → W
  pub file_size : ℕ → W → Option ℕ × W
  pub now : W → ℕ × W
  pub rotated_uri_list : ℕ → W → List ℕ × W
  pub update_frequency : W → ℕ
  pub max_connections : W → ℕ

pub record RequestHandlerTcp : Type 0 where
  pub sd : Option ℕ
  pub receivers_list : List ℕ
  pub last_receivers_uri_update : ℕ
  pub thread_id : ℕ
  pub connected_receiver_uri : Option ℕ

unfoldable pub connected : RequestHandlerTcp → Bool
connected h = elim h.sd [ none ↦ false | some _ ↦ true ]

-- `ReceiveResponse` on what was received.
pub response_error : SendResponse → Option ProducerError
response_error r = elim r.error_code [
  | authorization_error ↦ some wrong_input
  | not_supported ↦ some unsupported_client
  | wrong_request ↦ some wrong_input
  | warning ↦ some server_warning
  | reauthorize ↦ some re_authorization_needed
  | no_error ↦ none
  | _ ↦ some internal_error
]

module _ {W : Type 0} (io : Io W) where
  unfoldable pub receive_response : ℕ → State W (Option ProducerError × Option ℕ)
  receive_response sd = do
    answer ← io.receive sd
    pure (elim answer [
      | none ↦ (some io_error, none)
      | some r ↦ elim (response_error r) [ none ↦ (none, some r.message) | some e ↦ (some e, none) ]
    ])

  pub authorize : ℕ → ℕ → State W (Option ProducerError)
  unfolding receive_response
  authorize sd credentials_size = do
    sent ← io.send sd authorize_header io.header_size
    elim sent [
      | false ↦ pure (some io_error)
      | true ↦ do
        sent' ← io.send sd credentials credentials_size
        elim sent' [
          | false ↦ pure (some io_error)
          | true ↦ do (err, _) ← receive_response sd; pure err
        ]
    ]

  -- `Disconnect`; the socket is closed if there is one.
  unfoldable pub disconnect : RequestHandlerTcp → State W RequestHandlerTcp
  disconnect h = elim h.sd [
    | none ↦ pure (record h { connected_receiver_uri = none })
    | some sd ↦ do
      effect (io.close_socket sd)
      pure (record h { sd = none; connected_receiver_uri = none })
  ]

  unfoldable pub connect_to_receiver :
      RequestHandlerTcp → ℕ → ℕ → State W (Option ProducerError × RequestHandlerTcp)
  unfolding disconnect
  connect_to_receiver h credentials_size uri = do
    socket ← io.connect uri
    elim socket [
      | none ↦ pure (some io_error, record h { sd = none })
      | some sd ↦ do
        err ← authorize sd credentials_size
        let h' = record h { sd = some sd; connected_receiver_uri = some uri }
        elim err [ none ↦ pure (none, h') | some e ↦ do h'' ← disconnect h'; pure (some e, h'') ]
    ]
