-- ===== src/Consumer/Service/Data.antt =====
-- consumer_impl.cpp: `RetrieveData`, which takes the data of a message from the cache of a receiver, from
-- a file or from the file transfer service. An out-parameter is an argument and a part of the result.
pub mod Transfer
pub mod Source
pub mod Fetch
use asapo.Base.{
  ℕ, ◌+◌, Bool, true, false, not, ◌&&◌, [], ◌∷◌, ◌++◌, Option, none, some, ltb, ◌==◌, if◌then◌else◌,
  State,
}
use asapo.Consumer.Service.{
  ServiceIo, RequestInfo, transfer, folder_token, file_transfer, Text, ConsumerError, wrong_input,
  interrupted_transaction, local_io_error, simple_error, Reply, process_request, is_empty,
}
use asapo.Consumer.Service.Repeat.{repeat}
use asapo.Consumer.Service.Timeout.{service_request_with_timeout}

pub record MessageMeta : Type 0 where
  pub name : Text
  pub size : ℕ
  pub buf_id : ℕ

pub data NetworkConnectionType : Type 0 where
  undefined asapo_tcp fabric : NetworkConnectionType

-- `NetClient`, the two that there are.
pub data NetClient : Type 0 where
  tcp_client fabric_client : NetClient

pub data NetError : Type 0 where
  net_error_no_data other_net_error : NetError

-- The state of `ConsumerImpl` and the world.
pub record Consumer (W : Type 0) : Type 0 where
  pub net_client : Option NetClient
  pub current_connection_type : NetworkConnectionType
  pub should_try_rdma_first : Bool
  pub folder_token_ : Text
  pub current_fts_uri : Text
  pub current_broker_uri : Text
  pub outside : W

-- `until_locked` is what other threads do to the consumer before this one has the mutex of its client.
pub record DataIo (W : Type 0) : Type 0 where
  pub service : ServiceIo W
  pub timeout_ms : ℕ
  pub source_path : Text
  pub has_filesystem : Bool
  pub get_data : NetClient → MessageMeta → Text → State W (Option NetError × Text)
  pub read_file : Text → State W (Bool × ℕ × Text)
  pub until_locked : Consumer W → Consumer W

abbrev pub file_size_name : Text
file_size_name = b'f' ∷ b'i' ∷ b'l' ∷ b'e' ∷ b'_' ∷ b's' ∷ b'i' ∷ b'z' ∷ b'e' ∷ []

-- `none` while a loop has not ended; else an error or `nullptr`, the metadata and the data.
abbrev pub Result : Type 0
Result = Option (Option ConsumerError × MessageMeta × Text)

pub full_name : Text → Text → Text
full_name [] name = name
full_name (c ∷ base_path) name = (c ∷ base_path) ++ b'/' ∷ name

module _ {W : Type 0} (io : DataIo W) where
  -- `net_client__->GetData`.
  pub ask_client : NetClient → MessageMeta → Text → State (Consumer W) (Option NetError × Text)
  ask_client client info bytes c =
      let (result, w) = io.get_data client info bytes c.outside in
      (result, record c { outside = w })

  -- Whether a receiver has answered.
  abbrev pub is_connected : Option NetError → Bool
  is_connected none = true
  is_connected (some net_error_no_data) = true
  is_connected (some other_net_error) = false

  pub use_tcp : MessageMeta → Text → State (Consumer W) (Option NetError × Text)
  unfolding ask_client
  use_tcp info bytes c =
      ask_client tcp_client info bytes
        (record c { net_client = some tcp_client; current_connection_type = asapo_tcp })

  -- The branch of `should_try_rdma_first_` once the fabric client has answered.
  pub after_rdma :
      MessageMeta → (Option NetError × Text) × Consumer W → (Option NetError × Text) × Consumer W
  unfolding use_tcp
  after_rdma info (answer, c) =
      if is_connected (answer.0)
      then (answer, record c { net_client = some fabric_client; current_connection_type = fabric })
      else (use_tcp info (answer.1) (record c { should_try_rdma_first = false }))

  -- `CreateNetClientAndTryToGetFile` with the mutex; a client that is there now is not asked.
  pub with_lock :
      Option NetClient → MessageMeta → Text → State (Consumer W) (Option NetError × Text)
  unfolding after_rdma use_tcp ask_client
  with_lock (some client) info bytes c = ((none, bytes), c)
  with_lock none info bytes c =
      if c.should_try_rdma_first
      then after_rdma info (ask_client fabric_client info bytes c)
      else use_tcp info bytes c

  pub create_net_client_and_try_to_get_file :
      MessageMeta → Text → State (Consumer W) (Option NetError × Text)
  unfolding with_lock
  create_net_client_and_try_to_get_file info bytes c =
      let c' = io.until_locked c in with_lock c'.net_client info bytes c'

  pub with_client :
      Option NetClient → MessageMeta → Text → State (Consumer W) (Option NetError × Text)
  unfolding create_net_client_and_try_to_get_file ask_client
  with_client none info bytes c = create_net_client_and_try_to_get_file info bytes c
  with_client (some client) info bytes c = ask_client client info bytes c

  pub try_get_data_from_buffer : MessageMeta → Text → State (Consumer W) (Option NetError × Text)
  unfolding with_client
  try_get_data_from_buffer info bytes c = with_client c.net_client info bytes c

  -- A round of `GetDataFromFile`: whether there is an error, the size in the metadata and the data.
  pub file_round : Text → Bool × ℕ × Text → State W (Bool × (Bool × ℕ × Text))
  unfolding full_name
  file_round name (failed, size, bytes) w =
      let ((read, size', bytes'), w') = io.read_file (full_name io.source_path name) w in
      ((read, (not read, size', bytes')), w')

  -- Every error of the loop, an interrupt too, is reported as a local one.
  pub file_result : MessageMeta → Option (Bool × ℕ × Text) → Result
  file_result info none = none
  file_result info (some (true, size, bytes)) =
      some (some local_io_error, record info { size = size }, bytes)
  file_result info (some (false, size, bytes)) = some (none, record info { size = size }, bytes)

  pub get_data_from_file : ℕ → MessageMeta → Text → State (Consumer W) Result
  unfolding repeat file_round file_result
  get_data_from_file fuel info bytes c =
      let (result, w) =
        repeat io.service io.timeout_ms (λ (failed, size, bytes'). (true, size, bytes'))
          (file_round info.name) fuel 0 (false, info.size, bytes)
          (io.service.clear_interrupt_flag c.outside) in
      (file_result info result, record c { outside = w })
