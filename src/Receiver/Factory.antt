-- ===== src/Receiver/Factory.antt =====
-- receiver/src/request_handler/request_factory.cpp: which handlers a request goes through.
pub mod Order
mod Tests
use asapo.Base.{
  ℕ, ◌*◌, ◌%◌, ◌^◌, Bool, true, false, ◌&&◌, ◌||◌, List, [], ◌∷◌, ◌++◌, ltb, ◌==◌, if◌then◌else◌,
}
use asapo.Common.Networking.{
  Opcode, unknown_op, transfer_data, transfer_dataset_data, stream_info, last_stream,
  get_buffer_data, authorize, transfer_meta_data, delete_stream, get_meta, count,
  GenericRequestHeader, has_flag, mask, store_in_filesystem, store_in_database,
  transfer_meta_data_only,
}

-- The handlers that the factory owns.
pub data Handler : Type 0 where
  secondary_authorize initial_authorize receive_metadata receive_data : Handler
  file_receive file_write db_write db_meta_write : Handler
  db_stream_info db_last_stream db_get_meta delete_stream_handler : Handler

pub data FactoryError : Type 0 where
  bad_request internal_server_error invalid_op_code : FactoryError

-- `AddHandlersToRequest` gives the request's handlers, or an error, on which `GenerateRequest` gives no
-- request.
pub data Generated : Type 0 where
  handlers : List Handler → Generated
  refused : FactoryError → Generated

pub need_file_write_handler : GenericRequestHeader → Bool
unfolding has_flag
need_file_write_handler h = has_flag h.ingest_mode store_in_filesystem

unfoldable pub need_db_handler : GenericRequestHeader → Bool
unfolding has_flag
need_db_handler h =
    has_flag h.ingest_mode store_in_database || h.ingest_mode == mask transfer_meta_data_only

-- The product is of uint64_t.
unfoldable pub receive_direct_to_file : ℕ → GenericRequestHeader → Bool
receive_direct_to_file threshold_mb h = ltb (threshold_mb * 1024 * 1024 % 2 ^ 64) h.data_size

pub add_receive_via_buffer_handlers : GenericRequestHeader → List Handler
unfolding need_file_write_handler
add_receive_via_buffer_handlers h =
    receive_data ∷ (if need_file_write_handler h then file_write ∷ [] else [])

pub add_receive_direct_to_file_handler : GenericRequestHeader → Generated
unfolding need_file_write_handler
add_receive_direct_to_file_handler h =
    if need_file_write_handler h then handlers (file_receive ∷ []) else refused bad_request

pub add_receive_write_handlers : ℕ → GenericRequestHeader → Generated
unfolding receive_direct_to_file add_receive_direct_to_file_handler add_receive_via_buffer_handlers
add_receive_write_handlers threshold_mb h =
    if receive_direct_to_file threshold_mb h
    then add_receive_direct_to_file_handler h
    else handlers (add_receive_via_buffer_handlers h)

-- The case of the two data transfers.
pub transfer_handlers : ℕ → GenericRequestHeader → Generated
unfolding add_receive_write_handlers need_db_handler
transfer_handlers threshold_mb h = elim (add_receive_write_handlers threshold_mb h) [
  | refused e ↦ refused e
  | handlers hs ↦ handlers (
      secondary_authorize
      ∷ receive_metadata
      ∷ (hs ++ (if need_db_handler h then db_write ∷ [] else [])))
]

-- The `switch`, after the check of the operation code.
unfoldable pub handlers_for : ℕ → GenericRequestHeader → Opcode → Generated
unfolding transfer_handlers need_db_handler
handlers_for threshold_mb h transfer_data = transfer_handlers threshold_mb h
handlers_for threshold_mb h transfer_dataset_data = transfer_handlers threshold_mb h
handlers_for threshold_mb h transfer_meta_data =
    if need_db_handler h
    then handlers (secondary_authorize ∷ receive_data ∷ db_meta_write ∷ [])
    else refused internal_server_error
handlers_for threshold_mb h authorize = handlers (receive_metadata ∷ initial_authorize ∷ [])
handlers_for threshold_mb h stream_info = handlers (secondary_authorize ∷ db_stream_info ∷ [])
handlers_for threshold_mb h delete_stream =
    handlers (secondary_authorize ∷ delete_stream_handler ∷ [])
handlers_for threshold_mb h last_stream = handlers (secondary_authorize ∷ db_last_stream ∷ [])
handlers_for threshold_mb h get_meta = handlers (secondary_authorize ∷ db_get_meta ∷ [])
handlers_for threshold_mb h unknown_op = refused invalid_op_code
handlers_for threshold_mb h get_buffer_data = refused invalid_op_code
handlers_for threshold_mb h count = refused invalid_op_code

unfoldable pub add_handlers_to_request : ℕ → GenericRequestHeader → Generated
unfolding handlers_for
add_handlers_to_request threshold_mb h = handlers_for threshold_mb h h.op_code
