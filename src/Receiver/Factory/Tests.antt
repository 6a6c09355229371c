-- ===== src/Receiver/Factory/Tests.antt =====
-- The theorems about the choice of handlers at concrete requests.
use asapo.Base.{◌≡◌, ◌≢◌, refl, ◌⊎◌, List, [], ◌∷◌}
use asapo.Common.Networking.{transfer_data, authorize, GenericRequestHeader, has_flag}
use asapo.Receiver.Factory.{
  Handler, secondary_authorize, initial_authorize, receive_metadata, file_receive, db_write,
  handlers, receive_direct_to_file, transfer_handlers, need_db_handler, add_handlers_to_request,
  handlers_for, add_receive_write_handlers, add_receive_direct_to_file_handler,
  need_file_write_handler,
}
use asapo.Receiver.Factory.Order.{Checked, authorization_first}

-- Two gigabytes for the file system and the database.
abbrev large_request : GenericRequestHeader
large_request = record {
  op_code = transfer_data;
  data_id = 1;
  data_size = 2147483648;
  meta_size = 10;
  ingest_mode = 13;
  dataset_id = 0;
  dataset_size = 0;
  message = 7;
  stream = 8;
}

abbrev large_handlers : List Handler
large_handlers = secondary_authorize ∷ receive_metadata ∷ file_receive ∷ db_write ∷ []

large_handlers_lem : add_handlers_to_request 1024 large_request ≡ handlers large_handlers
unfolding add_handlers_to_request handlers_for transfer_handlers add_receive_write_handlers
    receive_direct_to_file add_receive_direct_to_file_handler need_file_write_handler
    need_db_handler has_flag
large_handlers_lem = refl

authorization_first_example :
    ((large_request.op_code ≡ authorize)
      × (large_handlers ≡ receive_metadata ∷ initial_authorize ∷ []))
    ⊎ ((large_request.op_code ≢ authorize) × Checked large_handlers)
authorization_first_example = authorization_first 1024 large_request large_handlers_lem
