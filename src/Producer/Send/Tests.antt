-- ===== src/Producer/Send/Tests.antt =====
-- The theorems about sent messages at concrete ones.
use asapo.Base.{ℕ, ◌≡◌, ◌≢◌, refl, ◌⊎◌, some, none, true, false, List, [], ◌∷◌, ◌++◌, arith}
use asapo.Common.Networking.{has_flag, mask, transfer_meta_data_only, store_in_database}
use asapo.Common.RequestPool.{NoSpaceLeft, add_request, request_pool}
use asapo.Receiver.Factory.{Handler, handlers, add_handlers_to_request, receive_direct_to_file}
use asapo.Receiver.Factory.Order.{any, stores_file, writes_record}
use asapo.Producer.Send.{
  Text, MessageHeader, WrongInput, wrong_input, request_pool_is_full, check_producer_request,
  check_file_name_in_request, check_dataset_in_request, check_message_id_in_request,
  check_ingest_mode, generate_next_send_request, send,
}
use asapo.Producer.Send.Checks.{request_of, IsRefused, Passes, send_lem}
use asapo.Producer.Send.Delivery.{sent_header, is_large, Stored, delivered, unrecorded}

abbrev stream : Text
stream = record { value = 5; size = 7 }

abbrev message : ℕ → MessageHeader
message data_size = record {
  message_id = 1;
  data_size = data_size;
  file_name = record { value = 3; size = 10 };
  user_metadata = record { value = 0; size = 0 };
  dataset_substream = 0;
  dataset_size = 0;
  auto_id = false;
}

abbrev gigabyte : ℕ
gigabyte = 1073741824

send_lem_example :
    let result = send 1000 0 8 request_pool (message 100) (some 4) 13 stream true in
    let r = request_of 1000 0 8 (message 100) in
    ((e : WrongInput) × IsRefused 1000 0 8 request_pool (some 4) true (wrong_input e) result
      × ¬ Passes (message 100) (some 4) 13 stream)
    ⊎ (Passes (message 100) (some 4) 13 stream
        × IsRefused 1000 0 8 request_pool (some 4) true request_pool_is_full result
        × ((e : NoSpaceLeft) × (add_request request_pool r false ≡ (some (e, r), request_pool))))
    ⊎ (Passes (message 100) (some 4) 13 stream
        × (result.0 ≡ none)
        × (result.1.request_queue ≡ request_pool.request_queue ++ r ∷ []))
send_lem_example = send_lem 1000 0 8 request_pool (message 100) (some 4) 13 stream true

passes : check_producer_request (message 100) 13 stream ≡ none
unfolding check_producer_request check_file_name_in_request check_dataset_in_request
    check_message_id_in_request check_ingest_mode
passes = refl

fits : is_large 1024 (message 100) 13 stream ≡ false
unfolding receive_direct_to_file generate_next_send_request
fits = refl

delivered_example :
    (hs : List Handler) × (add_handlers_to_request 1024 (sent_header 1024 (message 100) 13 stream)
      ≡ handlers hs)
    × Stored 1024 (message 100) 13 stream hs
delivered_example = delivered 1024 (message 100) 13 stream (omega arith) passes fits

meta_only : has_flag 10 transfer_meta_data_only ≡ true
unfolding has_flag mask
meta_only = refl

-- Metadata only, with the flag for raw data.
raw_passes : check_producer_request (message 100) 18 stream ≡ none
unfolding check_producer_request check_file_name_in_request check_dataset_in_request
    check_message_id_in_request check_ingest_mode
raw_passes = refl

raw_meta_only : has_flag 18 transfer_meta_data_only ≡ true
unfolding has_flag mask
raw_meta_only = refl

raw_not_recorded : has_flag 18 store_in_database ≡ false
unfolding has_flag mask
raw_not_recorded = refl

other_mode : 18 ≢ mask transfer_meta_data_only
unfolding mask
other_mode = omega arith

raw_fits : is_large 1024 (message 100) 18 stream ≡ false
unfolding receive_direct_to_file generate_next_send_request
raw_fits = refl

unrecorded_example :
    (hs : List Handler) × (add_handlers_to_request 1024 (sent_header 1024 (message 100) 18 stream)
      ≡ handlers hs)
    × (any stores_file hs ≡ false)
    × (any writes_record hs ≡ false)
unrecorded_example =
    unrecorded 1024 (message 100) 18 stream raw_passes raw_meta_only raw_not_recorded other_mode
      raw_fits
