-- ===== src/Receiver/Request/Handlers/Tests.antt =====
-- The theorems about the file handler and the database handler on a concrete storage. The world counts:
-- ones and tens for the file, thousands for connections, ten thousands for insertions.
use asapo.Base.{ℕ, ◌≡◌, refl, ◌+◌, ◌⊎◌, inl, inr, false, Option, none, some, leb, if◌then◌else◌}
use asapo.Receiver.Request.{ReceiverError, handle, next_handler}
use asapo.Receiver.Request.Reply.{is_warned}
use asapo.Common.Database.{DbError, no_record, duplicate_id}
use asapo.Receiver.Request.Handlers.{
  write_handler, Storage, MessageMeta, check_for_duplicates, connect_to_db_if_needed,
  db_error_to_receiver_error, file_process_request, after_file, db_write_request, after_insert,
}
use asapo.Receiver.Request.Handlers.Store.{store, stored}

abbrev message : MessageMeta
message = record { size = 100; name = 3; metadata = 0 }

abbrev storage : Option ReceiverError → Option DbError → Storage ℕ
storage written inserted = record {
  process_file = λ overwrite w. if overwrite then (none, w + 10) else (written, w + 1);
  connected_to_db = λ _ w. leb 1000 w;
  set_connected = λ _ w. w + 1000;
  discover_database = λ w. (inr 5, w);
  connect = λ _ _ w. (none, w);
  get_record = λ w. (inl no_record, w);
  insert_record = λ w. (inserted, w + 10000);
}

abbrev empty : Storage ℕ
empty = storage none none

stores : ((store empty message 0).0.0 ≡ none) × (is_warned (store empty message 0).0.1 ≡ false)
unfolding handle next_handler file_process_request after_file db_write_request after_insert
    connect_to_db_if_needed db_error_to_receiver_error
stores = (refl, refl)

stored_example :
    let (written, w1) = empty.process_file false 0 in
    let (err, w2) = connect_to_db_if_needed empty message write_handler w1 in
    let (inserted, w3) = empty.insert_record w2 in
    (written ≡ none)
    × (err ≡ none)
    × ((inserted ≡ none)
        ⊎ ((inserted ≡ some duplicate_id) × ((check_for_duplicates empty message w3).0 ≡ none)))
stored_example = stored empty message 0 stores.0 stores.1
