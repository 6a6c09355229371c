-- ===== src/Common/Database/Calls.antt =====
-- The interface of the client in common/cpp/src/database/mongodb_client.cpp: sequences of calls.
use asapo.Base.{ℕ, ap, Bool, List, [], ◌∷◌, Option, none, some, All, if◌then◌else◌, Text}
use asapo.Common.Database.{
  MessageMeta, StreamInfo, Mongo, Db, continue, ◌>>◌, pure, connect, already_connected,
  initialize_client, after_initialize,
}
use asapo.Common.Database.Write.{MetaIngestMode, insert, insert_as_dataset_message, insert_meta}
use asapo.Common.Database.Write.Counter.{Counts}
use asapo.Common.Database.Write.Stored.{insert_lem}
use asapo.Common.Database.Write.Safe.{HasText, Serves-insert_as_dataset_message, Serves-insert_meta}
use asapo.Common.Database.Read.{
  JsonReader, get_by_id, get_data_set_by_id, get_stream_info, get_last_stream, get_meta_from_db,
}
use asapo.Common.Database.Read.Safe.{
  Serves-get_by_id, Serves-get_data_set_by_id, Serves-get_stream_info, Serves-get_last_stream,
  Serves-get_meta_from_db, AllListed,
}
use asapo.Common.Database.Delete.{delete_stream}
use asapo.Common.Database.Delete.Safe.{Serves-delete_stream}
use asapo.Common.Database.Runs.{Runs-weaken}
use asapo.Common.Database.Current.{IsName}
use asapo.Common.Database.Serves.{Serves, Serves-bind, Serves-pure}

-- A call of an operation of `Database` with its arguments; the metadata to insert is `none` for a null pointer.
pub data Call : Type 0 where
  connect_call : Text → Text → Call
  insert_call : Text → MessageMeta → Bool → Call
  insert_as_dataset_message_call : Text → MessageMeta → ℕ → Bool → Call
  insert_meta_call : Text → Text → Option Text → MetaIngestMode → Call
  get_by_id_call : Text → ℕ → MessageMeta → Call
  get_data_set_by_id_call : Text → ℕ → ℕ → MessageMeta → Call
  get_stream_info_call : Text → StreamInfo → Call
  get_last_stream_call : StreamInfo → Call
  delete_stream_call : Text → Call
  get_meta_from_db_call : Text → Text → Call

-- The collection of a call has a name that the client takes, and an update of metadata has a text.
abbrev pub IsTaken : Call → Type 0
IsTaken (connect_call address database) = Unit
IsTaken (insert_call name file i) = IsName name
IsTaken (insert_as_dataset_message_call name file size i) = IsName name
IsTaken (insert_meta_call name id json mode) = IsName name × HasText json mode.op
IsTaken (get_by_id_call name id file) = IsName name
IsTaken (get_data_set_by_id_call name in_set id file) = IsName name
IsTaken (get_stream_info_call name info) = IsName name
IsTaken (get_last_stream_call info) = Unit
IsTaken (delete_stream_call stream) = Unit
IsTaken (get_meta_from_db_call name id) = IsName name

module _ {W D : Type 0} (io : Mongo W D) (message_json : MessageMeta → Text)
    (flattened_meta : Text → Option Text) (reader : JsonReader) where
  abbrev pub run_call : Call → Db W (Unit {0})
  run_call (connect_call address database) = connect io address database >> pure tt
  run_call (insert_call name file i) = insert io message_json 2 name file i >> pure tt
  run_call (insert_as_dataset_message_call name file size i) =
      insert_as_dataset_message io message_json name file size i >> pure tt
  run_call (insert_meta_call name id json mode) =
      insert_meta io flattened_meta name id json mode >> pure tt
  run_call (get_by_id_call name id file) = get_by_id io reader name id file >> pure tt
  run_call (get_data_set_by_id_call name in_set id file) =
      get_data_set_by_id io reader name in_set id file >> pure tt
  run_call (get_stream_info_call name info) = get_stream_info io reader name info >> pure tt
  run_call (get_last_stream_call info) = get_last_stream io reader info >> pure tt
  run_call (delete_stream_call stream) = delete_stream io stream >> pure tt
  run_call (get_meta_from_db_call name id) = get_meta_from_db io reader name id >> pure tt

  abbrev pub run_calls : List Call → Db W (Unit {0})
  run_calls [] = pure tt
  run_calls (x ∷ xs) = run_call x >> run_calls xs

  Serves-connect : (db address database : Text) → Serves db (connect io address database)
  unfolding connect
  Serves-connect db address database (c, w) p =
      let rest = continue (after_initialize io database) (initialize_client io address (c, w)) in
      (
        (some already_connected, (c, w)),
        (ap (λ b. if b then some (some already_connected, (c, w)) else rest) p.0, p),
      )

  module _ (db : Text) (counts : (name : Text) → Counts io db name)
      (listed : (w : W) → AllListed io reader (io.collection_names db none w).0) where
    Serves-run_call : (x : Call) → IsTaken x → Serves db (run_call x)
    Serves-run_call (connect_call address database) h =
        Serves-bind db _ _ (Serves-connect db address database) (λ r. Serves-pure db tt)
    Serves-run_call (insert_call name file i) h =
        Serves-bind db _ _
          (Runs-weaken _ _ _ _ _ (λ s p. p) (λ r s p. p.0.0)
            (insert_lem io message_json 0 db name file i h (counts name)))
          (λ r. Serves-pure db tt)
    Serves-run_call (insert_as_dataset_message_call name file size i) h =
        Serves-bind db _ _ (Serves-insert_as_dataset_message io message_json db name file size i h)
          (λ r. Serves-pure db tt)
    Serves-run_call (insert_meta_call name id json mode) h =
        Serves-bind db _ _ (Serves-insert_meta io flattened_meta db name id json mode h.0 h.1)
          (λ r. Serves-pure db tt)
    Serves-run_call (get_by_id_call name id file) h =
        Serves-bind db _ _ (Serves-get_by_id io reader db name id file h) (λ r. Serves-pure db tt)
    Serves-run_call (get_data_set_by_id_call name in_set id file) h =
        Serves-bind db _ _ (Serves-get_data_set_by_id io reader db name in_set id file h)
          (λ r. Serves-pure db tt)
    Serves-run_call (get_stream_info_call name info) h =
        Serves-bind db _ _ (Serves-get_stream_info io reader db name info h)
          (λ r. Serves-pure db tt)
    Serves-run_call (get_last_stream_call info) h =
        Serves-bind db _ _ (Serves-get_last_stream io reader db info listed)
          (λ r. Serves-pure db tt)
    Serves-run_call (delete_stream_call stream) h =
        Serves-bind db _ _ (Serves-delete_stream io db stream) (λ r. Serves-pure db tt)
    Serves-run_call (get_meta_from_db_call name id) h =
        Serves-bind db _ _ (Serves-get_meta_from_db io reader db name id h) (λ r. Serves-pure db tt)

    pub Serves-run_calls : (xs : List Call) → All IsTaken xs → Serves db (run_calls xs)
    Serves-run_calls [] h = Serves-pure db tt
    Serves-run_calls (x ∷ xs) h =
        Serves-bind db _ _ (Serves-run_call x h.0) (λ r. Serves-run_calls xs h.1)
