-- ===== src/Common/Database/Write.antt =====
-- The insertions of common/cpp/src/database/mongodb_client.cpp: messages, with their own or an automatic
-- id, messages of datasets, and metadata.
pub mod Counter
pub mod Document
pub mod Stored
pub mod Safe
use asapo.Base.{
  ℕ, zero, suc, ◌+◌, Bool, true, false, List, [], ◌∷◌, Option, none, some, ◌⊎◌, inl, inr, ltb, ◌==◌,
  if◌then◌else◌, Text,
}
use asapo.Common.Encoding.{encode_col_name}
use asapo.Common.Database.{
  DbError, insert_error, not_connected, duplicate_id, wrong_input, json_parse_error, simple_error,
  MessageMeta, MongoDbClient, Mongo, MongoError, duplicate_key, Reply, Db, ◌>>=◌, pure,
  client_state, with_client, with_collection, update_current_collection_if_needed,
}

-- `unknown_op` is any other value.
pub data MetaIngestOp : Type 0 where
  insert_op replace_op update_op unknown_op : MetaIngestOp

pub record MetaIngestMode : Type 0 where
  pub op : MetaIngestOp
  pub upsert : Bool

-- "auto_id_counters"
abbrev pub auto_id_counters : Text
auto_id_counters =
    b'a' ∷ b'u' ∷ b't' ∷ b'o' ∷ b'_' ∷ b'i' ∷ b'd' ∷ b'_' ∷ b'c' ∷ b'o' ∷ b'u' ∷ b'n' ∷ b't' ∷ b'e'
    ∷ b'r' ∷ b's' ∷ []

pub insert_result : Bool → Option MongoError → Option DbError
insert_result ignore_duplicates none = none
insert_result ignore_duplicates (some duplicate_key) =
    if ignore_duplicates then none else some duplicate_id
insert_result ignore_duplicates (some _) = some insert_error

pub document_was_changed : Reply → Bool
document_was_changed r = ltb 0 (r.modified_count + r.upserted_count + r.matched_count)

-- The end of `ReplaceBsonDocument` and `UpdateBsonDocument`.
pub change_result : MongoError ⊎ Reply → Option DbError
unfolding document_was_changed
change_result (inl _) = some insert_error
change_result (inr reply) = if document_was_changed reply then none else some wrong_input

pub next_id_result : MongoError ⊎ Option ℕ → DbError ⊎ ℕ
next_id_result (inl _) = inl insert_error
next_id_result (inr none) = inl insert_error
next_id_result (inr (some id)) = inr id

-- An error, and the id that is written through `id_inserted`.
abbrev pub Inserted : Type 0
Inserted = Option DbError × Option ℕ

report_id : ℕ → Option DbError → Inserted
report_id id none = (none, some id)
report_id id (some e) = (some e, none)

json_document : {D : Type 0} → Option D → DbError ⊎ D
json_document none = inl json_parse_error
json_document (some document) = inr document

module _ {W D : Type 0} (io : Mongo W D) where
  pub insert_bson_document : D → Bool → Db W (Option DbError)
  unfolding insert_result
  insert_bson_document document ignore_duplicates = do
    err ← with_collection (λ db col. io.insert_one db col document)
    pure (insert_result ignore_duplicates err)

  pub replace_bson_document : Text → D → Bool → Db W (Option DbError)
  unfolding change_result
  replace_bson_document id document upsert = do
    answer ← with_collection (λ db col. io.replace_one db col id document upsert)
    pure (change_result answer)

  pub update_bson_document : Text → D → Bool → Db W (Option DbError)
  unfolding change_result
  update_bson_document id document upsert = do
    answer ← with_collection (λ db col. io.update_one db col id document upsert)
    pure (change_result answer)

  unfoldable pub get_next_id : Text → Db W (DbError ⊎ ℕ)
  unfolding next_id_result
  get_next_id stream = do
    answer ← with_client (λ db. io.find_and_modify db auto_id_counters stream)
    pure (next_id_result answer)

  -- The answer to the first attempt; only a duplicate is tried a second time.
  retry_result : MessageMeta → ℕ → D → Bool → Option MongoError → Db W (Option DbError)
  unfolding insert_result
  retry_result file dataset_size document ignore_duplicates (some duplicate_key) = do
    err ← with_collection (λ db col. io.update_array db col file dataset_size document)
    pure (insert_result ignore_duplicates err)
  retry_result file dataset_size document ignore_duplicates err =
      pure (insert_result ignore_duplicates err)

  pub add_bson_document_to_array : MessageMeta → ℕ → D → Bool → Db W (Option DbError)
  unfolding retry_result
  add_bson_document_to_array file dataset_size document ignore_duplicates = do
    err ← with_collection (λ db col. io.update_array db col file dataset_size document)
    retry_result file dataset_size document ignore_duplicates err

  pub prepare_injest_document : Option Text → DbError ⊎ D
  prepare_injest_document none = inl simple_error
  prepare_injest_document (some json) = elim (io.bson_from_json json) [
    | none ↦ inl json_parse_error
    | some meta ↦ elim (io.append_meta meta) [
      | none ↦ inl insert_error
      | some document ↦ inr document
    ]
  ]

  with_document_id : Text → DbError ⊎ D → DbError ⊎ D
  with_document_id id_encoded (inl e) = inl e
  with_document_id id_encoded (inr document) = elim (io.append_id id_encoded document) [
    | none ↦ inl insert_error
    | some document' ↦ inr document'
  ]

  -- `again` is `Insert`, with the duplicates not ignored.
  insert_numbered : (Text → MessageMeta → Db W Inserted) → MessageMeta → DbError ⊎ ℕ → Db W Inserted
  insert_numbered again file (inl e) = pure (some e, none)
  insert_numbered again file (inr id) = do
    c ← client_state
    again c.current_collection_name (record file { id = id })

  pub insert_with_auto_id : (Text → MessageMeta → Db W Inserted) → MessageMeta → Db W Inserted
  unfolding get_next_id insert_numbered
  insert_with_auto_id again file = do
    c ← client_state
    id ← get_next_id c.current_collection_name
    insert_numbered again file id

  -- `message_json` is MessageMeta::Json.
  module _ (message_json : MessageMeta → Text) where
    -- The document of a message, if its JSON can be read.
    pub prepare_bson_document : MessageMeta → DbError ⊎ D
    unfolding json_document
    prepare_bson_document file = json_document (io.bson_from_json (message_json file))

    pub insert_prepared : MessageMeta → Bool → DbError ⊎ D → Db W Inserted
    unfolding insert_bson_document report_id
    insert_prepared file ignore_duplicates (inl e) = pure (some e, none)
    insert_prepared file ignore_duplicates (inr document) = do
      err ← insert_bson_document document ignore_duplicates
      pure (report_id file.id err)

    insert_into_current :
        (Text → MessageMeta → Db W Inserted) → MessageMeta → Bool → Option DbError → Db W Inserted
    unfolding insert_with_auto_id prepare_bson_document insert_prepared
    insert_into_current again file ignore_duplicates (some e) = pure (some e, none)
    insert_into_current again file ignore_duplicates none =
        if file.id == 0
        then insert_with_auto_id again file
        else insert_prepared file ignore_duplicates (prepare_bson_document file)

    insert_round : (Text → MessageMeta → Db W Inserted) → Text → MessageMeta → Bool → Db W Inserted
    unfolding insert_into_current
    insert_round again name file ignore_duplicates (c, w) =
        if c.connected
        then (do
          err ← update_current_collection_if_needed name
          insert_into_current again file ignore_duplicates err)
            (c, w)
        else some ((some not_connected, none), (c, w))

    -- With so many calls of `Insert` one in another; more are not followed.
    pub insert : ℕ → Text → MessageMeta → Bool → Db W Inserted
    unfolding insert_round
    insert zero name file ignore_duplicates s = none
    insert (suc n) name file ignore_duplicates s =
        insert_round (λ name' file'. insert n name' file' false) name file ignore_duplicates s

    dataset_prepared : MessageMeta → ℕ → Bool → DbError ⊎ D → Db W (Option DbError)
    unfolding add_bson_document_to_array
    dataset_prepared file dataset_size ignore_duplicates (inl e) = pure (some e)
    dataset_prepared file dataset_size ignore_duplicates (inr document) =
        add_bson_document_to_array file dataset_size document ignore_duplicates

    dataset_into_current : MessageMeta → ℕ → Bool → Option DbError → Db W (Option DbError)
    unfolding dataset_prepared prepare_bson_document
    dataset_into_current file dataset_size ignore_duplicates (some e) = pure (some e)
    dataset_into_current file dataset_size ignore_duplicates none =
        dataset_prepared file dataset_size ignore_duplicates (prepare_bson_document file)

    pub insert_as_dataset_message : Text → MessageMeta → ℕ → Bool → Db W (Option DbError)
    unfolding dataset_into_current
    insert_as_dataset_message name file dataset_size ignore_duplicates (c, w) =
        if c.connected
        then (do
          err ← update_current_collection_if_needed name
          dataset_into_current file dataset_size ignore_duplicates err)
            (c, w)
        else some (some not_connected, (c, w))

  -- `flattened_meta` is GetFlattenedString of the JSON reader.
  module _ (flattened_meta : Text → Option Text) where
    -- `PrepareUpdateDocument`
    pub prepare_update_document : Text → DbError ⊎ D
    unfolding json_document
    prepare_update_document json = elim (flattened_meta json) [
      | none ↦ inl json_parse_error
      | some flat ↦ json_document (io.bson_from_json flat)
    ]

    -- None where a null pointer is read as a text.
    pub prepare_meta_document : Option Text → Text → MetaIngestOp → Option (DbError ⊎ D)
    unfolding prepare_update_document prepare_injest_document with_document_id
    prepare_meta_document none id_encoded update_op = none
    prepare_meta_document (some json) id_encoded update_op = some (prepare_update_document json)
    prepare_meta_document json id_encoded _ =
        some (with_document_id id_encoded (prepare_injest_document json))

    -- The switch in `InsertMeta`.
    write_document : Text → MetaIngestOp → Bool → D → Db W (Option DbError)
    unfolding insert_bson_document replace_bson_document update_bson_document
    write_document id_encoded insert_op upsert document = insert_bson_document document false
    write_document id_encoded replace_op upsert document =
        replace_bson_document id_encoded document upsert
    write_document id_encoded update_op upsert document =
        update_bson_document id_encoded document upsert
    write_document id_encoded unknown_op upsert document = pure (some wrong_input)

    write_meta : Text → MetaIngestMode → Option (DbError ⊎ D) → Db W (Option DbError)
    unfolding write_document
    write_meta id_encoded mode none = λ s. none
    write_meta id_encoded mode (some (inl e)) = pure (some e)
    write_meta id_encoded mode (some (inr document)) =
        write_document id_encoded mode.op mode.upsert document

    meta_into_current : Text → Option Text → MetaIngestMode → Option DbError → Db W (Option DbError)
    unfolding write_meta prepare_meta_document
    meta_into_current id json mode (some e) = pure (some e)
    meta_into_current id json mode none =
        let id_encoded = encode_col_name id in
        write_meta id_encoded mode (prepare_meta_document json id_encoded mode.op)

    pub insert_meta : Text → Text → Option Text → MetaIngestMode → Db W (Option DbError)
    unfolding meta_into_current
    insert_meta name id json mode (c, w) =
        if c.connected
        then (do err ← update_current_collection_if_needed name; meta_into_current id json mode err)
            (c, w)
        else some (some not_connected, (c, w))
