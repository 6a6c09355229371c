-- ===== src/Common/Database/Write/Safe.antt =====
-- The insertions of datasets and metadata never use a dangling pointer
-- (common/cpp/src/database/mongodb_client.cpp).
use asapo.Base.{ℕ, ◌⊎◌, inl, inr, Bool, Option, none, some, Text}
use asapo.Common.Encoding.{encode_col_name}
use asapo.Common.Database.{
  DbError, not_connected, MessageMeta, Mongo, duplicate_key, namespace_not_found, other_code,
}
use asapo.Common.Database.Write.{
  MetaIngestOp, insert_op, replace_op, update_op, unknown_op, MetaIngestMode, insert_bson_document,
  replace_bson_document, update_bson_document, retry_result, add_bson_document_to_array,
  dataset_prepared, dataset_into_current, insert_as_dataset_message, prepare_bson_document,
  prepare_meta_document, write_document, write_meta, meta_into_current, insert_meta,
}
use asapo.Common.Database.Current.{IsName}
use asapo.Common.Database.Serves.{Keeps, Keeps-call, Keeps-pure, Serves, Serves-selected}

-- An update reads its metadata as a text, so that they are no null pointer.
abbrev pub HasText : Option Text → MetaIngestOp → Type 0
HasText none update_op = ⊥
HasText none insert_op = Unit
HasText none replace_op = Unit
HasText none unknown_op = Unit
HasText (some json) op = Unit

module _ {W D : Type 0} (io : Mongo W D) where
  Keeps-add :
      (db name : Text) (file : MessageMeta) (size : ℕ) (document : D) (i : Bool)
      → Keeps db name (add_bson_document_to_array io file size document i)
  unfolding add_bson_document_to_array retry_result
  Keeps-add db name file size document i = Keeps-call db name _ _ (elim [
    | none ↦ Keeps-pure db name _
    | some duplicate_key ↦ Keeps-call db name _ _ (λ err. Keeps-pure db name _)
    | some namespace_not_found ↦ Keeps-pure db name _
    | some other_code ↦ Keeps-pure db name _
  ])

  module _ (message_json : MessageMeta → Text) where
    Keeps-dataset :
        (db name : Text) (file : MessageMeta) (size : ℕ) (i : Bool) (document : DbError ⊎ D)
        → Keeps db name (dataset_prepared io message_json file size i document)
    unfolding dataset_prepared
    Keeps-dataset db name file size i (inl e) = Keeps-pure db name _
    Keeps-dataset db name file size i (inr document) = Keeps-add db name file size document i

    pub Serves-insert_as_dataset_message :
        (db name : Text) (file : MessageMeta) (size : ℕ) (i : Bool)
        → IsName name
        → Serves db (insert_as_dataset_message io message_json name file size i)
    unfolding insert_as_dataset_message dataset_into_current
    Serves-insert_as_dataset_message db name file size i valid (c, w) =
        Serves-selected db name (dataset_into_current io message_json file size i)
          (some not_connected) valid
          (Keeps-dataset db name file size i (prepare_bson_document io message_json file)) (c, w)

  module _ (flattened_meta : Text → Option Text) where
    Keeps-write_document :
        (db name id : Text) (op : MetaIngestOp) (upsert : Bool) (document : D)
        → Keeps db name (write_document io flattened_meta id op upsert document)
    unfolding write_document insert_bson_document replace_bson_document update_bson_document
    Keeps-write_document db name id insert_op upsert document =
        Keeps-call db name _ _ (λ err. Keeps-pure db name _)
    Keeps-write_document db name id replace_op upsert document =
        Keeps-call db name _ _ (λ err. Keeps-pure db name _)
    Keeps-write_document db name id update_op upsert document =
        Keeps-call db name _ _ (λ err. Keeps-pure db name _)
    Keeps-write_document db name id unknown_op upsert document = Keeps-pure db name _

    Keeps-write_meta :
        (db name id : Text) (mode : MetaIngestMode) (document : DbError ⊎ D)
        → Keeps db name (write_meta io flattened_meta id mode (some document))
    unfolding write_meta
    Keeps-write_meta db name id mode (inl e) = Keeps-pure db name _
    Keeps-write_meta db name id mode (inr document) =
        Keeps-write_document db name id mode.op mode.upsert document

    -- With a text, where it is read, there is a document or an error for each operation.
    Keeps-prepared :
        (db name id : Text) (json : Option Text) (mode : MetaIngestMode) (op : MetaIngestOp)
        → HasText json op
        → Keeps db name (
            write_meta io flattened_meta id mode
              (prepare_meta_document io flattened_meta json id op))
    unfolding prepare_meta_document
    Keeps-prepared db name id none mode update_op h = absurd h
    Keeps-prepared db name id none mode insert_op h = Keeps-write_meta db name id mode _
    Keeps-prepared db name id none mode replace_op h = Keeps-write_meta db name id mode _
    Keeps-prepared db name id none mode unknown_op h = Keeps-write_meta db name id mode _
    Keeps-prepared db name id (some json) mode insert_op h = Keeps-write_meta db name id mode _
    Keeps-prepared db name id (some json) mode replace_op h = Keeps-write_meta db name id mode _
    Keeps-prepared db name id (some json) mode update_op h = Keeps-write_meta db name id mode _
    Keeps-prepared db name id (some json) mode unknown_op h = Keeps-write_meta db name id mode _

    Keeps-meta :
        (db name id : Text) (json : Option Text) (mode : MetaIngestMode)
        → HasText json mode.op
        → Keeps db name (meta_into_current io flattened_meta id json mode none)
    unfolding meta_into_current
    Keeps-meta db name id json mode has =
        Keeps-prepared db name (encode_col_name id) json mode mode.op has

    pub Serves-insert_meta :
        (db name id : Text) (json : Option Text) (mode : MetaIngestMode)
        → IsName name
        → HasText json mode.op
        → Serves db (insert_meta io flattened_meta name id json mode)
    unfolding insert_meta
    Serves-insert_meta db name id json mode valid has (c, w) =
        Serves-selected db name (meta_into_current io flattened_meta id json mode)
          (some not_connected) valid (Keeps-meta db name id json mode has) (c, w)
