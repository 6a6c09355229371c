-- ===== src/Common/Database/Write/Document.antt =====
-- The document of a message, which common/cpp/src/database/mongodb_client.cpp makes and inserts.
use asapo.Base.{
  ◌≡◌, refl, ap, sym, ◌⊎◌, inl, inr, Bool, true, false, Option, none, some, arith, Text,
}
use asapo.Common.Encoding.{encode_col_name}
use asapo.Common.Database.{
  DbError, MessageMeta, Mongo, MongoError, duplicate_key, namespace_not_found, other_code,
}
use asapo.Common.Database.Write.{
  Inserted, insert_result, insert_bson_document, prepare_bson_document, json_document, report_id,
  insert_prepared,
}
use asapo.Common.Database.Runs.{Runs, Runs-bind, Runs-pure}
use asapo.Common.Database.Current.{Selects, Runs-with_collection}

-- The server accepts the document, or has one with its id where that is ignored.
abbrev pub Accepted : Bool → Option MongoError → Type 0
Accepted ignore_duplicates none = Unit
Accepted ignore_duplicates (some duplicate_key) = ignore_duplicates ≡ true
Accepted ignore_duplicates (some _) = ⊥

insert_result-Accepted :
    (ignore_duplicates : Bool) (err : Option MongoError)
    → insert_result ignore_duplicates err ≡ none
    → Accepted ignore_duplicates err
unfolding insert_result
insert_result-Accepted i none h = tt
insert_result-Accepted true (some duplicate_key) h = refl
insert_result-Accepted false (some duplicate_key) h = absurd (ground arith)
insert_result-Accepted i (some namespace_not_found) h = absurd (ground arith)
insert_result-Accepted i (some other_code) h = absurd (ground arith)

module _ {W D : Type 0} (io : Mongo W D) (message_json : MessageMeta → Text) where
  -- The document of this message is accepted into its collection.
  abbrev pub Stored : Text → Text → MessageMeta → Bool → Type 0
  Stored db name file ignore_duplicates =
      (document : D) × ((w : W) × ((io.bson_from_json (message_json file) ≡ some document)
          × Accepted ignore_duplicates (io.insert_one db (encode_col_name name) document w).0))

  abbrev pub DocumentStored : Text → Text → MessageMeta → Bool → Inserted → Type 0
  DocumentStored db name file i (some e, id) = Unit
  DocumentStored db name file i (none, none) = ⊥
  DocumentStored db name file i (none, some id) = (id ≡ file.id) × Stored db name file i

  report_id-DocumentStored :
      (db name : Text) (file : MessageMeta) (i : Bool) (document : D) (w : W) (err : Option DbError)
      → io.bson_from_json (message_json file) ≡ some document
      → err ≡ insert_result i (io.insert_one db (encode_col_name name) document w).0
      → DocumentStored db name file i (report_id file.id err)
  unfolding report_id
  report_id-DocumentStored db name file i document w none read e =
      (refl, (document, (w, (read, insert_result-Accepted i _ (sym e)))))
  report_id-DocumentStored db name file i document w (some err) read e = tt

  abbrev pub HasDocument : MessageMeta → DbError ⊎ D → Type 0
  HasDocument file (inl e) = Unit
  HasDocument file (inr document) = io.bson_from_json (message_json file) ≡ some document

  json_document-HasDocument :
      (file : MessageMeta) (document : Option D)
      → io.bson_from_json (message_json file) ≡ document
      → HasDocument file (json_document document)
  unfolding json_document
  json_document-HasDocument file none e = tt
  json_document-HasDocument file (some document) e = e

  pub prepare-HasDocument :
      (file : MessageMeta) → HasDocument file (prepare_bson_document io message_json file)
  unfolding prepare_bson_document
  prepare-HasDocument file = json_document-HasDocument file _ refl

  pub Runs-insert_prepared :
      (db name : Text) (file : MessageMeta) (i : Bool) (document : DbError ⊎ D)
      → HasDocument file document
      → Runs
          (λ s. Selects db name s.0)
          (insert_prepared io message_json file i document)
          (λ r s. Selects db name s.0 × DocumentStored db name file i r)
  unfolding insert_prepared insert_bson_document
  Runs-insert_prepared db name file i (inl e) h = Runs-pure _ _ _ (λ s p. (p, tt))
  Runs-insert_prepared db name file i (inr document) h =
      Runs-bind _
        (λ err s.
          Selects db name s.0
          × ((w : W) × (err
                ≡ insert_result i (io.insert_one db (encode_col_name name) document w).0)))
        _ _ _
        (Runs-bind _ _ _ _ _
          (Runs-with_collection db name (λ db col. io.insert_one db col document))
          (λ err. Runs-pure _ _ _ (λ s p. (p.0, (p.1.0, ap (insert_result i) p.1.1)))))
        (λ err.
          Runs-pure _ _ _
            (λ s p. (p.0, report_id-DocumentStored db name file i document p.1.0 err h p.1.1)))
