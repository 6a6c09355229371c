-- ===== src/Common/Database/Delete.antt =====
-- The deletion of a stream in common/cpp/src/database/mongodb_client.cpp.
pub mod Safe
pub mod Collections
pub mod Dropped
use asapo.Base.{Bool, true, false, List, [], ◌∷◌, ◌++◌, Option, none, some, Text}
use asapo.Common.Encoding.{encode_col_name, escape_query}
use asapo.Common.Database.{
  DbError, unknown_error, no_record, MongoDbClient, Mongo, MongoError, namespace_not_found, Db,
  ◌>>=◌, ◌>>◌, pure, data_prefix, meta_name, with_client,
}

-- The names in `DeleteStream`.
abbrev pub inprocess_prefix : Text
inprocess_prefix = b'i' ∷ b'n' ∷ b'p' ∷ b'r' ∷ b'o' ∷ b'c' ∷ b'e' ∷ b's' ∷ b's' ∷ b'_' ∷ []

abbrev pub acks_prefix : Text
acks_prefix = b'a' ∷ b'c' ∷ b'k' ∷ b's' ∷ b'_' ∷ []

abbrev pub current_location : Text
current_location =
    b'c' ∷ b'u' ∷ b'r' ∷ b'r' ∷ b'e' ∷ b'n' ∷ b't' ∷ b'_' ∷ b'l' ∷ b'o' ∷ b'c' ∷ b'a' ∷ b't' ∷ b'i'
    ∷ b'o' ∷ b'n' ∷ []

-- "^" and what it stands before; ".*_", "$" and what stands between them.
abbrev pub beginning_with : Text → Text
beginning_with name = b'^' ∷ escape_query name

abbrev pub ending_with : Text → Text
ending_with name = b'.' ∷ b'*' ∷ b'_' ∷ (escape_query name ++ (b'$' ∷ []))

abbrev pub just : Text → Text
just name = b'^' ∷ (escape_query name ++ (b'$' ∷ []))

pub drop_result : Option MongoError → Option DbError
drop_result none = none
drop_result (some namespace_not_found) = some no_record
drop_result (some _) = some unknown_error

pub delete_result : Bool → Option DbError
delete_result true = none
delete_result false = some unknown_error

module _ {W D : Type 0} (io : Mongo W D) where
  pub delete_collection : Text → Db W (Option DbError)
  unfolding drop_result
  delete_collection name = do
    err ← with_client (λ db. io.drop_collection db name)
    pure (drop_result err)

  -- The loop of `DeleteCollections`, which leaves the errors aside.
  pub delete_each : List Text → Db W (Unit {0})
  unfolding delete_collection
  delete_each [] = pure tt
  delete_each (x ∷ xs) = delete_collection x >> delete_each xs

  delete_found : Option (List Text) → Db W (Option DbError)
  unfolding delete_each
  delete_found none = pure (some unknown_error)
  delete_found (some names) = delete_each names >> pure none

  pub delete_collections : Text → Db W (Option DbError)
  unfolding delete_found
  delete_collections prefix = do
    names ← with_client (λ db. io.collection_names db (some (beginning_with prefix)))
    delete_found names

  pub delete_documents_in_collection : Text → Text → Db W (Option DbError)
  unfolding delete_result
  delete_documents_in_collection name querystr = do
    done ← with_client (λ db. io.delete_many db name querystr)
    pure (delete_result done)

  -- `DeleteStream` after the collection of the data.
  delete_rest : Text → Option DbError → Db W (Unit {0})
  unfolding delete_collections delete_documents_in_collection
  delete_rest encoded (some e) = pure tt
  delete_rest encoded none = do
    delete_collections (inprocess_prefix ++ encoded)
    delete_collections (acks_prefix ++ encoded)
    delete_documents_in_collection current_location (ending_with encoded)
    pure tt

  pub delete_stream : Text → Db W (Option DbError)
  unfolding delete_rest delete_documents_in_collection delete_collection
  delete_stream stream (c, w) =
      let encoded = encode_col_name stream in
      (do
        err ← delete_collection (data_prefix ++ encoded)
        delete_rest encoded err
        _ ← delete_documents_in_collection meta_name (just encoded)
        pure err)
        (record c { current_collection_name = [] }, w)
