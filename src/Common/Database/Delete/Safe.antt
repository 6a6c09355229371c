-- ===== src/Common/Database/Delete/Safe.antt =====
-- The deletion of a stream never uses a dangling pointer (common/cpp/src/database/mongodb_client.cpp).
use asapo.Base.{refl, inl, List, [], ◌∷◌, Option, none, some, Text}
use asapo.Common.Database.{DbError, Mongo}
use asapo.Common.Database.Delete.{
  delete_collection, delete_each, delete_found, delete_collections, delete_documents_in_collection,
  delete_rest, delete_stream,
}
use asapo.Common.Database.Current.{not_destroyed}
use asapo.Common.Database.Serves.{Serves, Serves-bind, Serves-pure, Serves-call}

module _ {W D : Type 0} (io : Mongo W D) where
  Serves-delete_collection : (db name : Text) → Serves db (delete_collection io name)
  unfolding delete_collection
  Serves-delete_collection db name = Serves-bind db _ _ (Serves-call db _) (λ err. Serves-pure db _)

  Serves-delete_each : (db : Text) (names : List Text) → Serves db (delete_each io names)
  unfolding delete_each
  Serves-delete_each db [] = Serves-pure db _
  Serves-delete_each db (x ∷ xs) =
      Serves-bind db _ _ (Serves-delete_collection db x) (λ err. Serves-delete_each db xs)

  Serves-delete_found : (db : Text) (names : Option (List Text)) → Serves db (delete_found io names)
  unfolding delete_found
  Serves-delete_found db none = Serves-pure db _
  Serves-delete_found db (some names) =
      Serves-bind db _ _ (Serves-delete_each db names) (λ u. Serves-pure db _)

  Serves-delete_collections : (db prefix : Text) → Serves db (delete_collections io prefix)
  unfolding delete_collections
  Serves-delete_collections db prefix =
      Serves-bind db _ _ (Serves-call db _) (λ names. Serves-delete_found db names)

  Serves-delete_documents :
      (db name query : Text) → Serves db (delete_documents_in_collection io name query)
  unfolding delete_documents_in_collection
  Serves-delete_documents db name query =
      Serves-bind db _ _ (Serves-call db _) (λ done. Serves-pure db _)

  Serves-delete_rest :
      (db encoded : Text) (err : Option DbError) → Serves db (delete_rest io encoded err)
  unfolding delete_rest
  Serves-delete_rest db encoded (some e) = Serves-pure db _
  Serves-delete_rest db encoded none = Serves-bind db _ _ (Serves-delete_collections db _) (λ err.
      Serves-bind db _ _ (Serves-delete_collections db _)
        (λ err'. Serves-bind db _ _ (Serves-delete_documents db _ _) (λ e. Serves-pure db _)))

  pub Serves-delete_stream : (db stream : Text) → Serves db (delete_stream io stream)
  unfolding delete_stream
  Serves-delete_stream db stream (c, w) p =
      Serves-bind db _ _ (Serves-delete_collection db _)
        (λ err.
          Serves-bind db _ _ (Serves-delete_rest db _ err)
            (λ u. Serves-bind db _ _ (Serves-delete_documents db _ _) (λ e. Serves-pure db _)))
        (record c { current_collection_name = [] }, w)
        (p.0, (p.1.0, (p.1.1.0, inl (refl, not_destroyed c p.1.1.1))))
