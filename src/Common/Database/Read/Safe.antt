-- ===== src/Common/Database/Read/Safe.antt =====
-- What is read never uses a dangling pointer (common/cpp/src/database/mongodb_client.cpp).
use asapo.Base.{
  ℕ, ◌≡◌, refl, ◌⊎◌, inl, inr, false, List, [], ◌∷◌, Option, none, some, All, Bool-cases, subst,
  sym, Text,
}
use asapo.Common.Encoding.{decode_name}
use asapo.Common.Database.{
  DbError, json_parse_error, unknown_error, connection_error, not_connected, insert_error,
  duplicate_id, already_connected, bad_address, memory_error, no_record, wrong_input, simple_error,
  MessageMeta, StreamInfo, new_stream_info, Mongo, Selector, Db,
}
use asapo.Common.Database.Read.{
  JsonReader, Info, search, get_record_from_db, get_by_id, get_data_set_by_id, after_last,
  get_stream_info, update_last_stream_info, update_unless, update_last_stream, over_names,
  get_last_stream, get_meta_from_db, mongo_collection_is_data_stream,
}
use asapo.Common.Database.Runs.{Runs-bind}
use asapo.Common.Database.Current.{IsName, IsReady, Runs-with_client, Runs-connected}
use asapo.Common.Database.Serves.{
  Keeps-call, Keeps-pure, Serves, Serves-bind, Serves-pure, Serves-selected,
}

module _ {W D : Type 0} (io : Mongo W D) where
  pub Serves-get_record_from_db :
      (db name : Text) (selector : Selector)
      → IsName name
      → Serves db (get_record_from_db io name selector)
  unfolding get_record_from_db search
  Serves-get_record_from_db db name selector valid (c, w) =
      Serves-selected db name (search io selector) (inl not_connected) valid
        (Keeps-call db name _ _ (λ found. Keeps-pure db name _)) (c, w)

  module _ (reader : JsonReader) where
    pub Serves-get_by_id :
        (db name : Text) (id : ℕ) (file : MessageMeta)
        → IsName name
        → Serves db (get_by_id io reader name id file)
    unfolding get_by_id
    Serves-get_by_id db name id file valid =
        Serves-bind db _ _ (Serves-get_record_from_db db name _ valid) (λ text. Serves-pure db _)

    pub Serves-get_data_set_by_id :
        (db name : Text) (in_set id : ℕ) (file : MessageMeta)
        → IsName name
        → Serves db (get_data_set_by_id io reader name in_set id file)
    unfolding get_data_set_by_id
    Serves-get_data_set_by_id db name in_set id file valid =
        Serves-bind db _ _ (Serves-get_record_from_db db name _ valid) (λ text. Serves-pure db _)

    pub Serves-get_meta_from_db :
        (db name id : Text) → IsName name → Serves db (get_meta_from_db io reader name id)
    unfolding get_meta_from_db
    Serves-get_meta_from_db db name id valid =
        Serves-bind db _ _ (Serves-get_record_from_db db name _ valid) (λ text. Serves-pure db _)

    Serves-after_last :
        (db name : Text) (info : StreamInfo) (last : DbError ⊎ Text)
        → IsName name
        → Serves db (after_last io reader name info last)
    unfolding after_last
    Serves-after_last db name info (inr last) valid =
        Serves-bind db _ _ (Serves-get_record_from_db db name _ valid)
          (λ earliest. Serves-pure db _)
    Serves-after_last db name info (inl no_record) valid = Serves-pure db _
    Serves-after_last db name info (inl json_parse_error) valid = Serves-pure db _
    Serves-after_last db name info (inl unknown_error) valid = Serves-pure db _
    Serves-after_last db name info (inl connection_error) valid = Serves-pure db _
    Serves-after_last db name info (inl not_connected) valid = Serves-pure db _
    Serves-after_last db name info (inl insert_error) valid = Serves-pure db _
    Serves-after_last db name info (inl duplicate_id) valid = Serves-pure db _
    Serves-after_last db name info (inl already_connected) valid = Serves-pure db _
    Serves-after_last db name info (inl bad_address) valid = Serves-pure db _
    Serves-after_last db name info (inl memory_error) valid = Serves-pure db _
    Serves-after_last db name info (inl wrong_input) valid = Serves-pure db _
    Serves-after_last db name info (inl simple_error) valid = Serves-pure db _

    pub Serves-get_stream_info :
        (db name : Text) (info : StreamInfo)
        → IsName name
        → Serves db (get_stream_info io reader name info)
    unfolding get_stream_info
    Serves-get_stream_info db name info valid =
        Serves-bind db _ _ (Serves-get_record_from_db db name _ valid)
          (λ last. Serves-after_last db name info last valid)

    -- The collection is no stream's, or its decoded name is one that the client takes.
    abbrev pub IsListed : Text → Type 0
    IsListed name =
        (mongo_collection_is_data_stream (decode_name name) ≡ false) ⊎ IsName (decode_name name)

    Serves-update_last_stream_info :
        (db name : Text) (info : StreamInfo)
        → IsListed name
        → Serves db (update_last_stream_info io reader name info)
    unfolding update_last_stream_info
    Serves-update_last_stream_info db name info (inl other) s p = rw other ((_, (refl, p)))
    Serves-update_last_stream_info db name info (inr valid) s p =
        elim (Bool-cases (mongo_collection_is_data_stream (decode_name name))) [
          | inl e ↦ rw e (
              Serves-bind db _ _
                (Serves-get_stream_info db (decode_name name) new_stream_info valid)
                (λ next. Serves-pure db _) s p)
          | inr e ↦ rw e ((_, (refl, p)))
        ]

    Serves-update_unless :
        (db : Text) (rest : StreamInfo → Db W Info) (result : Info)
        → ((info : StreamInfo) → Serves db (rest info))
        → Serves db (update_unless io reader rest result)
    unfolding update_unless
    Serves-update_unless db rest (some e, i) h = Serves-pure db _
    Serves-update_unless db rest (none, i) h = h i

    Serves-update_last_stream :
        (db : Text) (names : List Text) (info : StreamInfo)
        → All IsListed names
        → Serves db (update_last_stream io reader names info)
    unfolding update_last_stream
    Serves-update_last_stream db [] info h = Serves-pure db _
    Serves-update_last_stream db (x ∷ xs) info h =
        Serves-bind db _ _ (Serves-update_last_stream_info db x info h.0)
          (λ result. Serves-update_unless db _ result (λ i. Serves-update_last_stream db xs i h.1))

    abbrev pub AllListed : Option (List Text) → Type 0
    AllListed none = Unit
    AllListed (some names) = All IsListed names

    Serves-over_names :
        (db : Text) (info : StreamInfo) (names : Option (List Text))
        → AllListed names
        → Serves db (over_names io reader info names)
    unfolding over_names
    Serves-over_names db info none h = Serves-pure db _
    Serves-over_names db info (some names) h = Serves-update_last_stream db names info h

    pub Serves-get_last_stream :
        (db : Text) (info : StreamInfo)
        → ((w : W) → AllListed (io.collection_names db none w).0)
        → Serves db (get_last_stream io reader info)
    unfolding get_last_stream
    Serves-get_last_stream db info listed (c, w) p =
        Runs-connected db _ _ (some not_connected, info)
          (Runs-bind _ _ _ _ _
            (Runs-with_client db (IsReady db) (λ d. io.collection_names d none) (λ c p. p))
            (λ names s q.
              Serves-bind db _ _
                (Serves-over_names db _ names (subst AllListed (sym q.1.1) (listed q.1.0)))
                (λ result. Serves-pure db _) s q.0))
          (c, w) p
