-- ===== src/Common/Database/Delete/Dropped.antt =====
-- What the deletion of a stream removes (common/cpp/src/database/mongodb_client.cpp).
use asapo.Base.{
  ◌≡◌, refl, ap, sym, ◌∙◌, subst, inl, inr, Bool, true, false, not, ◌&&◌, List, [], ◌∷◌, ◌++◌,
  Option, none, some, if◌then◌else◌, Bool-cases, Text, same_text, same_text→≡,
}
use asapo.Common.Encoding.{encode_col_name}
use asapo.Common.Database.{
  DbError, no_record, MongoDbClient, Mongo, namespace_not_found, Db, continue, ◌>>=◌, pure,
  with_client, data_prefix, meta_name,
}
use asapo.Common.Database.Delete.{
  drop_result, delete_result, delete_collection, delete_each, delete_found, delete_collections,
  delete_documents_in_collection, delete_rest, delete_stream, beginning_with, inprocess_prefix,
  acks_prefix, just,
}
use asapo.Common.Database.Runs.{Pre, Runs, Runs-bind, Runs-pure, Runs-weaken}
use asapo.Common.Database.Delete.Collections.{
  begins, has, begins-append, never, always, absent, gone, without_all, without_found, Server,
  remains,
}

module _ {W D : Type 0} (io : Mongo W D) (db : Text) (server : Server io db) where
  -- The client is open on this database, and these collections are there.
  abbrev pub Has : (Text → Bool) → Pre W
  Has g s =
      ((s.0.client ≡ true) × (s.0.database_name ≡ db)) × ((m : Text) → server.exists_in s.1 m ≡ g m)

  Has-equal :
      {A : Type 0} (g : A → Text → Bool) (g' : A → Text → Bool) (P : Pre W) (m : Db W A)
      → ((a : A) (x : Text) → g a x ≡ g' a x)
      → Runs P m (λ a. Has (g a))
      → Runs P m (λ a. Has (g' a))
  Has-equal g g' P m e h = Runs-weaken _ _ _ _ _ (λ s p. p) (λ a s p. (p.0, λ x. p.1 x ∙ e a x)) h

  open_call :
      {A : Type 0} (f : Text → W → A × W) (c : MongoDbClient) (w : W)
      → c.client ≡ true
      → c.database_name ≡ db
      → with_client f (c, w) ≡ some ((f db w).0, (c, (f db w).1))
  open_call f c w set named =
      ap (λ b. if b then some ((f c.database_name w).0, (c, (f c.database_name w).1)) else none) set
      ∙ ap (λ d. some ((f d w).0, (c, (f d w).1))) named

  drop_result-exists :
      (b : Bool)
      → drop_result (if b then none else some namespace_not_found)
        ≡ (if b then none else some no_record)
  unfolding drop_result
  drop_result-exists true = refl
  drop_result-exists false = refl

  Runs-delete_collection :
      (g : Text → Bool) (name : Text)
      → Runs (Has g) (delete_collection io name) (λ err s.
        (err ≡ (if g name then none else some no_record))
        × Has (λ m. g m && not (same_text name m)) s)
  unfolding delete_collection
  Runs-delete_collection g name (c, w) p =
      let r = io.drop_collection db name w in
      (
        (drop_result r.0, (c, r.1)),
        (
          ap (continue (λ err. pure (drop_result err)))
              (open_call (λ d. io.drop_collection d name) c w p.0.0 p.0.1),
          (
            ap drop_result (server.drop_answer name w)
                ∙ drop_result-exists (server.exists_in w name)
                ∙ ap (λ b. if b then none else some no_record) (p.1 name),
            (p.0, λ m. server.drop_exists name m w ∙ ap (λ b. b && not (same_text name m)) (p.1 m)),
          ),
        ),
      )

  Runs-delete_each :
      (g : Text → Bool) (names : List Text)
      → Runs (Has g) (delete_each io names) (λ _. Has (λ m. g m && not (has m names)))
  unfolding delete_each
  Runs-delete_each g [] =
      Has-equal (λ _. g) _ _ _ (λ a m. always (g m)) (Runs-pure _ _ _ (λ s p. p))
  Runs-delete_each g (x ∷ xs) = Runs-bind _ _ _ _ _ (Runs-delete_collection g x) (λ err.
      Runs-weaken _ _ _ _ _ (λ s p. p.1)
        (λ u s p. (p.0, λ m. p.1 m ∙ without_all (g m) (same_text x m) (has m xs)))
        (Runs-delete_each (λ m. g m && not (same_text x m)) xs))

  Runs-delete_collections :
      (g : Text → Bool) (prefix : Text)
      → Runs (Has g) (delete_collections io prefix) (λ _. Has (λ m. g m && not (begins prefix m)))
  unfolding delete_collections delete_found
  Runs-delete_collections g prefix (c, w) p =
      let names = server.listing prefix w in
      let (r, (e, q)) = Runs-delete_each g names (c, w) p in
      (
        (none, r.1),
        (
          ap (continue (delete_found io)) (
                open_call (λ d. io.collection_names d (some (beginning_with prefix))) c w p.0.0
                  p.0.1
                ∙ ap (λ r. some (r.0, (c, r.1))) (server.lists prefix w))
              ∙ ap (continue (λ _. pure none)) e,
          (
            q.0,
            λ m.
                q.1 m
                ∙ without_found (g m) (has m names) (begins prefix m)
                    (server.lists_exact prefix m w ∙ ap (λ b. b && begins prefix m) (p.1 m)),
          ),
        ),
      )

  Runs-delete_documents :
      (g : Text → Bool) (name query : Text)
      → Runs (Has g) (delete_documents_in_collection io name query) (λ _. Has g)
  unfolding delete_documents_in_collection
  Runs-delete_documents g name query (c, w) p =
      let r = io.delete_many db name query w in
      (
        (delete_result r.0, (c, r.1)),
        (
          ap (continue (λ done. pure (delete_result done)))
              (open_call (λ d. io.delete_many d name query) c w p.0.0 p.0.1),
          (p.0, λ m. server.delete_many_exists name query m w ∙ p.1 m),
        ),
      )

  Runs-delete_rest :
      (g : Text → Bool) (encoded : Text) (found : Bool)
      → Runs
          (Has (λ m. g m && (not (found && same_text (data_prefix ++ encoded) m))))
          (delete_rest io encoded (if found then none else some no_record))
          (λ _. Has (remains encoded found g))
  unfolding delete_rest
  Runs-delete_rest g encoded false = Runs-pure _ _ _ (λ s p. (p.0, λ m. p.1 m ∙ sym (always (g m))))
  Runs-delete_rest g encoded true =
      Runs-bind _ _ _ _ _ (Runs-delete_collections _ (inprocess_prefix ++ encoded)) (λ err.
        Runs-bind _ _ _ _ _ (Runs-delete_collections _ (acks_prefix ++ encoded)) (λ err'.
          Runs-bind _ _ _ _ _ (Runs-delete_documents _ _ _) (λ done. Runs-pure _ _ _ (λ s p. p))))

  without_absent :
      (g : Text → Bool) (name m : Text)
      → g m && not (same_text name m) ≡ g m && not (g name && same_text name m)
  without_absent g name m = elim (Bool-cases (same_text name m)) [
    | inl e ↦ absent (g m) (g name) (same_text name m) (inr (ap g (sym (same_text→≡ name m e))))
    | inr e ↦ absent (g m) (g name) (same_text name m) (inl e)
  ]

  remains-inprocess :
      (encoded rest : Text) (found : Bool) (g : Text → Bool)
      → remains encoded found g (inprocess_prefix ++ (encoded ++ rest))
        ≡ g (inprocess_prefix ++ (encoded ++ rest)) && not found
  remains-inprocess encoded rest false g = always (g (inprocess_prefix ++ (encoded ++ rest)))
  remains-inprocess encoded rest true g =
      let m = inprocess_prefix ++ (encoded ++ rest) in
      gone (g m) _ (same_text (data_prefix ++ encoded) m) (begins (acks_prefix ++ encoded) m)
        (begins-append encoded rest)
      ∙ never (g m)

  -- `DeleteStream` after it has forgotten the name of the current collection.
  deleted :
      (g : Text → Bool) (encoded : Text)
      → Runs
          (Has g)
          (delete_collection io (data_prefix ++ encoded) >>= λ err.
            delete_rest io encoded err >>= λ _.
            delete_documents_in_collection io meta_name (just encoded) >>= λ _. pure err)
          (λ err s.
            (err ≡ (if g (data_prefix ++ encoded) then none else some no_record))
            × Has (remains encoded (g (data_prefix ++ encoded)) g) s)
  deleted g encoded =
      Runs-bind _ _ _ _ _ (Runs-delete_collection g (data_prefix ++ encoded)) (λ err s p.
        let found = g (data_prefix ++ encoded) in
        let result = if found then none else some no_record in
        subst
          (λ e.
            (r : Option DbError × (MongoDbClient × W)) × (((delete_rest io encoded e >>= λ _.
            delete_documents_in_collection io meta_name (just encoded) >>= λ _. pure e)
                  s
                ≡ some r)
              × ((r.0 ≡ result) × Has (remains encoded found g) r.1)))
          (sym p.0)
          (Runs-bind _ _ _ _ _ (Runs-delete_rest g encoded found)
            (λ u. Runs-bind _ _ _ _ _ (Runs-delete_documents _ _ _) (λ done.
              Runs-pure _ (λ err s. (err ≡ result) × Has (remains encoded found g) s) _
                (λ s p. (refl, p))))
            s (p.1.0, λ m. p.1.1 m ∙ without_absent g (data_prefix ++ encoded) m)))

  -- On a server that keeps the collections of this database as `Server` says, an open client deletes a
  -- stream without an error if its collection of data is there, and else with the error that there is no
  -- record. In the first case this collection is gone, as are all whose names begin, in any case of
  -- letters, with "inprocess_" or "acks_" and the encoded name of the stream, and no others; in the
  -- second, none is. So the lists of messages in process of all streams whose names begin with that
  -- of the stream are gone with it.
  pub delete_stream_lem :
      (stream m rest : Text) (c : MongoDbClient) (w : W)
      → c.client ≡ true
      → c.database_name ≡ db
      → (r : Option DbError × (MongoDbClient × W)) × ((delete_stream io stream (c, w) ≡ some r)
          × ((r.0 ≡ (
                if server.exists_in w (data_prefix ++ encode_col_name stream)
                then none
                else some no_record))
              × ((server.exists_in r.1.1 m
                    ≡ remains
                        (encode_col_name stream)
                        (server.exists_in w (data_prefix ++ encode_col_name stream))
                        (server.exists_in w)
                        m)
                  × (server.exists_in r.1.1 (inprocess_prefix ++ (encode_col_name stream ++ rest))
                      ≡ server.exists_in w (inprocess_prefix ++ (encode_col_name stream ++ rest))
                        && not (server.exists_in w (data_prefix ++ encode_col_name stream))))))
  unfolding delete_stream
  delete_stream_lem stream m rest c w set named =
      let encoded = encode_col_name stream in
      let g = server.exists_in w in
      let (r, (e, (err, q))) =
        deleted g encoded (record c { current_collection_name = [] }, w)
          ((set, named), λ m. refl) in
      (
        r,
        (e, (err, (q.1 m, q.1 _ ∙ remains-inprocess encoded rest (g (data_prefix ++ encoded)) g))),
      )
