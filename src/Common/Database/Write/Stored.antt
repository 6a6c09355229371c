-- ===== src/Common/Database/Write/Stored.antt =====
-- The insertion of a message in common/cpp/src/database/mongodb_client.cpp.
use asapo.Base.{
  ℕ, suc, ◌≡◌, ◌≢◌, refl, ap, sym, ◌∙◌, ◌⊎◌, inl, inr, Bool, true, false, none, some, ◌==◌,
  if◌then◌else◌, arith, Bool-cases, subst, Text,
}
use asapo.Common.Database.{DbError, not_connected, MessageMeta, Mongo, ◌>>=◌}
use asapo.Common.Database.Write.{
  Inserted, get_next_id, prepare_bson_document, insert_numbered, insert_with_auto_id,
  insert_into_current, insert_round, insert,
}
use asapo.Common.Database.Runs.{Runs, Runs-bind, Runs-pure, Runs-weaken, Runs-if}
use asapo.Common.Database.Current.{IsReady, IsName, Selects, Runs-selected, Runs-named}
use asapo.Common.Database.Write.Counter.{Numbered, Counts, CounterGave, Runs-get_next_id}
use asapo.Common.Database.Write.Document.{
  Stored, DocumentStored, prepare-HasDocument, Runs-insert_prepared,
}

module _ {W D : Type 0} (io : Mongo W D) (message_json : MessageMeta → Text) where
  -- The message that is inserted under an id; duplicates are ignored for an id of its own only.
  abbrev pub Outcome : Text → Text → MessageMeta → Bool → Inserted → Type 0
  Outcome db name file i (some e, id) = Unit
  Outcome db name file i (none, none) = ⊥
  Outcome db name file i (none, some id) =
      Numbered io db name file.id id
      × Stored io message_json db name (record file { id = id }) (if file.id == 0 then false else i)

  -- An insertion under an id that is given.
  Runs-insert_given :
      (n : ℕ) (db name : Text) (file : MessageMeta) (i : Bool)
      → IsName name
      → file.id ≢ 0
      → Runs
          (λ s. IsReady db s.0)
          (insert io message_json (suc n) name file i)
          (λ r s. Selects db name s.0 × DocumentStored io message_json db name file i r)
  unfolding insert insert_round insert_into_current
  Runs-insert_given n db name file i valid given (c, w) p =
      Runs-selected db name _
        (insert_into_current io message_json
          (λ name' file'. insert io message_json n name' file' false) file i)
        (some not_connected, none) valid
        (Runs-if (file.id == 0) false _ _ _ _ (ground (arith, given)) (
          Runs-insert_prepared io message_json db name file i
            (prepare_bson_document io message_json file)
            (prepare-HasDocument io message_json file)))
        (c, w) p

  auto-Outcome :
      (db name : Text) (file : MessageMeta) (i : Bool) (id : ℕ) (r : Inserted)
      → file.id ≡ 0
      → CounterGave io db name (inr id)
      → DocumentStored io message_json db name (record file { id = id }) false r
      → Outcome db name file i r
  auto-Outcome db name file i id (some e, x) absent gave h = tt
  auto-Outcome db name file i id (none, none) absent gave h = h
  auto-Outcome db name file i id (none, some id') absent gave h =
      subst (λ k. Outcome db name file i (none, some k)) (sym h.0)
        (
          inr (absent, gave),
          subst (Stored io message_json db name (record file { id = id }))
              (let e : false ≡ (if file.id == 0 then false else i) = ground (arith, absent) in e)
              h.1,
        )

  given-Outcome :
      (db name : Text) (file : MessageMeta) (i : Bool) (r : Inserted)
      → file.id ≢ 0
      → DocumentStored io message_json db name file i r
      → Outcome db name file i r
  given-Outcome db name file i (some e, x) given h = tt
  given-Outcome db name file i (none, none) given h = h
  given-Outcome db name file i (none, some id) given h =
      subst (λ k. Outcome db name file i (none, some k)) (sym h.0)
        (
          inl (given, refl),
          subst (Stored io message_json db name file)
              (let e : i ≡ (if file.id == 0 then false else i) = ground (arith, given) in e) h.1,
        )

  Runs-insert_numbered :
      (n : ℕ) (db name : Text) (file : MessageMeta) (i : Bool) (id : DbError ⊎ ℕ)
      → IsName name
      → file.id ≡ 0
      → Counts io db name
      → CounterGave io db name id
      → Runs
          (λ s. Selects db name s.0)
          (insert_numbered io
            (λ name' file'. insert io message_json (suc n) name' file' false)
            file
            id)
          (λ r s. Selects db name s.0 × Outcome db name file i r)
  unfolding insert_numbered
  Runs-insert_numbered n db name file i (inl e) valid absent counts gave =
      Runs-pure _ _ _ (λ s p. (p, tt))
  Runs-insert_numbered n db name file i (inr id) valid absent counts gave =
      Runs-named db name _ (λ k. insert io message_json (suc n) k (record file { id = id }) false)
        (Runs-weaken _ _ _ _ _ (λ s p. p.0)
          (λ r s p. (p.0, auto-Outcome db name file i id r absent gave p.1))
          (Runs-insert_given n db name (record file { id = id }) false valid
            (λ e. counts gave.0 (gave.1 ∙ ap (λ k. inr (some k)) e))))

  -- An insertion of one that has no id.
  Runs-insert_with_auto_id :
      (n : ℕ) (db name : Text) (file : MessageMeta) (i : Bool)
      → IsName name
      → file.id ≡ 0
      → Counts io db name
      → Runs
          (λ s. Selects db name s.0)
          (insert_with_auto_id io
            (λ name' file'. insert io message_json (suc n) name' file' false)
            file)
          (λ r s. Selects db name s.0 × Outcome db name file i r)
  unfolding insert_with_auto_id
  Runs-insert_with_auto_id n db name file i valid absent counts =
      Runs-named db name _
        (λ k. get_next_id io k >>= λ id.
          insert_numbered io (λ name' file'. insert io message_json (suc n) name' file' false) file
            id)
        (Runs-bind _ _ _ _ _ (Runs-get_next_id io db name)
          (λ id s p. Runs-insert_numbered n db name file i id valid absent counts p.1 s p.0))

  -- On a connected client, with a name that is not empty and not too long once encoded, and a counter that is
  -- never zero, two calls of Insert one in another are enough. It reports no error only if the server
  -- accepts the document of the message into the collection of this name, with the id that is reported,
  -- which is the message's or, where it has none, one that the counter of the stream has given; a
  -- duplicate counts as accepted only for an own id and where duplicates are ignored.
  pub insert_lem :
      (n : ℕ) (db name : Text) (file : MessageMeta) (i : Bool)
      → IsName name
      → Counts io db name
      → Runs
          (λ s. IsReady db s.0)
          (insert io message_json (suc (suc n)) name file i)
          (λ r s. Selects db name s.0 × Outcome db name file i r)
  unfolding insert insert_round insert_into_current
  insert_lem n db name file i valid counts (c, w) p = elim (Bool-cases (file.id == 0)) [
    | inl e ↦
        Runs-selected db name _
          (insert_into_current io message_json
            (λ name' file'. insert io message_json (suc n) name' file' false) file i)
          (some not_connected, none) valid
          (Runs-if (file.id == 0) true _ _ _ _ e
            (Runs-insert_with_auto_id n db name file i valid (ground arith) counts))
          (c, w) p
    | inr e ↦
        Runs-weaken _ _ _ _ _ (λ s p. p)
          (λ r s p. (p.0, given-Outcome db name file i r (ground arith) p.1))
          (Runs-insert_given (suc n) db name file i valid (ground arith)) (c, w) p
  ]
