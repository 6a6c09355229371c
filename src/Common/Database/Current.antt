-- ===== src/Common/Database/Current.antt =====
-- The current collection of the client in common/cpp/src/database/mongodb_client.cpp: the computations that
-- never use a pointer that is null or freed.
use asapo.Base.{
  ◌≤◌, ◌≡◌, ◌≢◌, refl, ap, sym, ◌∙◌, ◌⊎◌, inl, inr, true, [], Option, none, some, length,
  if◌then◌else◌, arith, Bool-cases, subst, Text, same_text, same_text→≡,
}
use asapo.Common.Encoding.{encode_col_name}
use asapo.Common.Database.{
  DbError, MongoDbClient, Collection, no_collection, destroyed, collection, Db, ◌>>=◌, client_state,
  with_client, with_collection, call_on, keep_world, destroy, destroy_collection, set_collection,
  select_collection, update_current_collection_if_needed,
}
use asapo.Common.Database.Runs.{Pre, Runs, Runs-bind}

-- There is a current collection with the name that is noted, or none is noted and the pointer is not dangling.
abbrev pub IsCurrent : MongoDbClient → Type 0
IsCurrent c =
    ((c.current_collection_name ≡ []) × (c.current_collection ≢ destroyed))
    ⊎ (c.current_collection ≡ collection (encode_col_name c.current_collection_name))

abbrev pub IsReady : Text → MongoDbClient → Type 0
IsReady db c = (c.connected ≡ true) × ((c.client ≡ true) × ((c.database_name ≡ db) × IsCurrent c))

-- The names that the client takes: not empty, and not too long once encoded.
abbrev pub IsName : Text → Type 0
IsName name = (name ≢ []) × (length (encode_col_name name) ≤ 100)

-- The collection of this name is the current one.
abbrev pub Selects : Text → Text → MongoDbClient → Type 0
Selects db name c =
    IsReady db c
    × ((c.current_collection ≡ collection (encode_col_name name))
        × (c.current_collection_name ≡ name))

module _ {W : Type 0} where
  -- The noted name is the one that is selected.
  pub Runs-named :
      {A : Type 0} (db name : Text) (Q : A → Pre W) (f : Text → Db W A)
      → Runs (λ s. Selects db name s.0) (f name) Q
      → Runs (λ s. Selects db name s.0) (client_state >>= λ c. f c.current_collection_name) Q
  Runs-named {A} db name Q f h (c, w) p =
      subst (λ k. (r : A × (MongoDbClient × W)) × ((f k (c, w) ≡ some r) × Q r.0 r.1)) (sym p.1.1)
        (h (c, w) p)

  -- What holds of the client only is kept by every call of the library, and the call is made in some
  -- world.
  pub Runs-with_client :
      {A : Type 0} (db : Text) (P : MongoDbClient → Type 0) (f : Text → W → A × W)
      → ((c : MongoDbClient) → P c → IsReady db c)
      → Runs (λ s. P s.0) (with_client f) (λ a s. P s.0 × ((w : W) × (a ≡ (f db w).0)))
  Runs-with_client db P f h (c, w) p =
      let r = f c.database_name w in
      ((r.0, (c, r.1)), (rw (h c p).1.0 refl, (p, (w, ap (λ d. (f d w).0) (h c p).1.1.0))))

  pub Runs-with_collection :
      {A : Type 0} (db name : Text) (f : Text → Text → W → A × W)
      → Runs
          (λ s. Selects db name s.0)
          (with_collection f)
          (λ a s. Selects db name s.0 × ((w : W) × (a ≡ (f db (encode_col_name name) w).0)))
  Runs-with_collection db name f (c, w) p =
      let r = f c.database_name (encode_col_name name) w in
      (
        (r.0, (c, r.1)),
        (ap (call_on f c w) p.1.0, (p, (w, ap (λ d. (f d (encode_col_name name) w).0) p.0.1.1.0))),
      )

destroyed_from :
    (c : MongoDbClient) (k : Collection)
    → k ≢ destroyed
    → (c' : MongoDbClient) × ((destroy c k ≡ some c')
        × ((c'.connected ≡ c.connected)
            × ((c'.client ≡ c.client) × (c'.database_name ≡ c.database_name))))
destroyed_from c no_collection h = (c, (refl, (refl, (refl, refl))))
destroyed_from c destroyed h = absurd (h refl)
destroyed_from c (collection n) h =
    (record c { current_collection = destroyed }, (refl, (refl, (refl, refl))))

pub not_destroyed : (c : MongoDbClient) → IsCurrent c → c.current_collection ≢ destroyed
not_destroyed c (inl p) = p.1
not_destroyed c (inr e) = λ d. ground arith

named_collection :
    (c : MongoDbClient)
    → IsCurrent c
    → c.current_collection_name ≢ []
    → c.current_collection ≡ collection (encode_col_name c.current_collection_name)
named_collection c (inl p) h = absurd (h p.0)
named_collection c (inr e) h = e

set_collection_lem :
    (name : Text) (c : MongoDbClient)
    → length (encode_col_name name) ≤ 100
    → c.client ≡ true
    → set_collection name c
      ≡ some (
        none,
        record c {
          current_collection = collection (encode_col_name name);
          current_collection_name = name;
        },
      )
unfolding set_collection
set_collection_lem name c short set = ground (arith, short, set)

pub select_collection_lem :
    (db name : Text) (c : MongoDbClient)
    → IsName name
    → IsReady db c
    → (c' : MongoDbClient) × ((select_collection name c ≡ some (none, c')) × Selects db name c')
unfolding select_collection destroy_collection
select_collection_lem db name c valid ready =
    elim (Bool-cases (same_text name c.current_collection_name)) [
      | inl same ↦
          (let e = same_text→≡ name c.current_collection_name same in
            let cur = named_collection c ready.1.1.1 (λ empty. valid.0 (e ∙ empty)) in
            (c, (rw same refl, (ready, (rw e cur, sym e)))))
      | inr other ↦
          (let (c', (e, (connected, (client, same_db)))) =
              destroyed_from c c.current_collection (not_destroyed c ready.1.1.1) in
            let set = client ∙ ready.1.0 in
            (
              record c' {
                current_collection = collection (encode_col_name name);
                current_collection_name = name;
              },
              (
                rw (other, e) (set_collection_lem name c' valid.1 set),
                ((connected ∙ ready.0, (set, (same_db ∙ ready.1.1.0, inr refl))), (refl, refl)),
              ),
            ))
    ]

module _ {W : Type 0} where
  pub Runs-update :
      (db name : Text)
      → IsName name
      → Runs {W = W}
          (λ s. IsReady db s.0)
          (update_current_collection_if_needed name)
          (λ err s. (err ≡ none) × Selects db name s.0)
  unfolding update_current_collection_if_needed
  Runs-update db name valid (c, w) ready =
      let (c', (e, selects)) = select_collection_lem db name c valid ready in
      ((none, (c', w)), (ap (keep_world w) e, (refl, selects)))

  -- A guard that a connected client passes.
  pub Runs-connected :
      {A : Type 0} (db : Text) (Q : A → Pre W) (m : Db W A) (refused : A)
      → Runs (λ s. IsReady db s.0) m Q
      → Runs (λ s. IsReady db s.0) (λ s. if s.0.connected then m s else some (refused, s)) Q
  Runs-connected {A} db Q m refused h s p =
      subst
        (λ b.
          (r : A × (MongoDbClient × W)) × (((if b then m s else some (refused, s)) ≡ some r)
            × Q r.0 r.1))
        (sym p.0) (h s p)

  -- A guarded computation that selects the collection and goes on with the error, if there is one.
  pub Runs-selected :
      {A : Type 0} (db name : Text) (Q : A → Pre W) (f : Option DbError → Db W A) (refused : A)
      → IsName name
      → Runs (λ s. Selects db name s.0) (f none) Q
      → Runs
          (λ s. IsReady db s.0)
          (λ s.
            if s.0.connected
            then (update_current_collection_if_needed name >>= f) s
            else some (refused, s))
          Q
  Runs-selected {A} db name Q f refused valid h =
      Runs-connected db Q (update_current_collection_if_needed name >>= f) refused (
        Runs-bind (λ s. IsReady db s.0) (λ err s. (err ≡ none) × Selects db name s.0) Q
          (update_current_collection_if_needed name) f (Runs-update db name valid)
          (λ err s p.
            subst (λ err. (r : A × (MongoDbClient × W)) × ((f err s ≡ some r) × Q r.0 r.1))
              (sym p.0) (h s p.1)))
