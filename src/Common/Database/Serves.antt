-- ===== src/Common/Database/Serves.antt =====
-- The computations that keep the client of common/cpp/src/database/mongodb_client.cpp connected, without a
-- dangling pointer.
use asapo.Base.{Option, none, some, if◌then◌else◌, Text}
use asapo.Common.Database.{
  DbError, Db, ◌>>=◌, pure, with_client, with_collection, update_current_collection_if_needed,
}
use asapo.Common.Database.Runs.{Runs, Runs-bind, Runs-pure, Runs-weaken}
use asapo.Common.Database.Current.{
  IsReady, IsName, Selects, Runs-with_client, Runs-with_collection, Runs-selected,
}

module _ {W : Type 0} where
  -- The selected collection is kept, and is all that is needed.
  abbrev pub Keeps : {A : Type 0} → Text → Text → Db W A → Type 0
  Keeps db name m = Runs (λ s. Selects db name s.0) m (λ _ s. Selects db name s.0)

  pub Keeps-call :
      {A B : Type 0} (db name : Text) (f : Text → Text → W → A × W) (k : A → Db W B)
      → ((a : A) → Keeps db name (k a))
      → Keeps db name (with_collection f >>= k)
  Keeps-call db name f k h =
      Runs-bind _ _ _ _ _ (Runs-with_collection db name f)
        (λ a. Runs-weaken _ _ _ _ _ (λ s p. p.0) (λ b s q. q) (h a))

  pub Keeps-pure : {A : Type 0} (db name : Text) (a : A) → Keeps db name (pure a)
  Keeps-pure db name a = Runs-pure _ _ _ (λ s p. p)

  -- A connected client without a dangling pointer stays one, and there is a result.
  abbrev pub Serves : {A : Type 0} → Text → Db W A → Type 0
  Serves db m = Runs (λ s. IsReady db s.0) m (λ _ s. IsReady db s.0)

  pub Serves-bind :
      {A B : Type 0} (db : Text) (m : Db W A) (k : A → Db W B)
      → Serves db m
      → ((a : A) → Serves db (k a))
      → Serves db (m >>= k)
  Serves-bind db m k h f = Runs-bind _ _ _ _ _ h f

  pub Serves-pure : {A : Type 0} (db : Text) (a : A) → Serves db (pure a)
  Serves-pure db a = Runs-pure _ _ _ (λ s p. p)

  pub Serves-call : {A : Type 0} (db : Text) (f : Text → W → A × W) → Serves db (with_client f)
  Serves-call db f =
      Runs-weaken _ _ _ _ _ (λ s p. p) (λ a s p. p.0)
        (Runs-with_client db (IsReady db) f (λ c p. p))

  -- A guarded call for a collection leaves the client connected, with a current collection.
  pub Serves-selected :
      {A : Type 0} (db name : Text) (f : Option DbError → Db W A) (refused : A)
      → IsName name
      → Keeps db name (f none)
      → Serves db (λ s.
        if s.0.connected
        then (update_current_collection_if_needed name >>= f) s
        else some (refused, s))
  Serves-selected db name f refused valid h =
      Runs-weaken _ _ _ _ _ (λ s p. p) (λ a s p. p.0) (Runs-selected db name _ f refused valid h)
