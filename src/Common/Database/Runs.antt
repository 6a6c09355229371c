-- ===== src/Common/Database/Runs.antt =====
-- What a computation on the client of common/cpp/src/database/mongodb_client.cpp gives, from what holds before.
use asapo.Base.{◌≡◌, refl, ap, sym, ◌∙◌, Bool, some, if◌then◌else◌, subst}
use asapo.Common.Database.{MongoDbClient, Db, continue, ◌>>=◌, pure}

abbrev pub Pre : Type 0 → Type 1
Pre W = MongoDbClient × W → Type 0

module _ {W : Type 0} where
  -- From a state with `P` the computation gives a result and a state that have `Q`.
  abbrev pub Runs : {A : Type 0} → Pre W → Db W A → (A → Pre W) → Type 0
  Runs {A} P m Q =
      (s : MongoDbClient × W) → P s → (r : A × (MongoDbClient × W)) × ((m s ≡ some r) × Q r.0 r.1)

  pub Runs-bind :
      {A B : Type 0} (P : Pre W) (Q : A → Pre W) (R : B → Pre W) (m : Db W A) (f : A → Db W B)
      → Runs P m Q
      → ((a : A) → Runs (Q a) (f a) R)
      → Runs P (m >>= f) R
  Runs-bind P Q R m f h k s p =
      let (r, (e, q)) = h s p in
      let (r', (e', q')) = k r.0 r.1 q in (r', (ap (continue f) e ∙ e', q'))

  pub Runs-pure :
      {A : Type 0} (P : Pre W) (Q : A → Pre W) (a : A)
      → ((s : MongoDbClient × W) → P s → Q a s)
      → Runs P (pure a) Q
  Runs-pure P Q a h s p = ((a, s), (refl, h s p))

  pub Runs-weaken :
      {A : Type 0} (P P' : Pre W) (Q Q' : A → Pre W) (m : Db W A)
      → ((s : MongoDbClient × W) → P' s → P s)
      → ((a : A) (s : MongoDbClient × W) → Q a s → Q' a s)
      → Runs P m Q
      → Runs P' m Q'
  Runs-weaken P P' Q Q' m f g h s p = let (r, (e, q)) = h s (f s p) in (r, (e, g r.0 r.1 q))

  pub Runs-if :
      {A : Type 0} (b b' : Bool) (P : Pre W) (Q : A → Pre W) (m m' : Db W A)
      → b ≡ b'
      → Runs P (if b' then m else m') Q
      → Runs P (if b then m else m') Q
  Runs-if b b' P Q m m' e h = subst (λ b. Runs P (if b then m else m') Q) (sym e) h
