-- ===== src/Common/Database/Write/Counter.antt =====
-- The counter of a stream, from which the insertions of common/cpp/src/database/mongodb_client.cpp take ids.
use asapo.Base.{ℕ, ◌≡◌, ◌≢◌, sym, ◌⊎◌, inl, inr, Option, none, some, Text}
use asapo.Common.Database.{DbError, Mongo, MongoError}
use asapo.Common.Database.Write.{auto_id_counters, next_id_result, get_next_id}
use asapo.Common.Database.Runs.{Runs, Runs-bind, Runs-pure}
use asapo.Common.Database.Current.{Selects, Runs-with_client}

module _ {W D : Type 0} (io : Mongo W D) where
  -- Where the id of a stored message comes from: the message, or the counter of the stream.
  abbrev pub Numbered : Text → Text → ℕ → ℕ → Type 0
  Numbered db name given id =
      ((given ≢ 0) × (id ≡ given))
      ⊎ ((given ≡ 0)
          × ((w : W) × ((io.find_and_modify db auto_id_counters name w).0 ≡ inr (some id))))

  -- The counter of the stream never gives zero.
  abbrev pub Counts : Text → Text → Type 0
  Counts db name = (w : W) → (io.find_and_modify db auto_id_counters name w).0 ≢ inr (some 0)

  abbrev pub CounterGave : Text → Text → DbError ⊎ ℕ → Type 0
  CounterGave db name (inl e) = Unit
  CounterGave db name (inr id) =
      (w : W) × ((io.find_and_modify db auto_id_counters name w).0 ≡ inr (some id))

  next_id-CounterGave :
      (db name : Text) (w : W) (answer : MongoError ⊎ Option ℕ)
      → (io.find_and_modify db auto_id_counters name w).0 ≡ answer
      → CounterGave db name (next_id_result answer)
  unfolding next_id_result
  next_id-CounterGave db name w (inl e) h = tt
  next_id-CounterGave db name w (inr none) h = tt
  next_id-CounterGave db name w (inr (some id)) h = (w, h)

  pub Runs-get_next_id :
      (db name : Text)
      → Runs
          (λ s. Selects db name s.0)
          (get_next_id io name)
          (λ id s. Selects db name s.0 × CounterGave db name id)
  unfolding get_next_id
  Runs-get_next_id db name =
      Runs-bind _ _ _ _ _
        (Runs-with_client db (Selects db name) (λ d. io.find_and_modify d auto_id_counters name)
          (λ c p. p.0))
        (λ answer.
          Runs-pure _ _ _ (λ s p. (p.0, next_id-CounterGave db name p.1.0 answer (sym p.1.1))))
