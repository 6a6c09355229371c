-- ===== src/Common/Database/Delete/Collections.antt =====
-- A server of which it is known what a deletion drops and a listing gives, for the deletion of a stream
-- (common/cpp/src/database/mongodb_client.cpp).
use asapo.Base.{
  ℕ, ◌+◌, ◌≡◌, refl, ap, inl, inr, ◌⊎◌, Bool, true, false, not, ◌&&◌, ◌||◌, List, [], ◌∷◌, ◌++◌,
  none, some, leb, ◌==◌, ==_refl, if◌then◌else◌, arith, Text, same_text,
}
use asapo.Common.Database.{Mongo, namespace_not_found, data_prefix}
use asapo.Common.Database.Delete.{beginning_with, inprocess_prefix, acks_prefix}

abbrev pub lower : ℕ → ℕ
lower c = if leb b'A' c && leb c b'Z' then c + 32 else c

-- The second text begins with the first one, in whatever case of letters.
abbrev pub begins : Text → Text → Bool
begins [] ys = true
begins (x ∷ xs) [] = false
begins (x ∷ xs) (y ∷ ys) = lower x == lower y && begins xs ys

abbrev pub has : Text → List Text → Bool
has m [] = false
has m (x ∷ xs) = same_text x m || has m xs

pub begins-append : (xs ys : Text) → begins xs (xs ++ ys) ≡ true
begins-append [] ys = refl
begins-append (x ∷ xs) ys = rw (==_refl (lower x)) (begins-append xs ys)

pub never : (a : Bool) → false ≡ a && false
never false = refl
never true = refl

pub always : (a : Bool) → a ≡ a && not false
always false = refl
always true = refl

pub absent : (a b x : Bool) → (x ≡ false) ⊎ (a ≡ b) → a && not x ≡ a && not (b && x)
absent false b x h = refl
absent true true x h = refl
absent true false false h = refl
absent true false true (inl e) = absurd (ground arith)
absent true false true (inr e) = absurd (ground arith)

pub gone : (a x y z : Bool) → x ≡ true → ((a && not y) && not x) && not z ≡ false
gone a x y z e = ground (arith, e)

pub without_all : (a x y : Bool) → (a && not x) && not y ≡ a && not (x || y)
without_all false x y = refl
without_all true false y = refl
without_all true true y = refl

pub without_found : (a x y : Bool) → x ≡ a && y → a && not x ≡ a && not y
without_found false x y e = refl
without_found true x y e = ap not e

-- A server on which a collection can be dropped exactly if it is there, and which lists the collections
-- that begin with a quoted text, in any case. `exists_in` tells which are there.
pub record Server {W D : Type 0} (io : Mongo W D) (db : Text) : Type 0 where
  pub exists_in : W → Text → Bool
  pub drop_answer :
      (name : Text) (w : W)
      → (io.drop_collection db name w).0
        ≡ (if exists_in w name then none else some namespace_not_found)
  pub drop_exists :
      (name m : Text) (w : W)
      → exists_in (io.drop_collection db name w).1 m ≡ exists_in w m && not (same_text name m)
  pub listing : Text → W → List Text
  pub lists :
      (prefix : Text) (w : W)
      → io.collection_names db (some (beginning_with prefix)) w ≡ (some (listing prefix w), w)
  pub lists_exact :
      (prefix m : Text) (w : W) → has m (listing prefix w) ≡ exists_in w m && begins prefix m
  pub delete_many_exists :
      (name query m : Text) (w : W) → exists_in (io.delete_many db name query w).1 m ≡ exists_in w m

-- What is left of the collections, if the one of the data was there, and if it was not.
abbrev pub remains : Text → Bool → (Text → Bool) → Text → Bool
remains encoded false g m = g m
remains encoded true g m =
    ((g m && not (same_text (data_prefix ++ encoded) m))
      && not (begins (inprocess_prefix ++ encoded) m))
    && not (begins (acks_prefix ++ encoded) m)
