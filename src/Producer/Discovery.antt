-- ===== src/Producer/Discovery.antt =====
-- producer/api/cpp/src/receiver_discovery_service.cpp: the list of receivers. A URI is only stored and
-- compared, and is a number here.
use asapo.Base.{
  ℕ, zero, suc, ◌+◌, ◌-◌, ◌%◌, ◌<◌, ◌≤◌, ◌≡◌, refl, ap, ◌∙◌, List, [], ◌∷◌, ◌++◌, Option, some,
  none, arith, length, take, drop, get_elem?, dec_lt, ◌==◌, if◌then◌else◌, false,
}
use native.Mathlib.Nat.{mod-lt, mod-eq_of_lt, mod-eq-sub-mod}

pub record ReceiverDiscoveryService : Type 0 where
  pub uri_list : List ℕ
  pub max_connections : ℕ
  pub update_frequency_ms : ℕ

-- One turn of `ThreadHandler`: the answer of `UpdateFromEndpoint`, if it has one.
pub update_from_endpoint : ReceiverDiscoveryService → Option (List ℕ × ℕ) → ReceiverDiscoveryService
update_from_endpoint s none = s
update_from_endpoint s (some (uris, max_connections)) = record s {
  uri_list = uris;
  max_connections = max_connections;
}

-- `std::rotate(begin, begin + k, end)`.
pub rotate : ℕ → List ℕ → List ℕ
rotate k l = drop k l ++ take k l

pub rotated_uri_list : ReceiverDiscoveryService → ℕ → List ℕ
unfolding rotate
rotated_uri_list s nthread =
    let size = length s.uri_list in if size == 0 then [] else rotate (nthread % size) s.uri_list

module _ {ℓ} {A : Type ℓ} where
  get_elem?-append_left :
      (xs ys : List A) (i : ℕ) → i < length xs → get_elem? (xs ++ ys) i ≡ get_elem? xs i
  get_elem?-append_left [] ys i h = absurd (omega arith)
  get_elem?-append_left (x ∷ xs) ys zero h = refl
  get_elem?-append_left (x ∷ xs) ys (suc i) h = get_elem?-append_left xs ys i (omega arith)

  get_elem?-append_right :
      (xs ys : List A) (i : ℕ) → get_elem? (xs ++ ys) (length xs + i) ≡ get_elem? ys i
  get_elem?-append_right [] ys i = ap (get_elem? ys) (omega arith)
  get_elem?-append_right (x ∷ xs) ys i =
      ap (get_elem? (x ∷ (xs ++ ys)))
        (let e : suc (length xs) + i ≡ suc (length xs + i) = omega arith in e)
      ∙ get_elem?-append_right xs ys i

  get_elem?-drop : (k : ℕ) (xs : List A) (i : ℕ) → get_elem? (drop k xs) i ≡ get_elem? xs (k + i)
  get_elem?-drop zero xs i = ap (get_elem? xs) (omega arith)
  get_elem?-drop (suc k) [] i = refl
  get_elem?-drop (suc k) (x ∷ xs) i =
      get_elem?-drop k xs i
      ∙ ap (get_elem? (x ∷ xs)) (let e : suc (k + i) ≡ suc k + i = omega arith in e)

  get_elem?-take : (k : ℕ) (xs : List A) (i : ℕ) → i < k → get_elem? (take k xs) i ≡ get_elem? xs i
  get_elem?-take zero xs i h = absurd (omega arith)
  get_elem?-take (suc k) [] i h = refl
  get_elem?-take (suc k) (x ∷ xs) zero h = refl
  get_elem?-take (suc k) (x ∷ xs) (suc i) h = get_elem?-take k xs i (omega arith)

  length-drop : (k : ℕ) (xs : List A) → k ≤ length xs → length (drop k xs) + k ≡ length xs
  length-drop zero xs h = omega arith
  length-drop (suc k) [] h = absurd (omega arith)
  length-drop (suc k) (x ∷ xs) h = omega (arith, length-drop k xs (omega arith))

get_elem?-rotate :
    (k : ℕ) (l : List ℕ) (i : ℕ)
    → k < length l
    → i < length l
    → get_elem? (rotate k l) i ≡ get_elem? l ((i + k) % length l)
unfolding rotate
get_elem?-rotate k l i hk hi = elim (dec_lt (i + k) (length l)) [
  | yes p ↦
      get_elem?-append_left (drop k l) (take k l) i (omega (arith, length-drop k l (omega arith)))
      ∙ get_elem?-drop k l i
      ∙ ap (get_elem? l) (let e : k + i ≡ (i + k) % length l = omega (arith, mod-eq_of_lt p) in e)
  | no p ↦
      let j = i + k - length l in
      let drops = length-drop k l (omega arith) in
      let at : i ≡ length (drop k l) + j = omega (arith, drops) in
      let over : j ≡ (i + k) % length l = omega (
        arith,
        mod-eq-sub-mod {n = i + k} {m = length l} (omega arith),
        mod-eq_of_lt {n = i + k - length l} {m = length l} (omega arith),
      ) in
      ap (get_elem? (drop k l ++ take k l)) at
      ∙ get_elem?-append_right (drop k l) (take k l) j
      ∙ get_elem?-take k l j (omega arith)
      ∙ ap (get_elem? l) over
]

-- Thread `n` has the receivers in the service's order, starting with receiver `n % size`.
rotated_uri_list_lem :
    (s : ReceiverDiscoveryService) (n i : ℕ)
    → i < length s.uri_list
    → get_elem? (rotated_uri_list s n) i
      ≡ get_elem? s.uri_list ((i + n % length s.uri_list) % length s.uri_list)
unfolding rotated_uri_list
rotated_uri_list_lem s n i h =
    let size = length s.uri_list in
    let nonempty : (size == 0) ≡ false = ground arith in
    rw nonempty
      (unfold rotate in get_elem?-rotate (n % size) s.uri_list i (mod-lt n (omega arith)) h)
