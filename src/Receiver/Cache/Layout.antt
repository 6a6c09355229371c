-- ===== src/Receiver/Cache/Layout.antt =====
-- The loop of `CleanOldSlots` (receiver/src/data_cache.cpp) over slots that lie in a row.
use asapo.Base.{
  ℕ, suc, ◌+◌, ◌^◌, ◌≤◌, ◌<◌, ◌≡◌, refl, ap, ◌⊎◌, inl, inr, Bool, true, false, List, [], ◌∷◌, ◌++◌,
  arith, length, drop, All, add64, add64_exact, All-append, subst, sym, dec_lt,
}
use native.Mathlib.Nat.{le_refl}
use asapo.Receiver.Cache.{intersects, scan}

abbrev pub Extent : Type 0
Extent = ℕ × ℕ

-- The slots lie one after another between `lo` and `hi`, with gaps, and none is empty.
abbrev pub Asc : ℕ → List Extent → ℕ → Type 0
Asc lo [] hi = lo ≤ hi
Asc lo (e ∷ es) hi = (lo ≤ e.0) × (0 < e.1) × Asc (e.0 + e.1) es hi

-- The same with no gap.
abbrev pub Contig : ℕ → List Extent → ℕ → Type 0
Contig lo [] hi = lo ≡ hi
Contig lo (e ∷ es) hi = (lo ≡ e.0) × (0 < e.1) × Contig (e.0 + e.1) es hi

pub Asc-of_Contig : (lo : ℕ) (es : List Extent) (hi : ℕ) → Contig lo es hi → Asc lo es hi
Asc-of_Contig lo [] hi h = omega arith
Asc-of_Contig lo (e ∷ es) hi h = (omega arith, h.1, Asc-of_Contig (e.0 + e.1) es hi h.2)

pub Asc-le : (lo : ℕ) (es : List Extent) (hi : ℕ) → Asc lo es hi → lo ≤ hi
Asc-le lo [] hi h = h
Asc-le lo (e ∷ es) hi h = omega (arith, Asc-le (e.0 + e.1) es hi h.2)

pub Asc-lower : (lo lo' : ℕ) (es : List Extent) (hi : ℕ) → lo' ≤ lo → Asc lo es hi → Asc lo' es hi
Asc-lower lo lo' [] hi le h = omega arith
Asc-lower lo lo' (e ∷ es) hi le h = (omega arith, h.1, h.2)

pub Asc-raise : (lo : ℕ) (es : List Extent) (hi hi' : ℕ) → hi ≤ hi' → Asc lo es hi → Asc lo es hi'
Asc-raise lo [] hi hi' le h = omega arith
Asc-raise lo (e ∷ es) hi hi' le h = (h.0, h.1, Asc-raise (e.0 + e.1) es hi hi' le h.2)

pub Contig-append :
    (lo : ℕ) (es : List Extent) (mid size : ℕ)
    → 0 < size
    → Contig lo es mid
    → Contig lo (es ++ (mid, size) ∷ []) (mid + size)
Contig-append lo [] mid size p h = (h, p, refl)
Contig-append lo (e ∷ es) mid size p h = (h.0, h.1, Contig-append (e.0 + e.1) es mid size p h.2)

-- Slots that miss `[left, right)`.
abbrev pub Misses : ℕ → ℕ → List Extent → Type 0
Misses left right = All (λ e. intersects e.0 (add64 e.0 e.1) left right ≡ false)

-- Slots from `right` on, or up to `left`, miss `[left, right)`.
pub Misses-above :
    (left right lo : ℕ) (es : List Extent) (hi : ℕ)
    → hi < 2 ^ 64
    → right ≤ lo
    → Asc lo es hi
    → Misses left right es
unfolding intersects
Misses-above left right lo [] hi small le h = tt
Misses-above left right lo (e ∷ es) hi small le h = (
  ground (arith, add64_exact e.0 e.1, Asc-le (e.0 + e.1) es hi h.2),
  Misses-above left right (e.0 + e.1) es hi small (omega arith) h.2,
)

pub Misses-below :
    (left right lo : ℕ) (es : List Extent) (hi : ℕ)
    → hi < 2 ^ 64
    → hi ≤ left
    → Asc lo es hi
    → Misses left right es
unfolding intersects
Misses-below left right lo [] hi small le h = tt
Misses-below left right lo (e ∷ es) hi small le h = (
  ground (arith, add64_exact e.0 e.1, Asc-le (e.0 + e.1) es hi h.2),
  Misses-below left right (e.0 + e.1) es hi small le h.2,
)

-- Where nothing is hit, nothing more is deleted.
pub scan-Misses :
    (left right : ℕ) (es : List Extent) (i n : ℕ) (was : Bool)
    → Misses left right es
    → scan left right es i n was ≡ n
unfolding scan
scan-Misses left right [] i n was h = refl
scan-Misses left right (e ∷ es) i n was h =
    ground (arith, h.0, scan-Misses left right es (i + 1) n was h.1)

-- Started at 0 and before any hit, the loop passes over what it does not hit.
pub scan_skips :
    (right : ℕ) (es rest : List Extent) (i : ℕ)
    → Misses 0 right es
    → scan 0 right (es ++ rest) i 0 false ≡ scan 0 right rest (i + length es) 0 false
unfolding scan
scan_skips right [] rest i h = ap (λ k. scan 0 right rest k 0 false) (omega arith)
scan_skips right (e ∷ es) rest i h = ground (
  arith,
  h.0,
  scan_skips right es rest (i + 1) h.1,
  ap (λ k. scan 0 right rest k 0 false)
      (let p : i + 1 + length es ≡ i + suc (length es) = omega arith in p),
)

-- Over a row from `left` on, with nothing to hit behind it, the loop deletes a leading part, and
-- what stays lies from `right` on. Where the first slot is hit, something is deleted.
abbrev pub Cut : ℕ → List Extent → ℕ → ℕ → ℕ → ℕ → Type 0
Cut right es hi i n result =
    ((result ≡ n) × Asc right es hi)
    ⊎ ((k : ℕ) × (result ≡ i + suc k) × (suc k ≤ length es) × Asc right (drop (suc k) es) hi)

Cut-extend :
    (right : ℕ) (e : Extent) (es : List Extent) (hi i result : ℕ)
    → Cut right es hi (i + 1) (i + 1) result
    → (k : ℕ) × (result ≡ i + suc k)
      × (suc k ≤ length (e ∷ es))
      × Asc right (drop (suc k) (e ∷ es)) hi
Cut-extend right e es hi i result (inl (p, a)) = (0, p, omega arith, a)
Cut-extend right e es hi i result (inr (k, p, b, a)) = (suc k, omega arith, omega arith, a)

hits :
    (left right : ℕ) (e : Extent)
    → left ≤ e.0
    → e.0 < right
    → intersects e.0 (add64 e.0 e.1) left right ≡ true
unfolding intersects
hits left right e p q = ground arith

scan_hit :
    (left right : ℕ) (e : Extent) (es : List Extent) (i n : ℕ) (was : Bool)
    → left ≤ e.0
    → e.0 < right
    → scan left right (e ∷ es) i n was ≡ scan left right es (i + 1) (i + 1) true
unfolding scan
scan_hit left right e es i n was p q = rw (hits left right e p q)

pub scan_row :
    (left right lo : ℕ) (es rest : List Extent) (hi i n : ℕ) (was : Bool)
    → hi < 2 ^ 64
    → left ≤ lo
    → right ≤ hi
    → Asc lo es hi
    → Misses left right rest
    → Cut right es hi i n (scan left right (es ++ rest) i n was)
scan_row left right lo [] rest hi i n was small l r h miss =
    inl (scan-Misses left right rest i n was miss, r)
scan_row left right lo (e ∷ es) rest hi i n was small l r h miss = elim (dec_lt e.0 right) [
  | yes p ↦
      let tail =
        scan_row left right (e.0 + e.1) es rest hi (i + 1) (i + 1) true small (omega arith) r h.2
          miss in
      inr (
        subst
          (λ result.
            (k : ℕ) × (result ≡ i + suc k)
            × (suc k ≤ length (e ∷ es))
            × Asc right (drop (suc k) (e ∷ es)) hi)
          (sym (scan_hit left right e (es ++ rest) i n was (omega arith) p))
          (Cut-extend right e es hi i (scan left right (es ++ rest) (i + 1) (i + 1) true) tail))
  | no p ↦
      let above : Asc right (e ∷ es) hi =
        Asc-lower e.0 right (e ∷ es) hi (omega arith) (le_refl e.0, h.1, h.2) in
      inl (
        scan-Misses left right (e ∷ (es ++ rest)) i n was (
            All-append _ (e ∷ es) rest
              (Misses-above left right right (e ∷ es) hi small (le_refl right) above) miss),
        above,
      )
]

-- A row that begins with a slot at `left` loses that slot at least.
pub scan_row_hit :
    (left right : ℕ) (e : Extent) (es rest : List Extent) (hi i n : ℕ) (was : Bool)
    → hi < 2 ^ 64
    → e.0 ≡ left
    → left < right
    → right ≤ hi
    → Asc left (e ∷ es) hi
    → Misses left right rest
    → (k : ℕ) × (scan left right (e ∷ (es ++ rest)) i n was ≡ i + suc k)
      × (suc k ≤ length (e ∷ es))
      × Asc right (drop (suc k) (e ∷ es)) hi
scan_row_hit left right e es rest hi i n was small at p r h miss =
    subst
      (λ result.
        (k : ℕ) × (result ≡ i + suc k)
        × (suc k ≤ length (e ∷ es))
        × Asc right (drop (suc k) (e ∷ es)) hi)
      (sym (scan_hit left right e (es ++ rest) i n was (omega arith) (omega arith)))
      (Cut-extend right e es hi i (scan left right (es ++ rest) (i + 1) (i + 1) true) (
        scan_row left right (e.0 + e.1) es rest hi (i + 1) (i + 1) true small (omega arith) r h.2
          miss))
