-- ===== src/Receiver/Cache/Run.antt =====
-- Histories of calls on the data cache (receiver/src/data_cache.cpp).
use asapo.Base.{
  ℕ, ◌+◌, ◌*◌, ◌^◌, ◌≤◌, ◌<◌, ◌≡◌, refl, ◌∙◌, ◌⊎◌, inl, inr, List, [], ◌∷◌, ◌++◌, map, Option, some,
  none, arith, All, All-append, Option-cases, some_inj, subst,
}
use asapo.Receiver.Cache.{
  CacheMeta, DataCache, data_cache, extent, get_free_slot_and_lock, get_slot_to_read_and_lock,
  unlock_at, unlock_slot,
}
use asapo.Receiver.Cache.Layout.{Extent, Asc, Asc-of_Contig, Asc-le}
use asapo.Receiver.Cache.Alloc.{get_free_cases}
use asapo.Receiver.Cache.Ring.{IsRing, get_free-IsRing}
use asapo.Receiver.Cache.Locks.{
  Numbered, get_free-Numbered, extents-read, extents-unlock, Numbered-read, Numbered-unlock,
}

pub data Call : Type 0 where
  allocate : ℕ → ℕ → Call
  read : ℕ → ℕ → Call
  unlock : Option ℕ → Call

-- One call; `none` where it goes through a dangling pointer.
unfoldable pub step : DataCache → Call → Option DataCache
step c (allocate size now) = some (get_free_slot_and_lock c size now).1
step c (read id data_size) = some (get_slot_to_read_and_lock c id data_size).2
step c (unlock h) = elim (unlock_slot c h) [ none ↦ none | some (b, c') ↦ some c' ]

unfoldable pub run : DataCache → List Call → Option DataCache
run c [] = some c
run c (x ∷ xs) = elim (step c x) [ none ↦ none | some c' ↦ run c' xs ]

-- No request is empty or takes more than half of the cache.
abbrev pub IsModest : ℕ → Call → Type 0
IsModest cache_size (allocate size now) = (0 < size) × (2 * size ≤ cache_size)
IsModest cache_size (read id data_size) = Unit
IsModest cache_size (unlock h) = Unit

abbrev pub Disjoint : Extent → Extent → Type 0
Disjoint a b = (a.0 + a.1 ≤ b.0) ⊎ (b.0 + b.1 ≤ a.0)

abbrev pub Pairwise : List Extent → Type 0
Pairwise [] = Unit
Pairwise (e ∷ es) = All (Disjoint e) es × Pairwise es

above-Disjoint :
    (e : Extent) (lo : ℕ) (es : List Extent) (hi : ℕ)
    → e.0 + e.1 ≤ lo
    → Asc lo es hi
    → All (Disjoint e) es
above-Disjoint e lo [] hi le h = tt
above-Disjoint e lo (x ∷ es) hi le h =
    (inl (omega arith), above-Disjoint e (x.0 + x.1) es hi (omega arith) h.2)

below-Disjoint :
    (e : Extent) (lo : ℕ) (es : List Extent) (hi : ℕ)
    → hi ≤ e.0
    → Asc lo es hi
    → All (Disjoint e) es
below-Disjoint e lo [] hi le h = tt
below-Disjoint e lo (x ∷ es) hi le h =
    (inr (omega (arith, Asc-le (x.0 + x.1) es hi h.2)), below-Disjoint e (x.0 + x.1) es hi le h.2)

Pairwise-of_Asc : (lo : ℕ) (es : List Extent) (hi : ℕ) → Asc lo es hi → Pairwise es
Pairwise-of_Asc lo [] hi h = tt
Pairwise-of_Asc lo (e ∷ es) hi h =
    (above-Disjoint e (e.0 + e.1) es hi (omega arith) h.2, Pairwise-of_Asc (e.0 + e.1) es hi h.2)

rows-Pairwise :
    (lo : ℕ) (olds news : List Extent) (mid hi : ℕ)
    → mid ≤ lo
    → Asc lo olds hi
    → Asc 0 news mid
    → Pairwise (olds ++ news)
rows-Pairwise lo [] news mid hi le h k = Pairwise-of_Asc 0 news mid k
rows-Pairwise lo (e ∷ olds) news mid hi le h k = (
  All-append (Disjoint e) olds news (above-Disjoint e (e.0 + e.1) olds hi (omega arith) h.2)
      (below-Disjoint e 0 news mid (omega arith) k),
  rows-Pairwise (e.0 + e.1) olds news mid hi (omega arith) h.2 k,
)

within_row :
    (lo : ℕ) (es : List Extent) (hi : ℕ)
    → Asc lo es hi
    → (top : ℕ) → hi ≤ top
    → All (λ e. e.0 + e.1 ≤ top) es
within_row lo [] hi h top le = tt
within_row lo (e ∷ es) hi h top le =
    (omega (arith, Asc-le (e.0 + e.1) es hi h.2), within_row (e.0 + e.1) es hi h.2 top le)

-- What is kept: the ring and the numbers of the records, in a buffer of unchanged size.
pub record IsSound (cache_size : ℕ) (c : DataCache) : Type 0 where
  pub ring : IsRing c
  pub numbered : Numbered 0 c.metas c.next_handle
  pub same_size : c.cache_size ≡ cache_size

get_free-size :
    (c : DataCache) (size now : ℕ) → (get_free_slot_and_lock c size now).1.cache_size ≡ c.cache_size
get_free-size c size now = elim (get_free_cases c size now) [ inl e ↦ rw e | inr (e, _, _) ↦ rw e ]

-- Slots that lie as before still form the ring.
moved-IsRing :
    (c : DataCache) (ms : List CacheMeta)
    → map extent ms ≡ map extent c.metas
    → IsRing c
    → IsRing (record c { metas = ms })
moved-IsRing c ms e r = record {
  olds = r.olds;
  news = r.news;
  split = e ∙ r.split;
  old_row = r.old_row;
  new_row = r.new_row;
  small = r.small;
}

unlock-IsSound :
    (n : ℕ) (c c' : DataCache) (h : Option ℕ)
    → IsSound n c
    → step c (unlock h) ≡ some c'
    → IsSound n c'
unfolding step unlock_slot
unlock-IsSound n c c' none s e = subst (IsSound n) (some_inj e) s
unlock-IsSound n c c' (some h) s e = elim (Option-cases (unlock_at h c.metas)) [
  | inl gone ↦ absurd (ground arith)
  | inr (ms, found) ↦
      subst (IsSound n) (let p : record c { metas = ms } ≡ c' = ground arith in p) (record {
        ring = moved-IsRing c ms (extents-unlock h c.metas ms found) s.ring;
        numbered = Numbered-unlock h 0 c.metas ms c.next_handle found s.numbered;
        same_size = s.same_size;
      })
]

read-IsSound :
    (n : ℕ) (c : DataCache) (id data_size : ℕ)
    → IsSound n c
    → IsSound n (get_slot_to_read_and_lock c id data_size).2
unfolding get_slot_to_read_and_lock
read-IsSound n c id data_size s = record {
  ring = moved-IsRing c _ (extents-read c id data_size) s.ring;
  numbered = Numbered-read c id data_size s.numbered;
  same_size = s.same_size;
}

pub step-IsSound :
    (n : ℕ) (c c' : DataCache) (x : Call)
    → IsSound n c
    → IsModest n x
    → step c x ≡ some c'
    → IsSound n c'
unfolding step
step-IsSound n c c' (allocate size now) s m e = subst (IsSound n) (some_inj e) (record {
  ring = get_free-IsRing c size now s.ring m.0 (rw s.same_size m.1);
  numbered = get_free-Numbered c size now s.numbered;
  same_size = get_free-size c size now ∙ s.same_size;
})
step-IsSound n c c' (read id data_size) s m e =
    subst (IsSound n) (some_inj e) (read-IsSound n c id data_size s)
step-IsSound n c c' (unlock h) s m e = unlock-IsSound n c c' h s e

pub run-IsSound :
    (n : ℕ) (c c' : DataCache) (xs : List Call)
    → IsSound n c
    → All (IsModest n) xs
    → run c xs ≡ some c'
    → IsSound n c'
unfolding run
run-IsSound n c c' [] s m e = subst (IsSound n) (some_inj e) s
run-IsSound n c c' (x ∷ xs) s m e = elim (Option-cases (step c x)) [
  | inl stuck ↦ absurd (ground arith)
  | inr (c'', found) ↦
      run-IsSound n c'' c' xs (step-IsSound n c c'' x s m.0 found) m.1 (ground arith)
]

init-IsSound : (n keep_dist random : ℕ) → n < 2 ^ 63 → IsSound n (data_cache n keep_dist random)
unfolding data_cache
init-IsSound n keep_dist random small = record {
  ring = record {
    olds = [];
    news = [];
    split = refl;
    old_row = omega arith;
    new_row = refl;
    small = small;
  };
  numbered = omega arith;
  same_size = refl;
}

abbrev pub LiesApart : ℕ → DataCache → Type 0
LiesApart n c = Pairwise (map extent c.metas) × All (λ e. e.0 + e.1 ≤ n) (map extent c.metas)

IsSound-LiesApart : (n : ℕ) (c : DataCache) → IsSound n c → LiesApart n c
IsSound-LiesApart n c s =
    let r = s.ring in
    let new_row = Asc-of_Contig 0 r.news c.cur_pointer r.new_row in
    let p : c.cur_pointer ≤ n =
      omega (arith, Asc-le c.cur_pointer r.olds c.cache_size r.old_row, s.same_size) in
    (
      rw r.split (
          rows-Pairwise c.cur_pointer r.olds r.news c.cur_pointer c.cache_size (omega arith)
            r.old_row new_row),
      rw r.split (
          All-append _ r.olds r.news
            (within_row c.cur_pointer r.olds c.cache_size r.old_row n (omega (arith, s.same_size)))
            (within_row 0 r.news c.cur_pointer new_row n p)),
    )

-- If no request is empty or takes more than half of a buffer of `n < 2 ^ 63` bytes, then after any
-- history of allocations, reads and unlocks of a new cache the slots lie inside the buffer and no two
-- of them overlap.
pub run-LiesApart :
    (n keep_dist random : ℕ) (xs : List Call) {c : DataCache}
    → n < 2 ^ 63
    → All (IsModest n) xs
    → run (data_cache n keep_dist random) xs ≡ some c
    → LiesApart n c
run-LiesApart n keep_dist random xs {c} small m e =
    IsSound-LiesApart n c (
      run-IsSound n (data_cache n keep_dist random) c xs (init-IsSound n keep_dist random small) m
        e)
