-- ===== src/Receiver/Cache/Ring.antt =====
-- The slots of the data cache (receiver/src/data_cache.cpp) as a ring: those of the last round, in a
-- row from the current pointer on, then those of this round, in a row from 0 up to the pointer.
use asapo.Base.{
  ℕ, zero, suc, ◌+◌, ◌*◌, ◌^◌, ◌≤◌, ◌<◌, ◌≡◌, refl, sym, ap, ◌∙◌, inl, inr, false, List, [], ◌∷◌,
  ◌++◌, map, map-append, dec_lt, append-nil, append_assoc, arith, length, drop, add64, add64_exact,
  sub64-add64,
}
use native.Mathlib.Nat.{zero-add}
use asapo.Receiver.Cache.{CacheMeta, DataCache, extent, scan, get_free_slot_and_lock}
use asapo.Receiver.Cache.Layout.{
  Extent, Asc, Contig, Asc-of_Contig, Asc-le, Asc-raise, Contig-append, Misses-above, Misses-below,
  Cut, scan_row, scan_row_hit, scan_skips,
}
use asapo.Receiver.Cache.Alloc.{slot_addr, evicted, granted, get_free_cases}

pub record IsRing (c : DataCache) : Type 0 where
  pub olds : List Extent
  pub news : List Extent
  pub split : map extent c.metas ≡ olds ++ news
  pub old_row : Asc c.cur_pointer olds c.cache_size
  pub new_row : Contig 0 news c.cur_pointer
  pub small : c.cache_size < 2 ^ 63

map-drop : (n : ℕ) (ms : List CacheMeta) → map extent (drop n ms) ≡ drop n (map extent ms)
map-drop zero ms = refl
map-drop (suc n) [] = refl
map-drop (suc n) (m ∷ ms) = map-drop n ms

drop-append_le {ℓ} :
    {A : Type ℓ} (k : ℕ) (xs ys : List A) → k ≤ length xs → drop k (xs ++ ys) ≡ drop k xs ++ ys
drop-append_le zero xs ys h = refl
drop-append_le (suc k) [] ys h = absurd (omega arith)
drop-append_le (suc k) (x ∷ xs) ys h = drop-append_le k xs ys (omega arith)

drop-append_length {ℓ} :
    {A : Type ℓ} (k : ℕ) (xs ys : List A) → drop (length xs + k) (xs ++ ys) ≡ drop k ys
drop-append_length k [] ys = ap (λ n. drop n ys) (omega arith)
drop-append_length k (x ∷ xs) ys =
    let e : suc (length xs) + k ≡ suc (length xs + k) = omega arith in
    ap (λ n. drop n (x ∷ (xs ++ ys))) e ∙ drop-append_length k xs ys

pub evicted_at :
    (c : DataCache) (size addr : ℕ) (es : List Extent)
    → slot_addr c size ≡ addr
    → addr + size < 2 ^ 64
    → map extent c.metas ≡ es
    → evicted c size ≡ scan addr (addr + size) es 0 0 false
evicted_at c size addr es at small e =
    rw (at, e, sub64-add64 addr size (omega arith) (omega arith), add64_exact addr size small)

-- The request fits behind the pointer: a leading part of the old row goes.
module _ (c : DataCache) (size : ℕ) (r : IsRing c)
    (fits : c.cur_pointer + size ≤ c.cache_size) where
  slot_addr_fits : slot_addr c size ≡ c.cur_pointer
  slot_addr_fits = ground (arith, add64_exact c.cur_pointer size, r.small)

  fits-Cut :
      Cut
        (c.cur_pointer + size)
        r.olds
        c.cache_size
        0
        0
        (scan c.cur_pointer (c.cur_pointer + size) (r.olds ++ r.news) 0 0 false)
  fits-Cut =
      scan_row c.cur_pointer (c.cur_pointer + size) c.cur_pointer r.olds r.news c.cache_size 0 0
        false (omega (arith, r.small)) (omega arith) fits r.old_row
        (Misses-below c.cur_pointer (c.cur_pointer + size) 0 r.news c.cur_pointer
          (omega (arith, r.small)) (omega arith) (Asc-of_Contig 0 r.news c.cur_pointer r.new_row))

  evicted_fits :
      evicted c size ≡ scan c.cur_pointer (c.cur_pointer + size) (r.olds ++ r.news) 0 0 false
  evicted_fits = evicted_at c size c.cur_pointer _ slot_addr_fits (omega (arith, r.small)) r.split

news_cut :
    (size cur i : ℕ) (news : List Extent)
    → cur < 2 ^ 64
    → 0 < size
    → size ≤ cur
    → Contig 0 news cur
    → (k : ℕ) × (scan 0 size news i 0 false ≡ i + suc k)
      × (suc k ≤ length news)
      × Asc size (drop (suc k) news) cur
news_cut size cur i [] small pos le h = absurd (omega arith)
news_cut size cur i (e ∷ es) small pos le h = rw append-nil at (
    scan_row_hit 0 size e es [] cur i 0 false small (sym h.0) pos le
      (Asc-of_Contig 0 (e ∷ es) cur h) tt)

-- The request starts again from 0 and ends before the old row: the whole old row goes, and a leading
-- part of the new one.
module _ (c : DataCache) (size : ℕ) (r : IsRing c) (pos : 0 < size)
    (wraps : c.cache_size < c.cur_pointer + size) (half : 2 * size ≤ c.cache_size) where
  slot_addr_wraps : slot_addr c size ≡ 0
  slot_addr_wraps = ground (
    arith,
    add64_exact c.cur_pointer size,
    r.small,
    Asc-le c.cur_pointer r.olds c.cache_size r.old_row,
  )

  wraps_hit :
      (k : ℕ) × (evicted c size ≡ length r.olds + suc k)
      × (suc k ≤ length r.news)
      × Asc size (drop (suc k) r.news) c.cur_pointer
  wraps_hit =
      let at = evicted_at c size 0 _ slot_addr_wraps (omega (arith, r.small)) r.split in
      let miss =
        Misses-above 0 size c.cur_pointer r.olds c.cache_size (omega (arith, r.small)) (omega arith)
          r.old_row in
      let skips = scan_skips size r.olds r.news 0 miss in
      let (k, e, b, a) =
        news_cut size c.cur_pointer (length r.olds) r.news
          (omega (arith, r.small, Asc-le c.cur_pointer r.olds c.cache_size r.old_row)) pos
          (omega arith) r.new_row in
      (k, cc (at, skips, e, zero-add size, zero-add (length r.olds)), b, a)

-- What is left of the slots, with the new one behind them.
module _ (c : DataCache) (size now addr : ℕ) (at : slot_addr c size ≡ addr)
    (small : addr + size < 2 ^ 64) where
  granted_pointer : add64 (slot_addr c size) size ≡ addr + size
  granted_pointer = rw (at, add64_exact addr size small)

  granted_split :
      (es : List Extent)
      → drop (evicted c size) (map extent c.metas) ≡ es
      → map extent (granted c size now).metas ≡ es ++ (addr, size) ∷ []
  granted_split es e = rw (map-append, map-drop, e, at)

fits_rest :
    (c : DataCache) (size : ℕ) (r : IsRing c)
    → c.cur_pointer + size ≤ c.cache_size
    → (olds : List Extent) × (drop (evicted c size) (map extent c.metas) ≡ olds ++ r.news)
      × Asc (c.cur_pointer + size) olds c.cache_size
fits_rest c size r fits = elim (fits-Cut c size r fits) [
  | inl (e, a) ↦ (r.olds, rw (evicted_fits c size r fits, e, r.split), a)
  | inr (k, e, b, a) ↦ (
    drop (suc k) r.olds,
    rw (evicted_fits c size r fits, e, zero-add, r.split) (drop-append_le (suc k) r.olds r.news b),
    a,
  )
]

wraps_rest :
    (c : DataCache) (size : ℕ) (r : IsRing c)
    → 0 < size
    → c.cache_size < c.cur_pointer + size
    → 2 * size ≤ c.cache_size
    → (olds : List Extent) × (drop (evicted c size) (map extent c.metas) ≡ olds)
      × Asc size olds c.cache_size
wraps_rest c size r pos wraps half =
    let (k, e, b, a) = wraps_hit c size r pos wraps half in
    (
      drop (suc k) r.news,
      rw (e, r.split) (drop-append_length (suc k) r.olds r.news),
      Asc-raise size (drop (suc k) r.news) c.cur_pointer c.cache_size
          (Asc-le c.cur_pointer r.olds c.cache_size r.old_row) a,
    )

fits-IsRing :
    (c : DataCache) (size now : ℕ)
    → IsRing c
    → 0 < size
    → c.cur_pointer + size ≤ c.cache_size
    → IsRing (granted c size now)
fits-IsRing c size now r pos fits =
    let (olds, e, a) = fits_rest c size r fits in
    let at = slot_addr_fits c size r fits in
    let small : c.cur_pointer + size < 2 ^ 64 = omega (arith, r.small) in
    record {
      olds = olds;
      news = r.news ++ (c.cur_pointer, size) ∷ [];
      split = granted_split c size now c.cur_pointer at small _ e ∙ append_assoc olds r.news _;
      old_row = rw (granted_pointer c size now c.cur_pointer at small) a;
      new_row =
          rw (granted_pointer c size now c.cur_pointer at small)
            (Contig-append 0 r.news c.cur_pointer size pos r.new_row);
      small = r.small;
    }

wraps-IsRing :
    (c : DataCache) (size now : ℕ)
    → IsRing c
    → 0 < size
    → c.cache_size < c.cur_pointer + size
    → 2 * size ≤ c.cache_size
    → IsRing (granted c size now)
wraps-IsRing c size now r pos wraps half =
    let (olds, e, a) = wraps_rest c size r pos wraps half in
    let at = slot_addr_wraps c size r pos wraps half in
    let small : 0 + size < 2 ^ 64 = omega (arith, r.small) in
    record {
      olds = olds;
      news = (0, size) ∷ [];
      split = granted_split c size now 0 at small _ e;
      old_row = rw (granted_pointer c size now 0 at small, zero-add) a;
      new_row = rw (granted_pointer c size now 0 at small) (refl, pos, refl);
      small = r.small;
    }

pub granted-IsRing :
    (c : DataCache) (size now : ℕ)
    → IsRing c
    → 0 < size
    → 2 * size ≤ c.cache_size
    → IsRing (granted c size now)
granted-IsRing c size now r pos half = elim (dec_lt c.cache_size (c.cur_pointer + size)) [
  | yes p ↦ wraps-IsRing c size now r pos p half
  | no p ↦ fits-IsRing c size now r pos (omega arith)
]

pub get_free-IsRing :
    (c : DataCache) (size now : ℕ)
    → IsRing c
    → 0 < size
    → 2 * size ≤ c.cache_size
    → IsRing (get_free_slot_and_lock c size now).1
get_free-IsRing c size now r pos half = elim (get_free_cases c size now) [
  | inl e ↦ rw e r
  | inr (e, _, _) ↦ rw e (granted-IsRing c size now r pos half)
]
