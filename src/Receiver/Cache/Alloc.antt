-- ===== src/Receiver/Cache/Alloc.antt =====
-- `GetFreeSlotAndLock` (receiver/src/data_cache.cpp): what it evicts, and where the new slot lies.
use asapo.Base.{
  ℕ, suc, ◌+◌, ◌*◌, ◌%◌, ◌^◌, ◌≤◌, ◌≡◌, sym, ap, ◌∙◌, ◌⊎◌, inl, inr, true, false, List, [], ◌∷◌,
  ◌++◌, map, none, some, arith, All, take, drop, ltb, if◌then◌else◌, Bool-cases, add64, sub64,
  leb→le, leb,
}
use asapo.Receiver.Cache.{
  CacheMeta, DataCache, extent, scan, any_locked, allocate_slot, check_allocation_size, add_slot,
  get_free_slot_and_lock,
}

-- Where `AllocateSlot` puts a slot, and how many slots `CleanOldSlots` deletes for it.
abbrev pub slot_addr : DataCache → ℕ → ℕ
slot_addr c size = if ltb c.cache_size (add64 c.cur_pointer size) then 0 else c.cur_pointer

abbrev pub evicted : DataCache → ℕ → ℕ
evicted c size =
    let cur = add64 (slot_addr c size) size in
    scan (sub64 cur size) cur (map extent c.metas) 0 0 false

abbrev pub new_slot : DataCache → ℕ → ℕ → CacheMeta
new_slot c size now = record {
  id = now * 2 ^ 32 % 2 ^ 64 + (c.counter + 1) % 2 ^ 32;
  addr = slot_addr c size;
  size = size;
  lock = 1;
  handle = c.next_handle;
}

-- The cache after a successful call.
abbrev pub granted : DataCache → ℕ → ℕ → DataCache
granted c size now = record c {
  counter = (c.counter + 1) % 2 ^ 32;
  cur_pointer = add64 (slot_addr c size) size;
  metas = drop (evicted c size) c.metas ++ new_slot c size now ∷ [];
  next_handle = suc c.next_handle;
}

any_locked-false : (ms : List CacheMeta) → any_locked ms ≡ false → All (λ m. m.lock ≡ 0) ms
unfolding any_locked
any_locked-false [] h = tt
any_locked-false (m ∷ ms) h = (ground arith, any_locked-false ms (ground arith))

module _ (c : DataCache) (size : ℕ) where
  allocate_locked :
      any_locked (take (evicted c size) c.metas) ≡ true → allocate_slot c size ≡ (none, c)
  unfolding allocate_slot
  allocate_locked h = rw h

  allocate_free :
      any_locked (take (evicted c size) c.metas) ≡ false
      → allocate_slot c size ≡ (
        some (slot_addr c size),
        record c {
          cur_pointer = add64 (slot_addr c size) size;
          metas = drop (evicted c size) c.metas;
        },
      )
  unfolding allocate_slot
  allocate_free h = rw h

pub get_free_granted :
    (c : DataCache) (size now : ℕ)
    → leb size c.cache_size ≡ true
    → any_locked (take (evicted c size) c.metas) ≡ false
    → get_free_slot_and_lock c size now
      ≡ (some (slot_addr c size, c.next_handle), granted c size now)
unfolding get_free_slot_and_lock check_allocation_size add_slot
get_free_granted c size now fits free = rw (fits, allocate_free c size free)

-- The two ways in which a call can end.
pub get_free_cases :
    (c : DataCache) (size now : ℕ)
    → (get_free_slot_and_lock c size now ≡ (none, c))
      ⊎ ((get_free_slot_and_lock c size now
            ≡ (some (slot_addr c size, c.next_handle), granted c size now))
          × (size ≤ c.cache_size)
          × All (λ m. m.lock ≡ 0) (take (evicted c size) c.metas))
unfolding get_free_slot_and_lock check_allocation_size add_slot
get_free_cases c size now = elim (Bool-cases (leb size c.cache_size)) [
  | inr big ↦ inl (rw big)
  | inl fits ↦ elim (Bool-cases (any_locked (take (evicted c size) c.metas))) [
    | inl locked ↦ inl (rw (fits, allocate_locked c size locked))
    | inr free ↦ inr (
      get_free_granted c size now fits free,
      leb→le size c.cache_size fits,
      any_locked-false (take (evicted c size) c.metas) free,
    )
  ]
]

pub get_free_some :
    (c : DataCache) (size now : ℕ) (slot : ℕ × ℕ)
    → (get_free_slot_and_lock c size now).0 ≡ some slot
    → get_free_slot_and_lock c size now
      ≡ (some (slot_addr c size, c.next_handle), granted c size now)
get_free_some c size now slot h = elim (get_free_cases c size now) [
  | inl e ↦ absurd (let f : none ≡ some slot = ap (λ x. x.0) (sym e) ∙ h in cc)
  | inr (e, _, _) ↦ e
]
