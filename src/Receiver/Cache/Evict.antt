-- ===== src/Receiver/Cache/Evict.antt =====
-- The outcome of `GetFreeSlotAndLock` (receiver/src/data_cache.cpp).
use asapo.Base.{
  ℕ, ◌+◌, ◌^◌, ◌≤◌, ◌<◌, ◌≡◌, ◌≢◌, refl, ◌⊎◌, inl, inr, [], ◌∷◌, ◌++◌, some, none, arith, All, take,
  drop, add64_exact,
}
use asapo.Receiver.Cache.{CacheMeta, DataCache, get_free_slot_and_lock, get_next_id}
use asapo.Receiver.Cache.Alloc.{slot_addr, evicted, new_slot, get_free_cases}

-- A call fails and changes nothing, or it returns a slot of the asked size that lies inside the buffer
-- and ends at the new current pointer, locked once and stored last, and all that it has removed are
-- leading slots that nobody has locked.
pub evicts_unlocked :
    (c : DataCache) (size now : ℕ)
    → c.cache_size < 2 ^ 63
    → c.cur_pointer ≤ c.cache_size
    → let (slot, c') = get_free_slot_and_lock c size now in
      ((slot ≡ none) × (c' ≡ c))
      ⊎ ((n : ℕ) × (m : CacheMeta) × (slot ≡ some (m.addr, m.handle))
          × (c'.metas ≡ drop n c.metas ++ m ∷ [])
          × All (λ x. x.lock ≡ 0) (take n c.metas)
          × (m.size ≡ size)
          × (m.lock ≡ 1)
          × (c'.cur_pointer ≡ m.addr + size)
          × (c'.cur_pointer ≤ c.cache_size))
evicts_unlocked c size now small inside = elim (get_free_cases c size now) [
  | inl e ↦ inl (rw e, rw e)
  | inr (e, fits, free) ↦ inr (
    evicted c size,
    new_slot c size now,
    rw e,
    rw e,
    free,
    refl,
    refl,
    rw e (add64_exact (slot_addr c size) size (ground (arith, add64_exact c.cur_pointer size))),
    rw e (ground (arith, add64_exact c.cur_pointer size, add64_exact 0 size)),
  )
]

-- The low half of an id is the counter after the call, so calls that leave different counters return
-- different ids, whatever the clock says.
pub ids_differ :
    (c d : DataCache) (now later : ℕ)
    → (get_next_id c now).1.counter ≢ (get_next_id d later).1.counter
    → (get_next_id c now).0 ≢ (get_next_id d later).0
unfolding get_next_id
ids_differ c d now later h e = h (omega arith)
