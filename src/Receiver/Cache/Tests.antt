-- ===== src/Receiver/Cache/Tests.antt =====
-- The theorems about the data cache at concrete inputs, and runs of the code.
use asapo.Base.{
  ℕ, ◌+◌, ◌≤◌, ◌≡◌, refl, ◌⊎◌, List, [], ◌∷◌, ◌++◌, map, some, none, arith, All, take, drop, add64,
  sub64,
}
use asapo.Receiver.Cache.{
  CacheMeta, DataCache, data_cache, extent, scan, intersects, any_locked, allocate_slot,
  check_allocation_size, add_slot, get_free_slot_and_lock, unlock_slot,
}
use asapo.Receiver.Cache.Run.{Call, allocate, unlock, step, run, LiesApart, run-LiesApart}
use asapo.Receiver.Cache.Evict.{evicts_unlocked}

abbrev slot : ℕ → ℕ → ℕ → ℕ → CacheMeta
slot addr size lock handle = record {
  id = 4294967296 + handle;
  addr = addr;
  size = size;
  lock = lock;
  handle = handle;
}

abbrev calls : List Call
calls = allocate 40 1 ∷ unlock (some 0) ∷ allocate 50 2 ∷ allocate 30 3 ∷ []

abbrev after_calls : DataCache
after_calls = record {
  cache_size = 100;
  keep_dist = 10;
  counter = 11;
  cur_pointer = 30;
  metas =
      record { id = 8589934602; addr = 40; size = 50; lock = 1; handle = 1 }
      ∷ record { id = 12884901899; addr = 0; size = 30; lock = 1; handle = 2 }
      ∷ [];
  next_handle = 3;
}

run-calls : run (data_cache 100 10 7) calls ≡ some after_calls
unfolding run step data_cache get_free_slot_and_lock check_allocation_size allocate_slot add_slot
    scan intersects any_locked unlock_slot add64 sub64
run-calls = refl

run-LiesApart_example : LiesApart 100 after_calls
run-LiesApart_example = run-LiesApart 100 10 7 calls (omega arith) (omega arith) run-calls

-- The old row is `[60,70)`, `[70,80)`, `[80,90)`, and `[0,50)` is locked.
abbrev crowded : DataCache
crowded = record {
  cache_size = 100;
  keep_dist = 10;
  counter = 5;
  cur_pointer = 50;
  metas = slot 60 10 0 1 ∷ slot 70 10 0 2 ∷ slot 80 10 0 3 ∷ slot 0 50 1 4 ∷ [];
  next_handle = 5;
}

-- A new cache comes to it.
run_crowded :
    map extent
      (get_free_slot_and_lock
        (record {
          cache_size = 100;
          keep_dist = 10;
          counter = 4;
          cur_pointer = 90;
          metas = slot 0 60 0 0 ∷ slot 60 10 0 1 ∷ slot 70 10 0 2 ∷ slot 80 10 0 3 ∷ [];
          next_handle = 4;
        })
        50
        9).1.metas
    ≡ map extent crowded.metas
unfolding get_free_slot_and_lock check_allocation_size allocate_slot add_slot scan intersects
    any_locked add64 sub64
run_crowded = refl

evicts_unlocked_example :
    let (s, c') = get_free_slot_and_lock after_calls 20 4 in
    ((s ≡ none) × (c' ≡ after_calls))
    ⊎ ((n : ℕ) × (m : CacheMeta) × (s ≡ some (m.addr, m.handle))
        × (c'.metas ≡ drop n after_calls.metas ++ m ∷ [])
        × All (λ x. x.lock ≡ 0) (take n after_calls.metas)
        × (m.size ≡ 20)
        × (m.lock ≡ 1)
        × (c'.cur_pointer ≡ m.addr + 20)
        × (c'.cur_pointer ≤ 100))
evicts_unlocked_example = evicts_unlocked after_calls 20 4 (omega arith) (omega arith)
