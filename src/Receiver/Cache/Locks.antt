-- ===== src/Receiver/Cache/Locks.antt =====
-- `GetSlotToReadAndLock` and `UnlockSlot` (receiver/src/data_cache.cpp).
use asapo.Base.{
  ℕ, zero, suc, ◌+◌, ◌-◌, ◌≤◌, ◌≡◌, ◌≢◌, refl, ap, ◌∙◌, inl, inr, Bool, true, false, List, [], ◌∷◌,
  ◌++◌, map, some, none, arith, All, drop, ◌==◌, if◌then◌else◌, Option-cases,
}
use asapo.Receiver.Cache.{
  CacheMeta, DataCache, untouched, null, points_to, extent, slot_too_close_to_current_pointer,
  find_and_lock, get_slot_to_read_and_lock, unlock_at, unlock_slot, get_free_slot_and_lock,
}
use asapo.Receiver.Cache.Alloc.{get_free_cases, evicted}

-- The records lie in the order in which they were allocated, each under a number of its own.
abbrev pub Numbered : ℕ → List CacheMeta → ℕ → Type 0
Numbered lo [] hi = lo ≤ hi
Numbered lo (m ∷ ms) hi = (lo ≤ m.handle) × Numbered (suc m.handle) ms hi

Numbered-lower :
    (lo lo' : ℕ) (ms : List CacheMeta) (hi : ℕ) → lo' ≤ lo → Numbered lo ms hi → Numbered lo' ms hi
Numbered-lower lo lo' [] hi le h = omega arith
Numbered-lower lo lo' (m ∷ ms) hi le h = (omega arith, h.1)

Numbered-drop :
    (lo n : ℕ) (ms : List CacheMeta) (hi : ℕ) → Numbered lo ms hi → Numbered lo (drop n ms) hi
Numbered-drop lo zero ms hi h = h
Numbered-drop lo (suc n) [] hi h = h
Numbered-drop lo (suc n) (m ∷ ms) hi h =
    Numbered-drop lo n ms hi (Numbered-lower (suc m.handle) lo ms hi (omega arith) h.1)

Numbered-append :
    (lo : ℕ) (ms : List CacheMeta) (m : CacheMeta)
    → Numbered lo ms m.handle
    → Numbered lo (ms ++ m ∷ []) (suc m.handle)
Numbered-append lo [] m h = (h, omega arith)
Numbered-append lo (x ∷ ms) m h = (h.0, Numbered-append (suc x.handle) ms m h.1)

pub get_free-Numbered :
    (c : DataCache) (size now : ℕ)
    → Numbered 0 c.metas c.next_handle
    → let c' = (get_free_slot_and_lock c size now).1 in Numbered 0 c'.metas c'.next_handle
get_free-Numbered c size now h = elim (get_free_cases c size now) [
  | inl e ↦ rw e h
  | inr (e, _, _) ↦ rw e (
      Numbered-append 0 (drop (evicted c size) c.metas) _
        (Numbered-drop 0 (evicted c size) c.metas c.next_handle h))
]

-- The slot has the size that the reader expects, and the writer is far enough from it.
abbrev pub readable : DataCache → ℕ → CacheMeta → Bool
readable c data_size m =
    if data_size == m.size
    then (if slot_too_close_to_current_pointer c m then false else true)
    else false

abbrev pub locked_once_more : CacheMeta → CacheMeta
locked_once_more m = record m { lock = m.lock + 1 }

module _ (c : DataCache) (id data_size : ℕ) where
  find_missing :
      (ms : List CacheMeta)
      → All (λ m. m.id ≢ id) ms
      → find_and_lock c id data_size ms ≡ (none, null, ms)
  unfolding find_and_lock
  find_missing [] h = refl
  find_missing (m ∷ ms) h = ground (arith, h.0, find_missing ms h.1)

  find_first :
      (pre : List CacheMeta) (m : CacheMeta) (post : List CacheMeta)
      → All (λ x. x.id ≢ id) pre
      → m.id ≡ id
      → find_and_lock c id data_size (pre ++ m ∷ post) ≡ (
          if readable c data_size m
          then (some m.addr, points_to m.handle, pre ++ locked_once_more m ∷ post)
          else (none, untouched, pre ++ m ∷ post))
  unfolding find_and_lock slot_too_close_to_current_pointer
  find_first [] m post h e = ground arith
  find_first (x ∷ pre) m post h e = ground (arith, h.0, find_first pre m post h.1 e)

-- The first slot with the id decides: it is locked once more and its address returned if it is
-- readable, else the call fails, leaves the slots as they are and does not write `*meta`.
pub read_first :
    (c : DataCache) (id data_size : ℕ) (pre : List CacheMeta) (m : CacheMeta)
    (post : List CacheMeta)
    → c.metas ≡ pre ++ m ∷ post
    → All (λ x. x.id ≢ id) pre
    → m.id ≡ id
    → get_slot_to_read_and_lock c id data_size ≡ (
        if readable c data_size m
        then (
          some m.addr,
          points_to m.handle,
          record c { metas = pre ++ locked_once_more m ∷ post },
        )
        else (none, untouched, c))
unfolding get_slot_to_read_and_lock
read_first c id data_size pre m post split first e =
    ground
      (arith, find_first c id data_size pre m post first e, ap (find_and_lock c id data_size) split)

-- With no slot of that id the call fails and sets `*meta` to null.
pub read_missing :
    (c : DataCache) (id data_size : ℕ)
    → All (λ x. x.id ≢ id) c.metas
    → get_slot_to_read_and_lock c id data_size ≡ (none, null, c)
unfolding get_slot_to_read_and_lock
read_missing c id data_size h = rw (find_missing c id data_size c.metas h)

pub Numbered-before :
    (lo : ℕ) (pre : List CacheMeta) (m : CacheMeta) (post : List CacheMeta) (hi : ℕ)
    → Numbered lo (pre ++ m ∷ post) hi
    → lo ≤ m.handle
Numbered-before lo [] m post hi h = h.0
Numbered-before lo (x ∷ pre) m post hi h =
    omega (arith, h.0, Numbered-before (suc x.handle) pre m post hi h.1)

unlock_above :
    (h lo : ℕ) (m : CacheMeta) (pre post : List CacheMeta) (hi : ℕ)
    → Numbered lo (pre ++ m ∷ post) hi
    → m.handle ≡ h
    → unlock_at h (pre ++ m ∷ post) ≡ some (pre ++ record m { lock = m.lock - 1 } ∷ post)
unfolding unlock_at
unlock_above h lo m [] post hi n e = ground arith
unlock_above h lo m (x ∷ pre) post hi n e = ground (
  arith,
  unlock_above h (suc x.handle) m pre post hi n.1 e,
  Numbered-before (suc x.handle) pre m post hi n.1,
)

-- The slot that was allocated last is found.
pub unlock_last :
    (c : DataCache) (pre : List CacheMeta) (m : CacheMeta)
    → c.metas ≡ pre ++ m ∷ []
    → Numbered 0 c.metas c.next_handle
    → unlock_slot c (some m.handle)
      ≡ some (true, record c { metas = pre ++ record m { lock = m.lock - 1 } ∷ [] })
unfolding unlock_slot
unlock_last c pre m split n = ground (
  arith,
  ap (unlock_at m.handle) split
      ∙ unlock_above m.handle 0 m pre [] c.next_handle (rw split at n) refl,
)

pub Numbered-swap :
    (lo : ℕ) (pre : List CacheMeta) (m m' : CacheMeta) (post : List CacheMeta) (hi : ℕ)
    → m'.handle ≡ m.handle
    → Numbered lo (pre ++ m ∷ post) hi
    → Numbered lo (pre ++ m' ∷ post) hi
Numbered-swap lo [] m m' post hi e h = rw e h
Numbered-swap lo (x ∷ pre) m m' post hi e h =
    (h.0, Numbered-swap (suc x.handle) pre m m' post hi e h.1)

unlock_locked :
    (m : CacheMeta) (pre post : List CacheMeta) (hi : ℕ)
    → Numbered 0 (pre ++ m ∷ post) hi
    → unlock_at m.handle (pre ++ locked_once_more m ∷ post) ≡ some (pre ++ m ∷ post)
unlock_locked m pre post hi n =
    unlock_above m.handle 0 (locked_once_more m) pre post hi
      (Numbered-swap 0 pre m (locked_once_more m) post hi refl n) refl
    ∙ ap (λ k. some (pre ++ record m { lock = k } ∷ post))
        (let p : m.lock + 1 - 1 ≡ m.lock = omega arith in p)

-- Unlocking after a successful read gives back the cache as it was.
pub unlock-read :
    (c : DataCache) (id data_size : ℕ) (pre : List CacheMeta) (m : CacheMeta)
    (post : List CacheMeta)
    → c.metas ≡ pre ++ m ∷ post
    → All (λ x. x.id ≢ id) pre
    → m.id ≡ id
    → readable c data_size m ≡ true
    → Numbered 0 c.metas c.next_handle
    → unlock_slot (get_slot_to_read_and_lock c id data_size).2 (some m.handle) ≡ some (true, c)
unfolding unlock_slot
unlock-read c id data_size pre m post split first e ok n =
    rw (read_first c id data_size pre m post split first e, ok)
      (ground (arith, unlock_locked m pre post c.next_handle (rw split at n)))

module _ (c : DataCache) (id data_size : ℕ) where
  extents-find :
      (ms : List CacheMeta) → map extent (find_and_lock c id data_size ms).2 ≡ map extent ms
  unfolding find_and_lock
  extents-find [] = refl
  extents-find (m ∷ ms) = ground (arith, extents-find ms)

  Numbered-find :
      (lo : ℕ) (ms : List CacheMeta) (hi : ℕ)
      → Numbered lo ms hi
      → Numbered lo (find_and_lock c id data_size ms).2 hi
  unfolding find_and_lock
  Numbered-find lo [] hi h = h
  Numbered-find lo (m ∷ ms) hi h = ground (arith, h.1, Numbered-find (suc m.handle) ms hi h.1)

pub extents-read :
    (c : DataCache) (id data_size : ℕ)
    → map extent (get_slot_to_read_and_lock c id data_size).2.metas ≡ map extent c.metas
unfolding get_slot_to_read_and_lock
extents-read c id data_size = extents-find c id data_size c.metas

pub extents-unlock :
    (h : ℕ) (ms ms' : List CacheMeta) → unlock_at h ms ≡ some ms' → map extent ms' ≡ map extent ms
unfolding unlock_at
extents-unlock h [] ms' e = cc
extents-unlock h (m ∷ ms) ms' e = elim (Option-cases (unlock_at h ms)) [
  | inl gone ↦ ground arith
  | inr (rest, found) ↦ ground (arith, extents-unlock h ms rest found)
]

pub Numbered-unlock :
    (h lo : ℕ) (ms ms' : List CacheMeta) (hi : ℕ)
    → unlock_at h ms ≡ some ms'
    → Numbered lo ms hi
    → Numbered lo ms' hi
unfolding unlock_at
Numbered-unlock h lo [] ms' hi e n = absurd (cc)
Numbered-unlock h lo (m ∷ ms) ms' hi e n = elim (Option-cases (unlock_at h ms)) [
  | inl gone ↦ ground arith
  | inr (rest, found) ↦ ground (arith, Numbered-unlock h (suc m.handle) ms rest hi found n.1)
]

pub Numbered-read :
    (c : DataCache) (id data_size : ℕ)
    → Numbered 0 c.metas c.next_handle
    → Numbered 0 (get_slot_to_read_and_lock c id data_size).2.metas c.next_handle
unfolding get_slot_to_read_and_lock
Numbered-read c id data_size n = Numbered-find c id data_size 0 c.metas c.next_handle n
