-- ===== src/Receiver/Cache.antt =====
-- receiver/src/data_cache.h and data_cache.cpp: the ring of data slots that the receiver fills and
-- the data server reads.
-- An address is the offset from `cache_.get()`. A `CacheMeta*` is the number under which the record
-- was allocated. `keep_dist` is `static_cast<uint64_t>(cache_size_ * keepunlocked_ratio_)`, whose
-- single-precision product is not modelled. The clock is an argument.
pub mod Layout
pub mod Alloc
pub mod Ring
pub mod Locks
pub mod Run
pub mod Evict
pub mod Overrun
mod Tests
use asapo.Base.{
  ℕ, suc, ◌+◌, ◌-◌, ◌*◌, ◌%◌, ◌^◌, Bool, true, false, ◌&&◌, ◌||◌, List, [], ◌∷◌, ◌++◌, map, Option,
  none, some, ltb, leb, ◌==◌, if◌then◌else◌, take, drop, add64, sub64,
}

pub record CacheMeta : Type 0 where
  pub id : ℕ
  pub addr : ℕ
  pub size : ℕ
  pub lock : ℕ
  pub handle : ℕ

pub record DataCache : Type 0 where
  pub cache_size : ℕ
  pub keep_dist : ℕ
  pub counter : ℕ
  pub cur_pointer : ℕ
  pub metas : List CacheMeta
  pub next_handle : ℕ

-- The constructor; the counter starts at `rand() % 100 + 1`.
pub data_cache : ℕ → ℕ → ℕ → DataCache
data_cache cache_size keep_dist random = record {
  cache_size = cache_size;
  keep_dist = keep_dist;
  counter = random % 100 + 1;
  cur_pointer = 0;
  metas = [];
  next_handle = 0;
}

-- Position and size of a slot.
abbrev pub extent : CacheMeta → ℕ × ℕ
extent m = (m.addr, m.size)

unfoldable pub intersects : ℕ → ℕ → ℕ → ℕ → Bool
intersects left1 right1 left2 right2 =
    (leb left2 left1 && ltb left1 right2) || (leb right1 right2 && ltb left2 right1)

-- The first loop of `CleanOldSlots`, from slot `i` on. `n_del` is `last_del + 1`.
unfoldable pub scan : ℕ → ℕ → List (ℕ × ℕ) → ℕ → ℕ → Bool → ℕ
scan left right [] i n_del was_intersecting = n_del
scan left right ((start, size) ∷ rest) i n_del was_intersecting =
    let hit = scan left right rest (i + 1) (i + 1) true in
    let miss = scan left right rest (i + 1) n_del was_intersecting in
    if intersects start (add64 start size) left right
    then hit
    else (if ltb 0 left || was_intersecting then n_del else miss)

unfoldable pub any_locked : List CacheMeta → Bool
any_locked [] = false
any_locked (m ∷ ms) = ltb 0 m.lock || any_locked ms

unfoldable pub clean_old_slots : DataCache → ℕ → Bool × DataCache
clean_old_slots c size =
    let n_del = scan (sub64 c.cur_pointer size) c.cur_pointer (map extent c.metas) 0 0 false in
    if any_locked (take n_del c.metas)
    then (false, c)
    else (true, record c { metas = drop n_del c.metas })

unfoldable pub allocate_slot : DataCache → ℕ → Option ℕ × DataCache
unfolding clean_old_slots
allocate_slot c size =
    let addr = if ltb c.cache_size (add64 c.cur_pointer size) then 0 else c.cur_pointer in
    let (cleaned, c') = clean_old_slots (record c { cur_pointer = add64 addr size }) size in
    if cleaned then (some addr, c') else (none, record c' { cur_pointer = c.cur_pointer })

unfoldable pub check_allocation_size : DataCache → ℕ → Bool
check_allocation_size c size = leb size c.cache_size

-- The low 32 bits of the shifted time are 0, so `|` is `+`.
unfoldable pub get_next_id : DataCache → ℕ → ℕ × DataCache
get_next_id c now =
    let counter = (c.counter + 1) % 2 ^ 32 in
    (now * 2 ^ 32 % 2 ^ 64 + counter, record c { counter = counter })

-- The rest of `GetFreeSlotAndLock` once `AllocateSlot` has returned: the address with the pointer
-- that is written to `*meta`; `none` is two null pointers.
unfoldable pub add_slot : ℕ → ℕ → Option ℕ × DataCache → Option (ℕ × ℕ) × DataCache
unfolding get_next_id
add_slot size now (none, c) = (none, c)
add_slot size now (some addr, c) =
    let (id, c') = get_next_id c now in
    let h = c'.next_handle in
    (
      some (addr, h),
      record c' {
        metas = c'.metas ++ record { id = id; addr = addr; size = size; lock = 1; handle = h } ∷ [];
        next_handle = suc h;
      },
    )

unfoldable pub get_free_slot_and_lock : DataCache → ℕ → ℕ → Option (ℕ × ℕ) × DataCache
get_free_slot_and_lock c size now =
    if check_allocation_size c size then add_slot size now (allocate_slot c size) else (none, c)

unfoldable pub slot_too_close_to_current_pointer : DataCache → CacheMeta → Bool
slot_too_close_to_current_pointer c m =
    let shift = m.addr in
    let dist =
      if ltb c.cur_pointer shift
      then sub64 shift c.cur_pointer
      else add64 (sub64 c.cache_size c.cur_pointer) shift in
    ltb dist c.keep_dist

-- What a call does to the caller's `*meta`.
pub data MetaOut : Type 0 where
  untouched null : MetaOut
  points_to : ℕ → MetaOut

-- The loop of `GetSlotToReadAndLock` over the slots: the address, `*meta`, and the slots after it.
pub find_and_lock : DataCache → ℕ → ℕ → List CacheMeta → Option ℕ × MetaOut × List CacheMeta
unfolding slot_too_close_to_current_pointer
find_and_lock c id data_size [] = (none, null, [])
find_and_lock c id data_size (m ∷ ms) =
    let (addr, out, ms') = find_and_lock c id data_size ms in
    if m.id == id
    then (if (if data_size == m.size then slot_too_close_to_current_pointer c m else true)
        then (none, untouched, m ∷ ms)
        else (some m.addr, points_to m.handle, record m { lock = m.lock + 1 } ∷ ms))
    else (addr, out, m ∷ ms')

pub get_slot_to_read_and_lock : DataCache → ℕ → ℕ → Option ℕ × MetaOut × DataCache
unfolding find_and_lock
get_slot_to_read_and_lock c id data_size =
    let (addr, out, ms) = find_and_lock c id data_size c.metas in
    (addr, out, record c { metas = ms })

-- `meta->lock = max(0, meta->lock - 1)` at the record behind the pointer; `none` if it is gone.
pub unlock_at : ℕ → List CacheMeta → Option (List CacheMeta)
unlock_at h [] = none
unlock_at h (m ∷ ms) =
    let rest = unlock_at h ms in
    if m.handle == h
    then some (record m { lock = m.lock - 1 } ∷ ms)
    else elim rest [ none ↦ none | some ms' ↦ some (m ∷ ms') ]

-- A call through a dangling pointer has no result.
pub unlock_slot : DataCache → Option ℕ → Option (Bool × DataCache)
unfolding unlock_at
unlock_slot c none = some (false, c)
unlock_slot c (some h) = elim (unlock_at h c.metas) [
  | none ↦ none
  | some ms ↦ some (true, record c { metas = ms })
]
