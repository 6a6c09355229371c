-- ===== src/Receiver/Buffer.antt =====
-- receiver/src/request.cpp and request_handler/request_handler_receive_data.cpp: the memory that the data of a
-- request is received into, in the cache if there is one. The calls of the IO library are functions over the
-- state `W` of the world. A `CacheMeta*` is a handle, as in the cache; following a dangling one has no
-- result.
pub mod Dangling
mod Tests
use asapo.Base.{
  ℕ, Bool, true, false, ◌&&◌, List, [], ◌∷◌, Option, none, some, ltb, ◌==◌, if◌then◌else◌, State,
}
use asapo.Common.Networking.{GenericRequestHeader, transfer_data_flag, has_flag}
use asapo.Receiver.Cache.{CacheMeta, DataCache, get_free_slot_and_lock, unlock_slot}
use asapo.Receiver.Cache.Run.{Call, run}

pub data BufferError : Type 0 where
  memory_allocation_error processing_error : BufferError

-- What `Request` has of its buffer, with the cache that it shares with the other requests.
pub record DataBuffer : Type 0 where
  pub cache : Option DataCache
  pub data_ptr : Option ℕ
  pub slot_meta : Option ℕ
  pub data_buffer : Option ℕ

-- `meanwhile` is what other threads have done to the cache while the data was received.
pub record BufferIo (W : Type 0) : Type 0 where
  pub allocate : ℕ → State W Bool
  pub receive : Option ℕ → ℕ → State W Bool
  pub meanwhile : W → List Call

pub get_data : DataBuffer → Option ℕ
get_data b = elim b.cache [ none ↦ b.data_buffer | some c ↦ b.data_ptr ]

pub id_at : ℕ → List CacheMeta → Option ℕ
id_at h [] = none
id_at h (m ∷ ms) = let rest = id_at h ms in if m.handle == h then some m.id else rest

pub get_slot_id : Option ℕ → List CacheMeta → Option ℕ
unfolding id_at
get_slot_id none ms = some 0
get_slot_id (some h) ms = id_at h ms

pub need_receive_data : GenericRequestHeader → Bool
need_receive_data h = ltb 0 h.data_size && has_flag h.ingest_mode transfer_data_flag

-- The slot that the cache has given, if any.
pub with_slot : DataBuffer → Option (ℕ × ℕ) × DataCache → Option BufferError × DataBuffer
with_slot b (none, c) = (some memory_allocation_error, record b { cache = some c; data_ptr = none })
with_slot b (some (addr, h), c) =
    (none, record b { cache = some c; data_ptr = some addr; slot_meta = some h })

module _ {W : Type 0} (io : BufferIo W) where
  -- By whether there is a cache.
  pub prepare : Option DataCache → ℕ → ℕ → DataBuffer → State W (Option BufferError × DataBuffer)
  unfolding with_slot
  prepare none size now b w =
      let (allocated, w') = io.allocate size w in
      (
        if allocated
            then (none, record b { data_buffer = some size })
            else (some memory_allocation_error, b),
        w',
      )
  prepare (some c) size now b w = (with_slot b (get_free_slot_and_lock c size now), w)

  pub prepare_data_buffer_and_lock_if_needed :
      ℕ → ℕ → DataBuffer → State W (Option BufferError × DataBuffer)
  unfolding prepare
  prepare_data_buffer_and_lock_if_needed size now b w = prepare b.cache size now b w

  abbrev pub set_cache : DataBuffer → Option DataCache → Option DataBuffer
  set_cache b none = none
  set_cache b (some c) = some (record b { cache = some c })

  pub interfere : List Call → DataBuffer → Option DataBuffer
  interfere calls b = elim b.cache [ none ↦ some b | some c ↦ set_cache b (run c calls) ]

  abbrev pub unlocked : Option (Bool × DataCache) → Option DataCache
  unlocked none = none
  unlocked (some (ok, c)) = some c

  pub unlock_data_buffer_if_needed : DataBuffer → Option DataBuffer
  unlock_data_buffer_if_needed b = elim b.slot_meta [
    | none ↦ some b
    | some h ↦ elim b.cache [
      | none ↦ some b
      | some c ↦ set_cache b (unlocked (unlock_slot c (some h)))
    ]
  ]

  abbrev pub finished :
      Option BufferError → W → Option DataBuffer → Option ((Option BufferError × DataBuffer) × W)
  finished err w none = none
  finished err w (some b) = some ((err, b), w)

  pub unlock : Option DataBuffer → Option DataBuffer
  unlock none = none
  unlock (some b) = unlock_data_buffer_if_needed b

  -- `ProcessRequest` once the buffer is prepared.
  pub receive_data :
      ℕ → (Option BufferError × DataBuffer) × W → Option ((Option BufferError × DataBuffer) × W)
  receive_data size ((some e, b), w) = some ((some e, b), w)
  receive_data size ((none, b), w) =
      let (received, w') = io.receive (get_data b) size w in
      finished (if received then none else some processing_error) w'
        (unlock (interfere (io.meanwhile w') b))

  pub receive_process_request :
      GenericRequestHeader → ℕ → DataBuffer → W → Option ((Option BufferError × DataBuffer) × W)
  receive_process_request h now b w =
      if need_receive_data h
      then receive_data h.data_size (prepare_data_buffer_and_lock_if_needed h.data_size now b w)
      else some ((none, b), w)
