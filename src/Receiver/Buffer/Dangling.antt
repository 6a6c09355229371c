-- ===== src/Receiver/Buffer/Dangling.antt =====
-- What may become of a slot after its data is received, while the request still uses it.
use asapo.Base.{
  ℕ, suc, ◌≡◌, refl, subst, Bool, true, List, [], ◌∷◌, ◌++◌, none, some, length, drop, arith,
}
use asapo.Common.Networking.{GenericRequestHeader}
use asapo.Receiver.Cache.{CacheMeta, DataCache, get_free_slot_and_lock}
use asapo.Receiver.Cache.Alloc.{slot_addr, evicted, new_slot, granted, get_free_some}
use asapo.Receiver.Cache.Locks.{Numbered, get_free-Numbered, unlock_last}
use asapo.Receiver.Cache.Run.{run}
use asapo.Receiver.Buffer.{
  DataBuffer, BufferIo, get_slot_id, id_at, need_receive_data, with_slot, prepare,
  prepare_data_buffer_and_lock_if_needed, interfere, unlock_data_buffer_if_needed, unlock,
  receive_data, receive_process_request, get_data,
}

-- The cache once the data of a request is received: the new slot is last, and nobody has locked it.
abbrev pub received : DataCache → ℕ → ℕ → DataCache
received c size now = record (granted c size now) {
  metas = drop (evicted c size) c.metas ++ record (new_slot c size now) { lock = 0 } ∷ [];
}

abbrev pub buffer : DataBuffer → DataCache → ℕ → ℕ → DataBuffer
buffer b c size now = record b {
  cache = some (received c size now);
  data_ptr = some (slot_addr c size);
  slot_meta = some c.next_handle;
}

drop_all : {A : Type 0} (xs : List A) → drop (length xs) xs ≡ []
drop_all [] = refl
drop_all (x ∷ xs) = drop_all xs

module _ {W : Type 0} (io : BufferIo W) (h : GenericRequestHeader) (now : ℕ) (b : DataBuffer)
    (c : DataCache) (w : W) (numbered : Numbered 0 c.metas c.next_handle)
    (given : get_free_slot_and_lock c h.data_size now
      ≡ (some (slot_addr c h.data_size, c.next_handle), granted c h.data_size now)) where
  -- The buffer while the data is received.
  abbrev prepared : DataBuffer
  prepared = record b {
    cache = some (granted c h.data_size now);
    data_ptr = some (slot_addr c h.data_size);
    slot_meta = some c.next_handle;
  }

  prepares :
      prepare_data_buffer_and_lock_if_needed io h.data_size now (record b { cache = some c }) w
      ≡ ((none, prepared), w)
  unfolding prepare_data_buffer_and_lock_if_needed prepare with_slot
  prepares = rw given refl

  unlocks : unlock_data_buffer_if_needed io prepared ≡ some (buffer b c h.data_size now)
  unfolding unlock_data_buffer_if_needed
  unlocks =
      let n : Numbered 0 (granted c h.data_size now).metas (granted c h.data_size now).next_handle =
        subst (λ x. Numbered 0 (x.1).metas (x.1).next_handle) given
          (get_free-Numbered c h.data_size now numbered) in
      rw
        (unlock_last (granted c h.data_size now) (drop (evicted c h.data_size) c.metas)
          (new_slot c h.data_size now) refl n)
        refl

  receives :
      need_receive_data h ≡ true
      → io.meanwhile (io.receive (some (slot_addr c h.data_size)) h.data_size w).1 ≡ []
      → (io.receive (some (slot_addr c h.data_size)) h.data_size w).0 ≡ true
      → receive_process_request io h now (record b { cache = some c }) w
        ≡ some (
          (none, buffer b c h.data_size now),
          (io.receive (some (slot_addr c h.data_size)) h.data_size w).1,
        )
  unfolding receive_process_request receive_data get_data interfere unlock run
  receives need quiet ok = rw (need, prepares, ok, quiet, unlocks) refl

id-gone : (n : ℕ) (m : CacheMeta) → m.handle ≡ suc n → id_at n (m ∷ []) ≡ none
unfolding id_at
id-gone n m e = ground arith

module _ {W : Type 0} (io : BufferIo W) where
  abbrev pub transferred : GenericRequestHeader → DataCache → W → Bool × W
  transferred h c w = io.receive (some (slot_addr c h.data_size)) h.data_size w

  -- If the data of a request is received into a slot of the cache, and no other thread uses the cache
  -- meanwhile, the handler succeeds and leaves the slot unlocked. If then another request is given a slot
  -- for which all those in the cache are removed, GetSlotId of the first request follows a dangling
  -- pointer.
  pub dangling :
      (h : GenericRequestHeader) (now : ℕ) (b : DataBuffer) (c : DataCache) (w : W) (size later : ℕ)
      (slot second : ℕ × ℕ)
      → Numbered 0 c.metas c.next_handle
      → (get_free_slot_and_lock c h.data_size now).0 ≡ some slot
      → need_receive_data h ≡ true
      → io.meanwhile (transferred h c w).1 ≡ []
      → (transferred h c w).0 ≡ true
      → (get_free_slot_and_lock (received c h.data_size now) size later).0 ≡ some second
      → evicted (received c h.data_size now) size ≡ length (received c h.data_size now).metas
      → (receive_process_request io h now (record b { cache = some c }) w
          ≡ some ((none, buffer b c h.data_size now), (transferred h c w).1))
        × (get_slot_id
              (buffer b c h.data_size now).slot_meta
              (get_free_slot_and_lock (received c h.data_size now) size later).1.metas
            ≡ none)
  unfolding get_slot_id
  dangling h now b c w size later slot second n given need quiet ok again all =
      let c' = received c h.data_size now in
      (
        receives io h now b c w n (get_free_some c h.data_size now slot given) need quiet ok,
        rw (get_free_some c' size later second again, all, drop_all c'.metas)
            (id-gone c.next_handle (new_slot c' size later) refl),
      )
