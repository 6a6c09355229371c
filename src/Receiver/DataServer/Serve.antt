-- ===== src/Receiver/DataServer/Serve.antt =====
-- What the data server sends, and what it leaves of the cache
-- (receiver/src/receiver_data_server/request_handler/receiver_data_server_request_handler.cpp).
use asapo.Base.{
  ℕ, ◌<◌, ◌≤◌, ◌≡◌, ◌≢◌, refl, ap, ◌⊎◌, inl, inr, true, false, List, [], ◌∷◌, ◌++◌, none, some,
  arith, All, suc, ◌==◌, Bool-cases, ==_iff, if◌then◌else◌, dec_lt,
}
use asapo.Common.Networking.{
  Opcode, unknown_op, transfer_data, transfer_dataset_data, stream_info, last_stream,
  get_buffer_data, authorize, transfer_meta_data, delete_stream, get_meta, count, NetworkErrorCode,
  no_error, wrong_request, not_supported, no_data,
}
use asapo.Receiver.Cache.{
  CacheMeta, DataCache, untouched, null, points_to, get_slot_to_read_and_lock, unlock_slot,
}
use asapo.Receiver.Cache.Locks.{
  readable, locked_once_more, read_first, read_missing, unlock-read, Numbered, Numbered-before,
  Numbered-swap,
}
use asapo.Receiver.DataServer.{
  ReceiverDataServerRequest, RdsIo, is_get_buffer_data, check_request, pointer, get_slot_and_lock,
  slot_at, handle_valid_request, send_response_and_slot_data, handle_invalid_request,
  send_and_unlock, with_slot, process_request_unlocked,
}

slot_at_first :
    (h lo : ℕ) (m : CacheMeta) (pre post : List CacheMeta) (hi : ℕ)
    → Numbered lo (pre ++ m ∷ post) hi
    → m.handle ≡ h
    → slot_at h (pre ++ m ∷ post) ≡ some m
unfolding slot_at
slot_at_first h lo m [] post hi n e = ground arith
slot_at_first h lo m (x ∷ pre) post hi n e = ground (
  arith,
  slot_at_first h (suc x.handle) m pre post hi n.1 e,
  Numbered-before (suc x.handle) pre m post hi n.1,
)

-- The first slot with an id, if there is one.
abbrev FirstWithId : ℕ → List CacheMeta → Type 0
FirstWithId id ms =
    (pre : List CacheMeta) × (m : CacheMeta) × (post : List CacheMeta) × (ms ≡ pre ++ m ∷ post)
    × All (λ x. x.id ≢ id) pre
    × (m.id ≡ id)

first_cases : (id : ℕ) (ms : List CacheMeta) → All (λ x. x.id ≢ id) ms ⊎ FirstWithId id ms
first_cases id [] = inl tt
first_cases id (m ∷ ms) = elim (Bool-cases (m.id == id)) [
  | inl e ↦ inr ([], m, ms, refl, tt, (==_iff m.id id).0 e)
  | inr e ↦ elim (first_cases id ms) [
    | inl none_of ↦ inl ((λ q. ground arith), none_of)
    | inr (pre, x, post, split, first, same) ↦
        inr (m ∷ pre, x, post, ap (λ t. m ∷ t) split, ((λ q. ground arith), first), same)
  ]
]

is_get : (op : Opcode) → is_get_buffer_data op ≡ true → op ≡ get_buffer_data
unfolding is_get_buffer_data
is_get unknown_op e = ground arith
is_get transfer_data e = ground arith
is_get transfer_dataset_data e = ground arith
is_get stream_info e = ground arith
is_get last_stream e = ground arith
is_get get_buffer_data e = refl
is_get authorize e = ground arith
is_get transfer_meta_data e = ground arith
is_get delete_stream e = ground arith
is_get get_meta e = ground arith
is_get count e = ground arith

is_other : (op : Opcode) → is_get_buffer_data op ≡ false → op ≢ get_buffer_data
unfolding is_get_buffer_data
is_other op e p = let q : is_get_buffer_data op ≡ true = ap is_get_buffer_data p in ground arith

module _ {W : Type 0} (io : RdsIo W) (service_version : ℕ) (r : ReceiverDataServerRequest)
    (c : DataCache) where
  -- What is sent for a slot: the response, then the bytes of the slot, which are counted. If either
  -- fails, the connection is closed.
  abbrev pub after_sending : CacheMeta → W → W
  after_sending m w =
      let (answered, w1) = io.send_header no_error w in
      let (sent, w2) = io.send_bytes m.addr m.size w1 in
      if answered
      then (if sent then io.count r.data_size w2 else io.close_socket w2)
      else io.close_socket w1

  -- A refused request is answered with a code, and the connection is closed.
  abbrev pub after_refusal : NetworkErrorCode → W → W
  after_refusal code w = io.close_socket (io.send_header code w).1

  -- No slot has the id, or the first that has it cannot be read any more.
  abbrev pub Gone : Type 0
  Gone =
      All (λ x. x.id ≢ r.data_id) c.metas
      ⊎ ((slot : FirstWithId r.data_id c.metas) × (readable c r.data_size slot.1 ≡ false))

  -- How a request is answered.
  abbrev pub Answered : W → W → Type 0
  Answered w w' =
      ((r.op_code ≢ get_buffer_data) × (w' ≡ after_refusal wrong_request w))
      ⊎ ((r.op_code ≡ get_buffer_data)
          × (service_version < r.api_version)
          × (w' ≡ after_refusal not_supported w))
      ⊎ ((r.op_code ≡ get_buffer_data)
          × (r.api_version ≤ service_version)
          × ((Gone × (w' ≡ (io.send_header no_data w).1))
              ⊎ ((slot : FirstWithId r.data_id c.metas) × (readable c r.data_size slot.1 ≡ true)
                  × (w' ≡ after_sending slot.1 w))))

  handle-after_sending : (m : CacheMeta) (w : W) → handle_valid_request io r m w ≡ after_sending m w
  unfolding handle_valid_request send_response_and_slot_data
  handle-after_sending m w = ground arith

  sends_and_unlocks :
      (pre : List CacheMeta) (m : CacheMeta) (post : List CacheMeta) (w : W)
      → Numbered 0 (pre ++ m ∷ post) c.next_handle
      → unlock_slot (record c { metas = pre ++ locked_once_more m ∷ post }) (some m.handle)
        ≡ some (true, c)
      → send_and_unlock io r m.handle (record c { metas = pre ++ locked_once_more m ∷ post }) w
        ≡ some (c, handle_valid_request io r m w)
  unfolding send_and_unlock handle_valid_request send_response_and_slot_data
  sends_and_unlocks pre m post w n unlocks =
      let found =
        slot_at_first m.handle 0 (locked_once_more m) pre post c.next_handle
          (Numbered-swap 0 pre m (locked_once_more m) post c.next_handle refl n) refl in
      ground arith

  serves_slot :
      (pre : List CacheMeta) (m : CacheMeta) (post : List CacheMeta) (w : W)
      → check_request service_version r ≡ none
      → c.metas ≡ pre ++ m ∷ post
      → All (λ x. x.id ≢ r.data_id) pre
      → m.id ≡ r.data_id
      → readable c r.data_size m ≡ true
      → Numbered 0 c.metas c.next_handle
      → process_request_unlocked io service_version r (some c) w
        ≡ some (some c, handle_valid_request io r m w)
  unfolding process_request_unlocked get_slot_and_lock pointer with_slot
  serves_slot pre m post w valid split first same ok n =
      let c1 : DataCache = record c { metas = pre ++ locked_once_more m ∷ post } in
      let read : get_slot_to_read_and_lock c r.data_id r.data_size
          ≡ (some m.addr, points_to m.handle, c1) =
        ground (arith, read_first c r.data_id r.data_size pre m post split first same) in
      let unlocks : unlock_slot c1 (some m.handle) ≡ some (true, c) =
        ground (arith, unlock-read c r.data_id r.data_size pre m post split first same ok n) in
      let sent = sends_and_unlocks pre m post w (rw split at n) unlocks in ground arith

  serves_missing :
      (w : W)
      → check_request service_version r ≡ none
      → (get_slot_to_read_and_lock c r.data_id r.data_size ≡ (none, null, c))
        ⊎ (get_slot_to_read_and_lock c r.data_id r.data_size ≡ (none, untouched, c))
      → process_request_unlocked io service_version r (some c) w
        ≡ some (some c, (io.send_header no_data w).1)
  unfolding process_request_unlocked get_slot_and_lock pointer with_slot
  serves_missing w valid (inl gone) = ground arith
  serves_missing w valid (inr gone) = ground arith

  -- A valid request of a supported version, with nothing to check but the slot.
  serves_valid :
      (w : W)
      → check_request service_version r ≡ none
      → Numbered 0 c.metas c.next_handle
      → (w' : W) × (process_request_unlocked io service_version r (some c) w ≡ some (some c, w'))
        × ((Gone × (w' ≡ (io.send_header no_data w).1))
            ⊎ ((slot : FirstWithId r.data_id c.metas) × (readable c r.data_size slot.1 ≡ true)
                × (w' ≡ after_sending slot.1 w)))
  serves_valid w valid n = elim (first_cases r.data_id c.metas) [
    | inl none_of ↦ (
      _,
      serves_missing w valid (inl (read_missing c r.data_id r.data_size none_of)),
      inl (inl none_of, refl),
    )
    | inr (pre, m, post, split, first, same) ↦ elim (Bool-cases (readable c r.data_size m)) [
      | inl ok ↦ (
        _,
        serves_slot pre m post w valid split first same ok n,
        inr ((pre, m, post, split, first, same), ok, handle-after_sending m w),
      )
      | inr ok ↦ (
        _,
        serves_missing w valid
            (inr (ground (arith, read_first c r.data_id r.data_size pre m post split first same))),
        inl (inr ((pre, m, post, split, first, same), ok), refl),
      )
    ]
  ]

  -- Where the slots are numbered in the order in which they were allocated, every request is answered
  -- and the cache is left as it was. A request with another operation code than that for the data of
  -- a buffer, or of a later version than the service's, is refused with the code for it and the
  -- connection is closed. Else the first slot with the id decides: if it can still be read, the
  -- response is sent, then the slot's bytes, which are counted, and the connection is closed if
  -- either fails; if it cannot, or if there is no slot with the id, it is answered that there is no
  -- data.
  pub serves :
      (w : W)
      → Numbered 0 c.metas c.next_handle
      → (w' : W) × (process_request_unlocked io service_version r (some c) w ≡ some (some c, w'))
        × Answered w w'
  unfolding process_request_unlocked handle_invalid_request check_request
  serves w n = elim (Bool-cases (is_get_buffer_data r.op_code)) [
    | inr e ↦ (after_refusal wrong_request w, ground arith, inl (is_other r.op_code e, refl))
    | inl e ↦ elim (dec_lt service_version r.api_version) [
      | yes l ↦
          (after_refusal not_supported w, ground arith, inr (inl (is_get r.op_code e, l, refl)))
      | no l ↦
          let (w', p, a) = serves_valid w (ground arith) n in
          (w', p, inr (inr (is_get r.op_code e, omega arith, a)))
    ]
  ]
