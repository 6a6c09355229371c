-- ===== src/Receiver/DataServer.antt =====
-- receiver/src/receiver_data_server: request_handler/receiver_data_server_request_handler.cpp with the
-- sending of net_server/rds_tcp_server.cpp. The server of the receiver's cached data to consumers. The calls
-- of the IO library are functions over the state `W` of the world; calls of other threads on the cache
-- between those of the handler are left out. Versions are numbers.
pub mod Serve
mod Tests
use asapo.Base.{
  ℕ, Bool, true, false, List, [], ◌∷◌, Option, none, some, ltb, ◌==◌, if◌then◌else◌, State, ◌>>=◌,
  pure,
}
use asapo.Common.Networking.{
  Opcode, get_buffer_data, NetworkErrorCode, no_error, wrong_request, not_supported, no_data,
}
use asapo.Receiver.Cache.{
  CacheMeta, DataCache, MetaOut, untouched, null, points_to, get_slot_to_read_and_lock, unlock_slot,
}

-- The fields of the header that the handler reads.
pub record ReceiverDataServerRequest : Type 0 where
  pub op_code : Opcode
  pub data_id : ℕ
  pub data_size : ℕ
  pub api_version : ℕ

-- For the request's socket: sending a response, sending so many bytes of the cache's buffer, closing it;
-- and the counters of the statistics.
pub record RdsIo (W : Type 0) : Type 0 where
  pub send_header : NetworkErrorCode → State W Bool
  pub send_bytes : ℕ → ℕ → State W Bool
  pub close_socket : W → W
  pub count : ℕ → W → W

pub is_get_buffer_data : Opcode → Bool
is_get_buffer_data get_buffer_data = true
is_get_buffer_data _ = false

-- `CheckRequest`: the code of an invalid request.
pub check_request : ℕ → ReceiverDataServerRequest → Option NetworkErrorCode
unfolding is_get_buffer_data
check_request service_version r =
    if is_get_buffer_data r.op_code
    then (if ltb service_version r.api_version then some not_supported else none)
    else some wrong_request

-- `*meta` is null before the call.
pub pointer : MetaOut → Option ℕ
pointer untouched = none
pointer null = none
pointer (points_to h) = some h

-- There is no cache if the receiver is configured without one.
pub get_slot_and_lock : ReceiverDataServerRequest → Option DataCache → Option ℕ × Option DataCache
unfolding pointer
get_slot_and_lock r none = (none, none)
get_slot_and_lock r (some c) =
    let (_, out, c') = get_slot_to_read_and_lock c r.data_id r.data_size in (pointer out, some c')

-- The slot behind a pointer.
pub slot_at : ℕ → List CacheMeta → Option CacheMeta
slot_at h [] = none
slot_at h (m ∷ ms) = let rest = slot_at h ms in if m.handle == h then some m else rest

module _ {W : Type 0} (io : RdsIo W) where
  pub send_response_and_slot_data : CacheMeta → State W Bool
  send_response_and_slot_data m = do
    sent ← io.send_header no_error
    elim sent [ false ↦ pure false | true ↦ io.send_bytes m.addr m.size ]

  pub handle_invalid_request : NetworkErrorCode → W → W
  handle_invalid_request code w = io.close_socket (io.send_header code w).1

  pub handle_valid_request : ReceiverDataServerRequest → CacheMeta → W → W
  handle_valid_request r m w =
      let (sent, w') = send_response_and_slot_data m w in
      if sent then io.count r.data_size w' else io.close_socket w'

  -- The slot's data is sent through the pointer, then the slot is unlocked: a dangling pointer gives no
  -- result.
  pub send_and_unlock : ReceiverDataServerRequest → ℕ → DataCache → W → Option (DataCache × W)
  send_and_unlock r h c w = elim (slot_at h c.metas) [
    | none ↦ none
    | some m ↦ elim (unlock_slot c (some h)) [
      | none ↦ none
      | some (_, c') ↦ some (c', handle_valid_request r m w)
    ]
  ]

  -- `ProcessRequestUnlocked` after `GetSlotAndLock`; it returns true.
  pub with_slot :
      ReceiverDataServerRequest → Option ℕ × Option DataCache → W → Option (Option DataCache × W)
  with_slot r (some h, some c) w = elim (send_and_unlock r h c w) [
    | none ↦ none
    | some (c', w') ↦ some (some c', w')
  ]
  with_slot r (some h, none) w = none
  with_slot r (none, c) w = some (c, (io.send_header no_data w).1)

  -- `ProcessRequestUnlocked`, which never asks for a retry.
  pub process_request_unlocked :
      ℕ → ReceiverDataServerRequest → Option DataCache → W → Option (Option DataCache × W)
  process_request_unlocked service_version r c w = elim (check_request service_version r) [
    | some code ↦ some (c, handle_invalid_request code w)
    | none ↦ with_slot r (get_slot_and_lock r c) w
  ]
