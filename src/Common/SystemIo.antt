-- ===== src/Common/SystemIo.antt =====
-- common/cpp/src/system_io/system_io.cpp: the loops over system calls. A socket is the list of the bytes that
-- its peer has sent before closing it, with the events that the calls on it meet, one for each call; where
-- they run out, the code is still waiting. Opening and closing of files is left out.
pub mod Receive
pub mod File
pub mod Spin
pub mod Copy
mod Tests
use asapo.Base.{
  ℕ, zero, suc, ◌+◌, ◌-◌, ◌*◌, Bool, true, false, List, [], ◌∷◌, ◌++◌, Option, none, some, length,
  take, drop, leb, ◌==◌, ◌||◌, if◌then◌else◌,
}

pub data Errno : Type 0 where
  resource_temporarily_unavailable other_errno : Errno

pub data IoError : Type 0 where
  end_of_file unknown_io_error : IoError
  system_error : Errno → IoError

-- At a call there are `k + 1` bytes or the end, or the call fails with an error, or with none that is known.
pub data Event : Type 0 where
  ready : ℕ → Event
  failed : Option Errno → Event

pub record Socket : Type 0 where
  pub bytes : List ℕ
  pub events : List Event

abbrev pub min : ℕ → ℕ → ℕ
min a b = if leb a b then a else b

abbrev pub max_transfer_chunk_size : ℕ
max_transfer_chunk_size = 2147483648

abbrev pub read_write_buf_size : ℕ
read_write_buf_size = 52428800

-- What `Transfer` gives: the bytes in the buffer, the error, and the socket.
pub data Transferred : Type 0 where
  waiting : Transferred
  returned : List ℕ → Option IoError → Socket → Transferred

-- `Transfer` with `recv`, for `size` bytes; `got` is what is in the buffer.
pub transfer : ℕ → List ℕ → List ℕ → List Event → Transferred
transfer size got bytes [] =
    if leb size (length got)
    then returned got none (record { bytes = bytes; events = [] })
    else waiting
transfer size got bytes (e ∷ es) =
    let stop = λ (err : Option IoError). returned got err (record { bytes = bytes; events = es }) in
    if leb size (length got)
    then returned got none (record { bytes = bytes; events = e ∷ es })
    else elim e [
      | ready k ↦
          let n = min (k + 1) (min max_transfer_chunk_size (size - length got)) in
          elim bytes [
            | [] ↦ stop (some end_of_file)
            | b ∷ bs ↦ transfer size (got ++ take n (b ∷ bs)) (drop n (b ∷ bs)) es
          ]
      | failed none ↦ stop (some unknown_io_error)
      | failed (some resource_temporarily_unavailable) ↦ transfer size got bytes es
      | failed (some other_errno) ↦ stop (some (system_error other_errno))
    ]

pub receive : ℕ → Socket → Transferred
unfolding transfer
receive size s = transfer size [] s.bytes s.events

pub data FileResult : Type 0 where
  still_running : FileResult
  ended : Option IoError → List ℕ → Socket → FileResult

-- The loop of `ReceiveDataFileResult`, with fuel for its rounds; `file` is what is written, and `can_write` says
-- whether the bytes after those can be; nothing is no write.
module _ (can_write : ℕ → Bool) (size : ℕ) where
  -- After `Receive`: the end of the bytes is no error here.
  pub write_received : (List ℕ → Socket → FileResult) → List ℕ → Transferred → FileResult
  write_received next file waiting = still_running
  write_received next file (returned got none s) =
      if length got == 0 || can_write (length file)
      then next (file ++ got) s
      else ended (some (system_error other_errno)) file s
  write_received next file (returned got (some end_of_file) s) =
      if length got == 0 || can_write (length file)
      then next (file ++ got) s
      else ended (some (system_error other_errno)) file s
  write_received next file (returned got (some e) s) = ended (some e) file s

  pub receive_data_to_file : ℕ → List ℕ → Socket → FileResult
  unfolding receive write_received
  receive_data_to_file zero file s = still_running
  receive_data_to_file (suc fuel) file s =
      let round =
        write_received (receive_data_to_file fuel) file
          (receive (min (min size read_write_buf_size) (size - length file)) s) in
      if leb size (length file) then ended none file s else round

-- The loop of `SendFile`: each round reads a buffer of the file, where the end is no error, and sends what
-- it has read; `sent` is what is sent, and `can_send` says whether more can be.
pub data Sent : Type 0 where
  still_sending : Sent
  all_sent : List ℕ → Sent
  send_failed : List ℕ → Sent

pub send_file : (ℕ → Bool) → ℕ → ℕ → List ℕ → List ℕ → Sent
send_file can_send size zero sent file = still_sending
send_file can_send size (suc fuel) sent file =
    let n = min size read_write_buf_size in
    let next = send_file can_send size fuel (sent ++ take n file) (drop n file) in
    if leb size (length sent)
    then all_sent sent
    else if length (take n file) == 0 || can_send (length sent)
    then next
    else send_failed sent
