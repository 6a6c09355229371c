-- ===== src/Common/SystemIo/Spin.antt =====
-- A peer that closes too early (common/cpp/src/system_io/system_io.cpp).
use asapo.Base.{
  ℕ, zero, suc, ◌+◌, ◌-◌, ◌<◌, ◌≡◌, refl, ap, sym, ◌∙◌, Bool, true, List, [], ◌++◌, none, some,
  length, length-append, arith, All,
}
use asapo.Common.SystemIo.{
  end_of_file, unknown_io_error, system_error, Socket, min, read_write_buf_size, Transferred,
  waiting, returned, transfer, receive, FileResult, still_running, write_received,
  receive_data_to_file,
}
use asapo.Common.SystemIo.Receive.{Received, transfer-Received, IsReady, Calm, transfer-Calm}

-- A receipt from which the loop goes on with no more bytes than there were.
abbrev GoesOn : ℕ → Transferred → Type 0
GoesOn total waiting = Unit
GoesOn total (returned got none s) = All IsReady s.events × (length got + length s.bytes ≡ total)
GoesOn total (returned got (some end_of_file) s) =
    All IsReady s.events × (length got + length s.bytes ≡ total)
GoesOn total (returned got (some e) s) = ⊥

goes_on :
    (size : ℕ) (all : List ℕ) (t : Transferred)
    → Calm t
    → Received size all t
    → GoesOn (length all) t
goes_on size all waiting c r = tt
goes_on size all (returned got none s) c r = (c, sym (length-append got s.bytes) ∙ ap length r.0)
goes_on size all (returned got (some end_of_file) s) c r =
    (c, omega (arith, ap length r.0, ap length r.1))
goes_on size all (returned got (some unknown_io_error) s) c r = c
goes_on size all (returned got (some (system_error e)) s) c r = c

receive-GoesOn :
    (size : ℕ) (s : Socket) → All IsReady s.events → GoesOn (length s.bytes) (receive size s)
unfolding receive
receive-GoesOn size s r =
    goes_on size s.bytes (transfer size [] s.bytes s.events)
      (transfer-Calm size [] s.bytes s.events r)
      (transfer-Received size [] s.bytes s.events (omega arith))

module _ (can_write : ℕ → Bool) (writes : (n : ℕ) → can_write n ≡ true) (size : ℕ) where
  round_spins :
      (next : List ℕ → Socket → FileResult) (file : List ℕ) (total : ℕ) (t : Transferred)
      → length file + total < size
      → GoesOn total t
      → ((file' : List ℕ) (s : Socket)
          → All IsReady s.events
          → length file' + length s.bytes < size
          → next file' s ≡ still_running)
      → write_received can_write size next file t ≡ still_running
  unfolding write_received
  round_spins next file total waiting h g ih = refl
  round_spins next file total (returned got none s) h g ih =
      let ok = writes (length file) in
      let again = ih (file ++ got) s g.0 (omega (arith, length-append file got, g.1)) in
      ground arith
  round_spins next file total (returned got (some end_of_file) s) h g ih =
      let ok = writes (length file) in
      let again = ih (file ++ got) s g.0 (omega (arith, length-append file got, g.1)) in
      ground arith
  round_spins next file total (returned got (some unknown_io_error) s) h g ih = absurd g
  round_spins next file total (returned got (some (system_error e)) s) h g ih = absurd g

  -- If the peer closes the socket before the announced size, and no call fails, the receiver of a file
  -- never ends, however many rounds it makes and however many calls find the end.
  pub receive_spins :
      (fuel : ℕ) (file : List ℕ) (s : Socket)
      → All IsReady s.events
      → length file + length s.bytes < size
      → receive_data_to_file can_write size fuel file s ≡ still_running
  unfolding receive_data_to_file
  receive_spins zero file s r h = refl
  receive_spins (suc fuel) file s r h =
      let n = min (min size read_write_buf_size) (size - length file) in
      let round =
        round_spins (receive_data_to_file can_write size fuel) file (length s.bytes) (receive n s) h
          (receive-GoesOn n s r) (receive_spins fuel) in
      ground arith
