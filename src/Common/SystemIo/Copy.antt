-- ===== src/Common/SystemIo/Copy.antt =====
-- A file that is sent arrives (common/cpp/src/system_io/system_io.cpp).
use asapo.Base.{
  ℕ, ◌+◌, ◌≤◌, ◌≡◌, ap, sym, ◌∙◌, Bool, true, List, [], ◌++◌, none, length, length-append,
  append-nil, arith, All,
}
use asapo.Common.SystemIo.{Event, Socket, ended, receive_data_to_file, all_sent, send_file}
use asapo.Common.SystemIo.Receive.{IsReady}
use asapo.Common.SystemIo.File.{file-Written, file_sent, empty_of_length}

-- If neither a call on the socket nor a write fails, a file of the announced size is sent whole, and the
-- receiver of what was sent writes the same file and then stops, whatever pieces it comes in; a round more
-- than there are bytes is enough for both loops.
pub file_copied :
    (can_send can_write : ℕ → Bool)
    → ((n : ℕ) → can_send n ≡ true)
    → ((n : ℕ) → can_write n ≡ true)
    → (size : ℕ) (file : List ℕ) (es : List Event) → length file ≡ size
    → All IsReady es
    → size ≤ length es
    → (send_file can_send size (size + 1) [] file ≡ all_sent file)
      × ((s : Socket) × (receive_data_to_file can_write size
              (size + 1)
              []
              (record { bytes = file; events = es })
            ≡ ended none file s))
file_copied can_send can_write sends writes size file es e ready enough =
    let (file', s, run, all, many) =
      file-Written can_write writes size (size + 1) [] (record { bytes = file; events = es }) ready
        (omega arith) (omega arith) (omega arith) (omega arith) in
    let left =
      empty_of_length s.bytes (omega (arith, length-append file' s.bytes, ap length all)) in
    let same : file' ≡ file = sym (append-nil file') ∙ (ap (λ l. file' ++ l) (sym left) ∙ all) in
    (
      file_sent can_send sends size (size + 1) [] file (omega arith) (omega arith),
      (s, run ∙ ap (λ f. ended none f s) same),
    )
