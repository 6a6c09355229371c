-- ===== src/Common/SystemIo/Tests.antt =====
-- The theorems about the loops over system calls at concrete files and sockets.
use asapo.Base.{ℕ, ◌+◌, ◌≡◌, refl, true, List, [], ◌∷◌, none, some, arith}
use asapo.Common.SystemIo.{
  Event, ready, failed, resource_temporarily_unavailable, Socket, transfer, receive, ended,
  still_running, receive_data_to_file, all_sent, send_file, returned,
}
use asapo.Common.SystemIo.Copy.{file_copied}
use asapo.Common.SystemIo.Spin.{receive_spins}

abbrev file : List ℕ
file = 5 ∷ 6 ∷ 7 ∷ []

abbrev events : List Event
events = ready 0 ∷ ready 4 ∷ ready 0 ∷ []

file_copied_example :
    (send_file (λ _. true) 3 (3 + 1) [] file ≡ all_sent file)
    × ((s : Socket) × (receive_data_to_file
            (λ _. true)
            3
            (3 + 1)
            []
            (record { bytes = file; events = events })
          ≡ ended none file s))
file_copied_example =
    file_copied (λ _. true) (λ _. true) (λ n. refl) (λ n. refl) 3 file events refl
      (tt, (tt, (tt, tt))) (omega arith)

-- The peer has announced five bytes.
receive_spins_example :
    receive_data_to_file (λ _. true) 5 100 [] (record { bytes = file; events = events })
    ≡ still_running
receive_spins_example =
    receive_spins (λ _. true) (λ n. refl) 5 100 [] (record { bytes = file; events = events })
      (tt, (tt, (tt, tt))) (omega arith)

-- A call that is told to try again is made again.
tries_again :
    receive 2 (record {
      bytes = file;
      events = failed (some resource_temporarily_unavailable) ∷ ready 9 ∷ [];
    })
    ≡ returned (5 ∷ 6 ∷ []) none (record { bytes = 7 ∷ []; events = [] })
unfolding receive transfer
tries_again = refl
