-- ===== src/Common/RequestPool/Wait.antt =====
-- `WaitRequestsFinished` (common/cpp/src/request/request_pool.cpp).
use asapo.Base.{
  ℕ, zero, suc, ◌+◌, ◌*◌, ◌≤◌, ◌<◌, ◌≡◌, ◌≢◌, refl, List, [], ◌∷◌, arith, length, get_elem?, some,
  dec_lt,
}
use asapo.Common.RequestPool.{
  WaitResult, finished, timeout_error, still_waiting, wait_requests_finished,
}

-- What a wait may say after reading `readings`, begun when `elapsed_ms` had passed: that a reading made
-- in time was 0, or that the timeout had passed at a reading that was not.
abbrev pub Justified : ℕ → ℕ → List ℕ → WaitResult → Type 0
Justified timeout_ms elapsed_ms readings finished =
    (i : ℕ) × (get_elem? readings i ≡ some 0) × (elapsed_ms + 100 * i < timeout_ms + 100)
Justified timeout_ms elapsed_ms readings timeout_error =
    (i n : ℕ) × (get_elem? readings i ≡ some (suc n)) × (timeout_ms ≤ elapsed_ms + 100 * i)
Justified timeout_ms elapsed_ms readings still_waiting = ⊥

later :
    (timeout_ms elapsed_ms n : ℕ) (readings : List ℕ) (w : WaitResult)
    → Justified timeout_ms (elapsed_ms + 100) readings w
    → Justified timeout_ms elapsed_ms (n ∷ readings) w
later timeout_ms elapsed_ms n readings finished (i, e, t) = (suc i, e, omega arith)
later timeout_ms elapsed_ms n readings timeout_error (i, k, e, t) = (suc i, k, e, omega arith)
later timeout_ms elapsed_ms n readings still_waiting h = h

wait_cons :
    (timeout_ms elapsed_ms n : ℕ) (readings : List ℕ)
    → n ≢ 0
    → elapsed_ms < timeout_ms
    → wait_requests_finished timeout_ms elapsed_ms (n ∷ readings)
      ≡ wait_requests_finished timeout_ms (elapsed_ms + 100) readings
unfolding wait_requests_finished
wait_cons timeout_ms elapsed_ms n readings p q = ground arith

wait_late :
    (timeout_ms elapsed_ms n : ℕ) (readings : List ℕ)
    → timeout_ms ≤ elapsed_ms
    → wait_requests_finished timeout_ms elapsed_ms (suc n ∷ readings) ≡ timeout_error
unfolding wait_requests_finished
wait_late timeout_ms elapsed_ms n readings q = ground arith

-- With a reading each 100 ms until the timeout the wait ends; it says `finished` only if one of the
-- readings that it made was 0, and `timeout_error` only if the timeout had passed at a reading that
-- was not.
pub wait-Justified :
    (timeout_ms elapsed_ms : ℕ) (readings : List ℕ)
    → elapsed_ms < timeout_ms + 100
    → timeout_ms + 100 ≤ elapsed_ms + 100 * length readings
    → Justified timeout_ms elapsed_ms readings
        (wait_requests_finished timeout_ms elapsed_ms readings)
unfolding wait_requests_finished
wait-Justified timeout_ms elapsed_ms [] e h = absurd (omega arith)
wait-Justified timeout_ms elapsed_ms (zero ∷ readings) e h = (0, refl, omega arith)
wait-Justified timeout_ms elapsed_ms (suc n ∷ readings) e h = elim (dec_lt elapsed_ms timeout_ms) [
  | yes p ↦ rw (wait_cons timeout_ms elapsed_ms (suc n) readings (omega arith) p) (
      later timeout_ms elapsed_ms (suc n) readings _
        (wait-Justified timeout_ms (elapsed_ms + 100) readings (omega arith) (omega arith)))
  | no p ↦ rw (wait_late timeout_ms elapsed_ms n readings (omega arith)) (0, n, refl, omega arith)
]
