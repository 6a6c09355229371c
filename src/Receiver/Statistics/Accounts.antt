-- ===== src/Receiver/Statistics/Accounts.antt =====
-- The counts of receiver/src/statistics/statistics.cpp, over the calls of a connection and its reports.
use asapo.Base.{
  ℕ, zero, suc, ◌+◌, ◌^◌, ◌<◌, ◌≡◌, refl, Bool, true, false, List, [], ◌∷◌, map, Option, none, some,
  length, get_elem?, All, if◌then◌else◌, arith, add64_exact,
}
use asapo.Receiver.Statistics.{
  StatisticsToSend, ReceiverStatistics, prepare_statistics_to_send, send, send_if_needed, Call,
  counts, transfers, reports, tags_with, sets_interval, starts, stops, call, calls,
}

abbrev pub requests_in : List Call → ℕ
requests_in [] = 0
requests_in (counts ∷ cs) = suc (requests_in cs)
requests_in (c ∷ cs) = requests_in cs

abbrev pub volume_in : List Call → ℕ
volume_in [] = 0
volume_in (transfers volume ∷ cs) = volume + volume_in cs
volume_in (c ∷ cs) = volume_in cs

-- What this sender is told in a report, if there is one.
abbrev pub requests_told : Option StatisticsToSend → ℕ
requests_told none = 0
requests_told (some r) = r.n_requests

abbrev pub volume_told : Option StatisticsToSend → ℕ
volume_told none = 0
volume_told (some r) = r.data_volume

abbrev pub requests_reported : ℕ → List (List StatisticsToSend) → ℕ
requests_reported k [] = 0
requests_reported k (r ∷ rs) = requests_told (get_elem? r k) + requests_reported k rs

abbrev pub volume_reported : ℕ → List (List StatisticsToSend) → ℕ
volume_reported k [] = 0
volume_reported k (r ∷ rs) = volume_told (get_elem? r k) + volume_reported k rs

-- There is a reading of the clock for this sender.
abbrev pub HasSender : ℕ → Call → Type 0
HasSender k (reports send_always checked times now) = k < length times
HasSender k c = Unit {0}

abbrev pub HasTime : List StatisticsToSend → Type 0
HasTime = All (λ r. 0 < r.elapsed_ms)

told :
    (s : ReceiverStatistics) (times : List ℕ) (k : ℕ)
    → k < length times
    → let r = get_elem? (map (prepare_statistics_to_send s) times) k in
      (requests_told r ≡ s.nrequests) × (volume_told r ≡ s.volume_counter)
unfolding prepare_statistics_to_send
told s [] k h = elim h [ ]
told s (t ∷ ts) zero h = (refl, refl)
told s (t ∷ ts) (suc k) h = told s ts k (omega arith)

map-HasTime :
    (s : ReceiverStatistics) (times : List ℕ) → HasTime (map (prepare_statistics_to_send s) times)
unfolding prepare_statistics_to_send
map-HasTime s [] = tt
map-HasTime s (t ∷ ts) = (ground arith, map-HasTime s ts)

-- What a call reports to a sender and keeps, against what there was and what the call adds.
abbrev Keeps : ℕ → Call → ReceiverStatistics → List StatisticsToSend × ReceiverStatistics → Type 0
Keeps k c s r =
    (requests_told (get_elem? r.0 k) + r.1.nrequests ≡ s.nrequests + requests_in (c ∷ []))
    × ((volume_told (get_elem? r.0 k) + r.1.volume_counter ≡ s.volume_counter + volume_in (c ∷ []))
        × HasTime r.0)

Keeps-send :
    (m needed always : Bool) (checked : ℕ) (times : List ℕ) (now : ℕ) (s : ReceiverStatistics)
    (k : ℕ)
    → k < length times
    → Keeps k
        (reports always checked times now)
        s
        (if m then if needed then send times now s else ([], s) else ([], s))
unfolding send
Keeps-send true true always checked times now s k h =
    let (requests, volume) = told s times k h in
    (omega (arith, requests), (omega (arith, volume), map-HasTime s times))
Keeps-send true false always checked times now s k h = (omega arith, (omega arith, tt))
Keeps-send false needed always checked times now s k h = (omega arith, (omega arith, tt))

Keeps-send_if_needed :
    (m always : Bool) (checked : ℕ) (times : List ℕ) (now : ℕ) (s : ReceiverStatistics) (k : ℕ)
    → k < length times
    → Keeps k (reports always checked times now) s (send_if_needed m always checked times now s)
unfolding send_if_needed
Keeps-send_if_needed m always checked times now s k h =
    Keeps-send m _ always checked times now s k h

Keeps-call :
    (m : Bool) (c : Call) (s : ReceiverStatistics) (k : ℕ)
    → HasSender k c
    → s.nrequests + requests_in (c ∷ []) < 2 ^ 64
    → s.volume_counter + volume_in (c ∷ []) < 2 ^ 64
    → Keeps k c s (call m c s)
unfolding call
Keeps-call m counts s k h small small' =
    (omega (arith, add64_exact s.nrequests 1), (omega arith, tt))
Keeps-call m (transfers v) s k h small small' =
    (omega arith, (omega (arith, add64_exact s.volume_counter v), tt))
Keeps-call m (reports always checked times now) s k h small small' =
    Keeps-send_if_needed m always checked times now s k h
Keeps-call m (tags_with name value) s k h small small' = (omega arith, (omega arith, tt))
Keeps-call m (sets_interval ms) s k h small small' = (omega arith, (omega arith, tt))
Keeps-call m (starts entity now) s k h small small' = (omega arith, (omega arith, tt))
Keeps-call m (stops now) s k h small small' = (omega arith, (omega arith, tt))

in_parts :
    (c : Call) (cs : List Call)
    → (requests_in (c ∷ cs) ≡ requests_in (c ∷ []) + requests_in cs)
      × (volume_in (c ∷ cs) ≡ volume_in (c ∷ []) + volume_in cs)
in_parts counts cs = (omega arith, omega arith)
in_parts (transfers v) cs = (omega arith, omega arith)
in_parts (reports always checked times now) cs = (omega arith, omega arith)
in_parts (tags_with name value) cs = (omega arith, omega arith)
in_parts (sets_interval ms) cs = (omega arith, omega arith)
in_parts (starts entity now) cs = (omega arith, omega arith)
in_parts (stops now) cs = (omega arith, omega arith)

-- Over any calls, while the counts stay below 2^64, what a sender is told of requests and of data in all
-- reports and what is counted since the last report are together what was counted before and by
-- these calls, so that nothing is lost or told twice; and no report has a time of zero, by which
-- the shares of time are divided.
pub calls_lem :
    (monitor_performance : Bool) (cs : List Call) (s : ReceiverStatistics) (k : ℕ)
    → All (HasSender k) cs
    → s.nrequests + requests_in cs < 2 ^ 64
    → s.volume_counter + volume_in cs < 2 ^ 64
    → let r = calls monitor_performance cs s in
      (requests_reported k r.0 + r.1.nrequests ≡ s.nrequests + requests_in cs)
      × ((volume_reported k r.0 + r.1.volume_counter ≡ s.volume_counter + volume_in cs)
          × All HasTime r.0)
unfolding calls
calls_lem m [] s k has small small' = (omega arith, (omega arith, tt))
calls_lem m (c ∷ cs) s k (has, later) small small' =
    let (p, q) = in_parts c cs in
    let (requests, (volume, times)) = Keeps-call m c s k has (omega arith) (omega arith) in
    let (requests', (volume', times')) =
      calls_lem m cs (call m c s).1 k later (omega arith) (omega arith) in
    (omega arith, (omega arith, (times, times')))
