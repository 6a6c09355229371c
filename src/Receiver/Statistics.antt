-- ===== src/Receiver/Statistics.antt =====
-- receiver/src/statistics/statistics.cpp and receiver_statistics.cpp: what a receiver counts of its requests, and the
-- reports that it makes of them. Points of time and durations are 64-bit words of nanoseconds, a negative
-- duration the complement; the readings of the clock are arguments. A share of time is left as
-- its two parts, and a report is what each sender is given.
pub mod Accounts
mod Tests
use asapo.Base.{
  ℕ, ◌+◌, ◌-◌, ◌/◌, ◌%◌, ◌^◌, ◌<◌, Bool, true, false, ◌||◌, List, [], ◌∷◌, ◌++◌, map, ltb,
  if◌then◌else◌, Text, add64, sub64,
}

pub data StatisticEntity : Type 0 where
  database disk network : StatisticEntity

pub record TimeCounters : Type 0 where
  pub database_time : ℕ
  pub disk_time : ℕ
  pub network_time : ℕ

pub record StatisticsToSend : Type 0 where
  pub n_requests : ℕ
  pub data_volume : ℕ
  pub elapsed_ms : ℕ
  pub tags : List (Text × Text)
  pub extra_entities : TimeCounters

pub record ReceiverStatistics : Type 0 where
  pub nrequests : ℕ
  pub volume_counter : ℕ
  pub last_timepoint : ℕ
  pub write_interval : ℕ
  pub tags : List (Text × Text)
  pub current_timer_last_timepoint : ℕ
  pub current_statistic_entity : StatisticEntity
  pub time_counters : TimeCounters

-- `duration_cast<milliseconds>` of a signed number of nanoseconds, as an unsigned number.
to_ms : ℕ → ℕ
to_ms ns = if ltb ns (2 ^ 63) then ns / 1000000 else sub64 0 ((2 ^ 64 - ns) / 1000000)

get_total_elapsed_ms : ℕ → ReceiverStatistics → ℕ
unfolding to_ms
get_total_elapsed_ms now s = to_ms (sub64 now s.last_timepoint)

-- With the shares that `ReceiverStatistics` adds to what `Statistics` prepares.
prepare_statistics_to_send : ReceiverStatistics → ℕ → StatisticsToSend
unfolding get_total_elapsed_ms to_ms
prepare_statistics_to_send s now =
    let elapsed = get_total_elapsed_ms now s in
    record {
      n_requests = s.nrequests;
      data_volume = s.volume_counter;
      elapsed_ms = if ltb 1 elapsed then elapsed else 1;
      tags = s.tags;
      extra_entities = record {
        database_time = to_ms s.time_counters.database_time;
        disk_time = to_ms s.time_counters.disk_time;
        network_time = to_ms s.time_counters.network_time;
      };
    }

-- As `ReceiverStatistics` does it, after `Statistics`.
reset_statistics : ℕ → ReceiverStatistics → ReceiverStatistics
reset_statistics now s = record s {
  last_timepoint = now;
  nrequests = 0;
  volume_counter = 0;
  time_counters = record { database_time = 0; disk_time = 0; network_time = 0 };
}

-- One reading of the clock for each sender, and one for the new start.
send : List ℕ → ℕ → ReceiverStatistics → List StatisticsToSend × ReceiverStatistics
unfolding prepare_statistics_to_send reset_statistics
send times now s = (map (prepare_statistics_to_send s) times, reset_statistics now s)

pub send_if_needed :
    Bool → Bool → ℕ → List ℕ → ℕ → ReceiverStatistics → List StatisticsToSend × ReceiverStatistics
unfolding get_total_elapsed_ms send
send_if_needed monitor_performance send_always checked times now s =
    if monitor_performance
    then if send_always || ltb s.write_interval (get_total_elapsed_ms checked s)
      then send times now s
      else ([], s)
    else ([], s)

pub set_write_interval : ℕ → ReceiverStatistics → ReceiverStatistics
set_write_interval interval_ms s = record s { write_interval = interval_ms % 2 ^ 32 }

pub increase_request_counter : ReceiverStatistics → ReceiverStatistics
increase_request_counter s = record s { nrequests = add64 s.nrequests 1 }

pub increase_request_data_volume : ℕ → ReceiverStatistics → ReceiverStatistics
increase_request_data_volume transferred s = record s {
  volume_counter = add64 s.volume_counter transferred;
}

pub add_tag : Text → Text → ReceiverStatistics → ReceiverStatistics
add_tag name value s = record s { tags = s.tags ++ ((name, value) ∷ []) }

pub start_timer : StatisticEntity → ℕ → ReceiverStatistics → ReceiverStatistics
start_timer entity now s = record s {
  current_statistic_entity = entity;
  current_timer_last_timepoint = now;
}

add_time : StatisticEntity → ℕ → TimeCounters → TimeCounters
add_time database elapsed t = record t { database_time = add64 t.database_time elapsed }
add_time disk elapsed t = record t { disk_time = add64 t.disk_time elapsed }
add_time network elapsed t = record t { network_time = add64 t.network_time elapsed }

pub stop_timer : ℕ → ReceiverStatistics → ReceiverStatistics
unfolding add_time
stop_timer now s = record s {
  time_counters =
      add_time s.current_statistic_entity (sub64 now s.current_timer_last_timepoint)
        s.time_counters;
}

-- A call of the interface of `Statistics` and `ReceiverStatistics`, with its readings of the clock.
pub data Call : Type 0 where
  counts : Call
  transfers : ℕ → Call
  reports : Bool → ℕ → List ℕ → ℕ → Call
  tags_with : Text → Text → Call
  sets_interval : ℕ → Call
  starts : StatisticEntity → ℕ → Call
  stops : ℕ → Call

pub call : Bool → Call → ReceiverStatistics → List StatisticsToSend × ReceiverStatistics
unfolding increase_request_counter increase_request_data_volume send_if_needed add_tag
    set_write_interval start_timer stop_timer
call monitor_performance counts s = ([], increase_request_counter s)
call monitor_performance (transfers volume) s = ([], increase_request_data_volume volume s)
call monitor_performance (reports send_always checked times now) s =
    send_if_needed monitor_performance send_always checked times now s
call monitor_performance (tags_with name value) s = ([], add_tag name value s)
call monitor_performance (sets_interval interval_ms) s = ([], set_write_interval interval_ms s)
call monitor_performance (starts entity now) s = ([], start_timer entity now s)
call monitor_performance (stops now) s = ([], stop_timer now s)

-- The reports of all calls, each with what every sender is given.
pub calls :
    Bool → List Call → ReceiverStatistics → List (List StatisticsToSend) × ReceiverStatistics
unfolding call
calls monitor_performance [] s = ([], s)
calls monitor_performance (c ∷ cs) s =
    let (report, s') = call monitor_performance c s in
    let (rest, last) = calls monitor_performance cs s' in (report ∷ rest, last)
