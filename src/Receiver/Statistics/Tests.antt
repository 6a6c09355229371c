-- ===== src/Receiver/Statistics/Tests.antt =====
-- Two requests are reported together, and the third is counted anew.
use asapo.Base.{◌+◌, ◌≡◌, refl, true, List, [], ◌∷◌, All, arith, add64, sub64}
use asapo.Receiver.Statistics.{
  database, ReceiverStatistics, Call, counts, transfers, reports, starts, stops, calls,
}
use asapo.Receiver.Statistics.Accounts.{requests_reported, volume_reported, HasTime, calls_lem}

abbrev statistics : ReceiverStatistics
statistics = record {
  nrequests = 0;
  volume_counter = 0;
  last_timepoint = 1000;
  write_interval = 10000;
  tags = [];
  current_timer_last_timepoint = 0;
  current_statistic_entity = database;
  time_counters = record { database_time = 0; disk_time = 0; network_time = 0 };
}

abbrev three_requests : List Call
three_requests =
    counts
    ∷ transfers 5
    ∷ starts database 2000
    ∷ stops 3002000
    ∷ counts
    ∷ transfers 7
    ∷ reports true 4001000 (4001000 ∷ []) 4001000
    ∷ counts
    ∷ []

-- The database took three of the four milliseconds.
one_report :
    (calls true three_requests statistics).0
    ≡ []
      ∷ []
      ∷ []
      ∷ []
      ∷ []
      ∷ []
      ∷ (record {
        n_requests = 2;
        data_volume = 12;
        elapsed_ms = 4;
        tags = [];
        extra_entities = record { database_time = 3; disk_time = 0; network_time = 0 };
      }
          ∷ [])
      ∷ []
      ∷ []
unfolding calls add64 sub64
one_report = refl

calls_lem_example :
    (requests_reported 0 (calls true three_requests statistics).0
        + (calls true three_requests statistics).1.nrequests
      ≡ 3)
    × ((volume_reported 0 (calls true three_requests statistics).0
            + (calls true three_requests statistics).1.volume_counter
          ≡ 12)
        × All HasTime (calls true three_requests statistics).0)
calls_lem_example =
    calls_lem true three_requests statistics 0
      (tt, (tt, (tt, (tt, (tt, (tt, (omega arith, (tt, tt)))))))) (omega arith) (omega arith)
