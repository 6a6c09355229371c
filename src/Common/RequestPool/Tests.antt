-- ===== src/Common/RequestPool/Tests.antt =====
-- The theorems about the request pool at concrete inputs.
use asapo.Base.{
  ℕ, ◌+◌, ◌*◌, ◌<◌, ◌≡◌, refl, true, false, List, [], ◌∷◌, some, arith, get_elem?, add64, sub64,
}
use asapo.Common.RequestPool.{
  GenericRequest, RequestPool, request_pool, add_request, can_add_request, enqueue, thread_round,
  can_process_request, start_request, get_request_from_queue, timed_out, timeout,
  n_requests_in_pool, wait_requests_finished,
}
use asapo.Common.RequestPool.Accounts.{
  World, add, start, Reach, here, next, fresh, Accounts, Reach-Accounts,
}
use asapo.Common.RequestPool.Limits.{Answers, add_request_lem}
use asapo.Common.RequestPool.Wait.{wait-Justified}

abbrev request : ℕ → ℕ → GenericRequest
request ident data_size = record {
  ident = ident;
  data_size = data_size;
  contains_data = true;
  retry_counter = 0;
  timeout_ms = 10;
  created_at = 0;
}

abbrev queued : RequestPool
queued = record request_pool { request_queue = request 1 7 ∷ []; memory_used = 7 }

-- A request is added at time 0 and times out in the queue.
abbrev leaky : World
leaky = record {
  pool = record request_pool { memory_used = 7 };
  running = [];
  dropped = request 1 7 ∷ [];
}

add_then_time_out : Reach fresh leaky
unfolding request_pool add_request can_add_request enqueue thread_round can_process_request
    start_request get_request_from_queue timed_out add64 sub64 n_requests_in_pool
add_then_time_out = next (next here (add fresh (request 1 7) false)) (
    start (record { pool = queued; running = []; dropped = [] }) true 11 (timeout (request 1 7))
      (record request_pool { memory_used = 7 }) refl)

Reach-Accounts_example : Accounts leaky
Reach-Accounts_example = Reach-Accounts add_then_time_out

abbrev limited : RequestPool
limited = record {
  quit = false;
  request_queue = request 1 7 ∷ [];
  requests_in_progress = 1;
  memory_used = 7;
  limits = record { max_requests = 3; max_memory_mb = 1 };
}

add_request_lem_example :
    Answers limited (request 2 5) false (add_request limited (request 2 5) false)
add_request_lem_example = add_request_lem limited (request 2 5) false (omega arith) (omega arith)

abbrev readings : List ℕ
readings = 2 ∷ 1 ∷ 0 ∷ []

wait-Justified_example : (i : ℕ) × (get_elem? readings i ≡ some 0) × (0 + 100 * i < 200 + 100)
unfolding wait_requests_finished
wait-Justified_example = wait-Justified 200 0 readings (omega arith) (omega arith)
