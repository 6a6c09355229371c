-- ===== src/Common/RequestPool.antt =====
-- common/cpp/include/asapo/request/{request.h,request_pool.h} and
-- common/cpp/src/request/request_pool.cpp: the queue of requests and the accounts kept on it.
-- What a thread does under the mutex is one function; what it does unlocked (the handler's work, the
-- wait, the sleep) lies between two of them. `requests_in_progress_` and `memory_used_` are uint64_t.
pub mod Accounts
pub mod Limits
pub mod Wait
mod Tests
use asapo.Base.{
  ℕ, zero, suc, ◌+◌, ◌-◌, ◌*◌, ◌%◌, ◌^◌, Bool, true, false, not, ◌&&◌, ◌||◌, List, [], ◌∷◌, ◌++◌,
  Option, none, some, ltb, leb, ◌==◌, if◌then◌else◌, length, add64, sub64,
}

-- `GenericRequest`. `ident` stands for what the request carries beside the fields that the pool reads;
-- `contains_data` is what the virtual `ContainsData()` returns.
pub record GenericRequest : Type 0 where
  pub ident : ℕ
  pub data_size : ℕ
  pub contains_data : Bool
  pub retry_counter : ℕ
  pub timeout_ms : ℕ
  pub created_at : ℕ

pub timed_out : GenericRequest → ℕ → Bool
timed_out r now = if r.timeout_ms == 0 then false else ltb r.timeout_ms (sub64 now r.created_at)

pub increase_retry_counter : GenericRequest → GenericRequest
increase_retry_counter r = record r { retry_counter = add64 r.retry_counter 1 }

pub record RequestPoolLimits : Type 0 where
  pub max_requests : ℕ
  pub max_memory_mb : ℕ

pub record RequestPool : Type 0 where
  pub quit : Bool
  pub request_queue : List GenericRequest
  pub requests_in_progress : ℕ
  pub memory_used : ℕ
  pub limits : RequestPoolLimits

pub request_pool : RequestPool
request_pool = record {
  quit = false;
  request_queue = [];
  requests_in_progress = 0;
  memory_used = 0;
  limits = record { max_requests = 0; max_memory_mb = 0 };
}

-- The two messages of `IOErrorTemplates::kNoSpaceLeft`.
pub data NoSpaceLeft : Type 0 where
  max_requests_reached max_memory_reached : NoSpaceLeft

pub n_requests_in_pool : RequestPool → ℕ
n_requests_in_pool p = add64 (length p.request_queue) p.requests_in_progress

pub memory_limit : RequestPool → ℕ
memory_limit p = p.limits.max_memory_mb * 1000000 % 2 ^ 64

pub used_memory_in_pool : RequestPool → ℕ
used_memory_in_pool p = p.memory_used

pub set_limits : RequestPool → RequestPoolLimits → RequestPool
set_limits p l = record p { limits = l }

-- What a request adds to `memory_used_`.
abbrev pub weight : GenericRequest → ℕ
weight r = if r.contains_data then r.data_size else 0

pub total_size : List GenericRequest → ℕ
total_size [] = 0
total_size (r ∷ rs) = weight r + total_size rs

pub can_add_requests : RequestPool → List GenericRequest → Option NoSpaceLeft
unfolding n_requests_in_pool memory_limit total_size
can_add_requests p rs =
    if ltb p.limits.max_requests (add64 (n_requests_in_pool p) (length rs))
      && ltb 0 p.limits.max_requests
    then some max_requests_reached
    else (if p.limits.max_memory_mb == 0
        then none
        else (if ltb (memory_limit p) (add64 p.memory_used (total_size rs))
            then some max_memory_reached
            else none))

pub can_add_request : RequestPool → GenericRequest → Bool → Option NoSpaceLeft
unfolding n_requests_in_pool memory_limit
can_add_request p r top_priority =
    if top_priority
    then none
    else (if ltb 0 p.limits.max_requests && leb p.limits.max_requests (n_requests_in_pool p)
        then some max_requests_reached
        else (if not r.contains_data
            then none
            else (if ltb 0 p.limits.max_memory_mb
                  && ltb (memory_limit p) (add64 p.memory_used r.data_size)
                then some max_memory_reached
                else none)))

-- `AddRequest` past its check.
pub enqueue : RequestPool → GenericRequest → Bool → RequestPool
enqueue p r top_priority = record p {
  memory_used = if r.contains_data then add64 p.memory_used r.data_size else p.memory_used;
  request_queue = if top_priority then r ∷ p.request_queue else p.request_queue ++ r ∷ [];
}

-- With an error comes the request, which `OriginalRequest` hands back to the caller.
pub add_request :
    RequestPool → GenericRequest → Bool → Option (NoSpaceLeft × GenericRequest) × RequestPool
add_request p r top_priority = elim (can_add_request p r top_priority) [
  | some e ↦ (some (e, r), p)
  | none ↦ (none, enqueue p r top_priority)
]

-- The loop of `AddRequests`: each element goes to the front.
pub push_front_all : List GenericRequest → List GenericRequest → List GenericRequest
push_front_all [] queue = queue
push_front_all (r ∷ rs) queue = push_front_all rs (r ∷ queue)

-- `AddRequests` past its check.
pub enqueue_all : RequestPool → List GenericRequest → RequestPool
unfolding total_size push_front_all
enqueue_all p rs = record p {
  memory_used = add64 p.memory_used (total_size rs);
  request_queue = push_front_all rs p.request_queue;
}

pub add_requests : RequestPool → List GenericRequest → Option NoSpaceLeft × RequestPool
add_requests p rs = elim (can_add_requests p rs) [
  | some e ↦ (some e, p)
  | none ↦ (none, enqueue_all p rs)
]

-- `CanProcessRequest`; `ready` is what the thread's handler says.
pub can_process_request : RequestPool → Bool → Bool
can_process_request p ready = elim p.request_queue [ [] ↦ false | _ ∷ _ ↦ ready ]

pub get_request_from_queue : RequestPool → Option (GenericRequest × RequestPool)
get_request_from_queue p = elim p.request_queue [
  | [] ↦ none
  | r ∷ rs ↦ some (r, record p { request_queue = rs })
]

pub put_request_back_to_queue : RequestPool → GenericRequest → RequestPool
unfolding increase_retry_counter
put_request_back_to_queue p r = record p {
  request_queue = increase_retry_counter r ∷ p.request_queue;
}

-- What `ProcessRequest` does until it first unlocks the mutex.
pub data Started : Type 0 where
  timeout : GenericRequest → Started
  in_work : GenericRequest → Started

pub start_request : RequestPool → ℕ → Option (Started × RequestPool)
unfolding get_request_from_queue timed_out
start_request p now = elim (get_request_from_queue p) [
  | none ↦ none
  | some (r, p') ↦
      if timed_out r now
      then some (timeout r, p')
      else some (in_work r, record p' { requests_in_progress = add64 p'.requests_in_progress 1 })
]

-- What it does when it has the mutex again; `r` is the request as the handler left it.
pub finish_request : RequestPool → GenericRequest → Bool → RequestPool
unfolding put_request_back_to_queue
finish_request p r retry =
    let p' = record p { requests_in_progress = sub64 p.requests_in_progress 1 } in
    if retry then put_request_back_to_queue p' r else record p' {
      memory_used = if r.contains_data then sub64 p'.memory_used r.data_size else p'.memory_used;
    }

-- One round of `ThreadHandler` after the wait: `do_work` is the result of the wait's predicate.
pub thread_round : RequestPool → Bool → ℕ → Option (Started × RequestPool)
unfolding can_process_request start_request
thread_round p ready now =
    let do_work = can_process_request p ready || p.quit in
    if not p.quit && do_work then start_request p now else none

pub stop_threads : RequestPool → RequestPool
stop_threads p = record p { quit = true }

-- `WaitRequestsFinished`: the readings of `NRequestsInPool` that it makes, one each 100 ms. It ends when
-- the list of readings does.
pub data WaitResult : Type 0 where
  finished timeout_error still_waiting : WaitResult

pub wait_requests_finished : ℕ → ℕ → List ℕ → WaitResult
wait_requests_finished timeout_ms elapsed_ms [] = still_waiting
wait_requests_finished timeout_ms elapsed_ms (n ∷ readings) =
    let rest = wait_requests_finished timeout_ms (elapsed_ms + 100) readings in
    if n == 0 then finished else (if leb timeout_ms elapsed_ms then timeout_error else rest)
