-- ===== src/Common/RequestPool/Accounts.antt =====
-- The pool's two counters (common/cpp/src/request/request_pool.cpp) under any interleaving of callers and
-- threads.
use asapo.Base.{
  ℕ, ◌+◌, ◌%◌, ◌^◌, ◌<◌, ◌≡◌, refl, ap, inl, inr, Bool, true, false, List, [], ◌∷◌, ◌++◌, some,
  arith, length, length-append, add64, sub64, Option-cases,
}
use asapo.Common.RequestPool.{
  GenericRequest, RequestPool, RequestPoolLimits, weight, total_size, add_request, enqueue,
  enqueue_all, can_add_request, can_add_requests, add_requests, push_front_all, request_pool,
  Started, timeout, in_work, thread_round, finish_request, set_limits, stop_threads,
}

-- The pool with the requests that threads work on and those that it has given up as timed out.
pub record World : Type 0 where
  pub pool : RequestPool
  pub running : List GenericRequest
  pub dropped : List GenericRequest

abbrev pub place : World → Started → RequestPool → World
place w (timeout r) p = record w { pool = p; dropped = r ∷ w.dropped }
place w (in_work r) p = record w { pool = p; running = r ∷ w.running }

-- A caller or a thread takes the mutex. A handler may change the request that it works on, but not
-- whether it contains data, nor then its size.
pub data Step : World → World → Type 0 where
  add :
      (w : World) (r : GenericRequest) (top : Bool)
      → Step w (record w { pool = (add_request w.pool r top).1 })
  add_many :
      (w : World) (rs : List GenericRequest)
      → Step w (record w { pool = (add_requests w.pool rs).1 })
  start :
      (w : World) (ready : Bool) (now : ℕ) (s : Started) (p : RequestPool)
      → thread_round w.pool ready now ≡ some (s, p)
      → Step w (place w s p)
  finish :
      (w : World) (pre post : List GenericRequest) (r r' : GenericRequest) (retry : Bool)
      → w.running ≡ pre ++ r ∷ post
      → r'.contains_data ≡ r.contains_data
      → weight r' ≡ weight r
      → r'.data_size < 2 ^ 64
      → Step w (record w { pool = finish_request w.pool r' retry; running = pre ++ post })
  limit : (w : World) (l : RequestPoolLimits) → Step w (record w { pool = set_limits w.pool l })
  stop : (w : World) → Step w (record w { pool = stop_threads w.pool })

pub data Reach (w : World) : World → Type 0 where
  here : Reach w w
  next : {v u : World} → Reach w v → Step v u → Reach w u

pub total-append :
    (xs ys : List GenericRequest) → total_size (xs ++ ys) ≡ total_size xs + total_size ys
unfolding total_size
total-append [] ys = omega arith
total-append (x ∷ xs) ys = omega (arith, total-append xs ys)

total-push :
    (rs q : List GenericRequest) → total_size (push_front_all rs q) ≡ total_size rs + total_size q
unfolding total_size push_front_all
total-push [] q = omega arith
total-push (r ∷ rs) q = omega (arith, total-push rs (r ∷ q))

pub record Accounts (w : World) : Type 0 where
  pub memory :
      w.pool.memory_used
      ≡ (total_size w.pool.request_queue + (total_size w.running + total_size w.dropped)) % 2 ^ 64
  pub in_progress : w.pool.requests_in_progress ≡ length w.running % 2 ^ 64

enqueue-memory :
    (p : RequestPool) (r : GenericRequest) (top : Bool) (rest : ℕ)
    → p.memory_used ≡ (total_size p.request_queue + rest) % 2 ^ 64
    → (enqueue p r top).memory_used ≡ (total_size (enqueue p r top).request_queue + rest) % 2 ^ 64
unfolding enqueue add64 total_size
enqueue-memory p r top rest h = ground (arith, total-append p.request_queue (r ∷ []))

add-Accounts :
    (w : World) (r : GenericRequest) (top : Bool)
    → Accounts w
    → Accounts (record w { pool = (add_request w.pool r top).1 })
unfolding add_request
add-Accounts w r top a = elim (Option-cases (can_add_request w.pool r top)) [
  | inr (e, found) ↦ rw (found, add_request) a
  | inl free ↦
      rw (free, add_request)
        (record {
          memory =
              enqueue-memory w.pool r top (total_size w.running + total_size w.dropped) a.memory;
          in_progress = unfold enqueue in a.in_progress;
        })
]

enqueue_all-memory :
    (p : RequestPool) (rs : List GenericRequest) (rest : ℕ)
    → p.memory_used ≡ (total_size p.request_queue + rest) % 2 ^ 64
    → (enqueue_all p rs).memory_used ≡ (total_size (enqueue_all p rs).request_queue + rest) % 2 ^ 64
unfolding enqueue_all add64
enqueue_all-memory p rs rest h = omega (arith, total-push rs p.request_queue)

start-Accounts :
    (w : World) (ready : Bool) (now : ℕ) (s : Started) (p : RequestPool)
    → thread_round w.pool ready now ≡ some (s, p)
    → Accounts w
    → Accounts (place w s p)
unfolding thread_round add64 total_size
start-Accounts w ready now (timeout r) p e a = record {
  memory = ground arith;
  in_progress = ground arith;
}
start-Accounts w ready now (in_work r) p e a = record {
  memory = ground arith;
  in_progress = ground arith;
}

finish-Accounts :
    (w : World) (pre post : List GenericRequest) (r r' : GenericRequest) (retry : Bool)
    → w.running ≡ pre ++ r ∷ post
    → r'.contains_data ≡ r.contains_data
    → weight r' ≡ weight r
    → r'.data_size < 2 ^ 64
    → Accounts w
    → Accounts (record w { pool = finish_request w.pool r' retry; running = pre ++ post })
unfolding finish_request add64 sub64 total_size
finish-Accounts w pre post r r' true split e v small a = record {
  memory = ground (arith, total-append pre (r ∷ post), total-append pre post, ap total_size split);
  in_progress =
      ground (arith, ap length split, length-append pre (r ∷ post), length-append pre post);
}
finish-Accounts w pre post r r' false split e v small a = record {
  memory = ground (arith, total-append pre (r ∷ post), total-append pre post, ap total_size split);
  in_progress =
      ground (arith, ap length split, length-append pre (r ∷ post), length-append pre post);
}

add_many-Accounts :
    (w : World) (rs : List GenericRequest)
    → Accounts w
    → Accounts (record w { pool = (add_requests w.pool rs).1 })
unfolding add_requests
add_many-Accounts w rs a = elim (Option-cases (can_add_requests w.pool rs)) [
  | inr (e, found) ↦ rw (found, add_requests) a
  | inl free ↦
      rw (free, add_requests)
        (record {
          memory =
              enqueue_all-memory w.pool rs (total_size w.running + total_size w.dropped) a.memory;
          in_progress = unfold enqueue_all in a.in_progress;
        })
]

Step-Accounts : {w v : World} → Step w v → Accounts w → Accounts v
unfolding set_limits stop_threads
Step-Accounts (add w r top) a = add-Accounts w r top a
Step-Accounts (add_many w rs) a = add_many-Accounts w rs a
Step-Accounts (start w ready now s p e) a = start-Accounts w ready now s p e a
Step-Accounts (finish w pre post r r' retry split e v small) a =
    finish-Accounts w pre post r r' retry split e v small a
Step-Accounts (limit w l) a = record { memory = a.memory; in_progress = a.in_progress }
Step-Accounts (stop w) a = record { memory = a.memory; in_progress = a.in_progress }

abbrev pub fresh : World
fresh = record { pool = request_pool; running = []; dropped = [] }

fresh-Accounts : Accounts fresh
unfolding request_pool total_size
fresh-Accounts = record { memory = refl; in_progress = refl }

-- However callers and threads take turns on a new pool, `memory_used_` is the size of the data of the
-- queued requests, of those that threads work on, and of those that it gave up as timed out, and
-- `requests_in_progress_` counts those that threads work on, both modulo 2^64. Handlers are taken to
-- leave a request's `ContainsData()` and counted size as they are.
pub Reach-Accounts : {w : World} → Reach fresh w → Accounts w
Reach-Accounts here = fresh-Accounts
Reach-Accounts (next r s) = Step-Accounts s (Reach-Accounts r)

-- So an idle pool still counts the data of every request that has timed out in its queue.
idle_leak :
    {w : World}
    → Reach fresh w
    → w.pool.request_queue ≡ []
    → w.running ≡ []
    → total_size w.dropped < 2 ^ 64
    → w.pool.memory_used ≡ total_size w.dropped
unfolding total_size
idle_leak {w} reach q r small =
    omega (arith, (Reach-Accounts reach).memory, ap total_size q, ap total_size r)
