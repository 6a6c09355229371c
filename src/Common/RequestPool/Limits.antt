-- ===== src/Common/RequestPool/Limits.antt =====
-- `AddRequest` and `AddRequests` (common/cpp/src/request/request_pool.cpp): the limits and the order.
use asapo.Base.{
  ℕ, ◌+◌, ◌*◌, ◌^◌, ◌≤◌, ◌<◌, ◌≡◌, ◌≢◌, refl, ◌∙◌, ◌⊎◌, inl, inr, false, List, [], ◌∷◌, ◌++◌, some,
  none, Option, Bool, true, if◌then◌else◌, arith, length, length-append, add64, Option-cases,
  append_assoc, sym, ap,
}
use mathlib.Core.List.{reverse, reverse-cons}
use asapo.Common.RequestPool.{
  GenericRequest, RequestPool, add_request, add_requests, can_add_request, can_add_requests,
  NoSpaceLeft, enqueue, enqueue_all, max_requests_reached, max_memory_reached, push_front_all,
}

-- The pool is below 2^62 requests and bytes, so that no sum wraps.
pub record IsSmall (p : RequestPool) : Type 0 where
  pub requests : length p.request_queue + p.requests_in_progress < 2 ^ 62
  pub memory : p.memory_used < 2 ^ 62
  pub limit : p.limits.max_memory_mb * 1000000 < 2 ^ 62

abbrev pub count : RequestPool → ℕ
count p = length p.request_queue + p.requests_in_progress

-- Why a request is refused, and what holds when it is not.
check_cases :
    (p : RequestPool) (r : GenericRequest)
    → IsSmall p
    → r.data_size < 2 ^ 62
    → ((can_add_request p r false ≡ some max_requests_reached)
        × (0 < p.limits.max_requests)
        × (p.limits.max_requests ≤ count p))
      ⊎ ((can_add_request p r false ≡ some max_memory_reached)
          × (r.contains_data ≡ true)
          × (0 < p.limits.max_memory_mb)
          × (p.limits.max_memory_mb * 1000000 < p.memory_used + r.data_size))
      ⊎ ((can_add_request p r false ≡ none)
          × ((p.limits.max_requests ≡ 0) ⊎ (count p < p.limits.max_requests))
          × ((r.contains_data ≡ false)
              ⊎ (p.limits.max_memory_mb ≡ 0)
              ⊎ (p.memory_used + r.data_size ≤ p.limits.max_memory_mb * 1000000)))
unfolding can_add_request add64
check_cases p r small size = ground arith

enqueue_memory :
    (p : RequestPool) (r : GenericRequest)
    → IsSmall p
    → r.data_size < 2 ^ 62
    → (r.contains_data ≡ false)
      ⊎ (p.limits.max_memory_mb ≡ 0)
      ⊎ (p.memory_used + r.data_size ≤ p.limits.max_memory_mb * 1000000)
    → (r.contains_data ≡ false)
      ⊎ (p.limits.max_memory_mb ≡ 0)
      ⊎ ((enqueue p r false).memory_used ≤ p.limits.max_memory_mb * 1000000)
unfolding enqueue add64
enqueue_memory p r small size h = ground arith

abbrev pub Accepts : RequestPool → GenericRequest → Bool → RequestPool → Type 0
Accepts p r top_priority p' =
    (p'.request_queue ≡ (if top_priority then r ∷ p.request_queue else p.request_queue ++ r ∷ []))
    × (p'.memory_used ≡ (if r.contains_data then p.memory_used + r.data_size else p.memory_used))

enqueue-Accepts :
    (p : RequestPool) (r : GenericRequest) (top_priority : Bool)
    → IsSmall p
    → r.data_size < 2 ^ 62
    → Accepts p r top_priority (enqueue p r top_priority)
unfolding enqueue add64
enqueue-Accepts p r top_priority small size = (refl, ground arith)

-- The ways in which `AddRequest` can answer.
abbrev pub Answers :
    RequestPool
    → GenericRequest
    → Bool
    → Option (NoSpaceLeft × GenericRequest) × RequestPool
    → Type 0
Answers p r top_priority (refused, p') =
    ((top_priority ≡ false)
      × (refused ≡ some (max_requests_reached, r))
      × (p' ≡ p)
      × (0 < p.limits.max_requests)
      × (p.limits.max_requests ≤ count p))
    ⊎ ((top_priority ≡ false)
        × (refused ≡ some (max_memory_reached, r))
        × (p' ≡ p)
        × (r.contains_data ≡ true)
        × (0 < p.limits.max_memory_mb)
        × (p.limits.max_memory_mb * 1000000 < p.memory_used + r.data_size))
    ⊎ ((refused ≡ none)
        × Accepts p r top_priority p'
        × ((top_priority ≡ true)
            ⊎ (((p.limits.max_requests ≡ 0) ⊎ (count p' ≤ p.limits.max_requests))
                × ((r.contains_data ≡ false)
                    ⊎ (p.limits.max_memory_mb ≡ 0)
                    ⊎ (p'.memory_used ≤ p.limits.max_memory_mb * 1000000)))))

-- On a pool below 2^62 requests and bytes, a request of less than 2^62 bytes without top priority is
-- refused, with the request handed back and the pool as it was, only because a limit is set and
-- reached, that of memory only if the request contains data. Otherwise, and always with top priority,
-- it is accepted: it joins the end of the queue, or its front with top priority, and the memory in
-- use grows by its size if it contains data. One accepted without top priority leaves at most
-- `max_requests` requests and, if it contains data, at most `max_memory_mb` megabytes in use, where
-- these limits are set.
pub add_request_lem :
    (p : RequestPool) (r : GenericRequest) (top_priority : Bool)
    → IsSmall p
    → r.data_size < 2 ^ 62
    → Answers p r top_priority (add_request p r top_priority)
unfolding add_request
add_request_lem p r true small size =
    let e : can_add_request p r true ≡ none = unfold can_add_request in refl in
    inr (
      inr
        (rw (e, add_request), rw (e, add_request) (enqueue-Accepts p r true small size), inl refl))
add_request_lem p r false small size = elim (check_cases p r small size) [
  | inl (e, set, full) ↦ inl (refl, rw (e, add_request), rw (e, add_request), set, full)
  | inr (inl (e, has, set, full)) ↦
      inr (inl (refl, rw (e, add_request), rw (e, add_request), has, set, full))
  | inr (inr (e, room, memory)) ↦ inr (
      inr (
        rw (e, add_request),
        rw (e, add_request) (enqueue-Accepts p r false small size),
        inr (
          rw (e, add_request)
              (unfold enqueue in ground (arith, length-append p.request_queue (r ∷ []))),
          rw (e, add_request) (enqueue_memory p r small size memory),
        ),
      ))
]

push_front_all-reverse : (rs q : List GenericRequest) → push_front_all rs q ≡ reverse rs ++ q
unfolding push_front_all
push_front_all-reverse [] q = refl
push_front_all-reverse (r ∷ rs) q =
    push_front_all-reverse rs (r ∷ q)
    ∙ sym (ap (λ l. l ++ q) (reverse-cons r rs) ∙ append_assoc (reverse rs) (r ∷ []) q)

-- A batch is refused whole, with the pool as it was, or it goes whole before all queued requests, its
-- last request first.
add_requests_lem :
    (p : RequestPool) (rs : List GenericRequest)
    → let (refused, p') = add_requests p rs in
      ((refused ≢ none) × (p' ≡ p))
      ⊎ ((refused ≡ none) × (p'.request_queue ≡ reverse rs ++ p.request_queue))
unfolding add_requests
add_requests_lem p rs = elim (Option-cases (can_add_requests p rs)) [
  | inr (e, found) ↦ inl (rw (found, add_requests) (λ x. cc), rw (found, add_requests))
  | inl free ↦ inr (
    rw (free, add_requests),
    rw (free, add_requests) (unfold enqueue_all in push_front_all-reverse rs p.request_queue),
  )
]

-- On a refusal the pool is as before; otherwise the request stands last in the queue.
pub add_request_cases :
    (p : RequestPool) (r : GenericRequest)
    → ((e : NoSpaceLeft) × (add_request p r false ≡ (some (e, r), p)))
      ⊎ (((add_request p r false).0 ≡ none)
          × ((add_request p r false).1.request_queue ≡ p.request_queue ++ r ∷ []))
unfolding add_request enqueue
add_request_cases p r = elim (Option-cases (can_add_request p r false)) [
  | inl e ↦ inr (ground arith, ground arith)
  | inr (x, e) ↦ inl (x, ground arith)
]
