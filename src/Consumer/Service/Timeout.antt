-- ===== src/Consumer/Service/Timeout.antt =====
-- consumer_impl.cpp: `ServiceRequestWithTimeout`.
use asapo.Base.{
  ℕ, suc, ◌*◌, ◌<◌, ◌≤◌, ◌≡◌, ◌≢◌, refl, sym, ◌∙◌, some_inj, ◌⊎◌, inl, inr, Bool, true, false, [],
  ◌∷◌, Option, none, some, State, Option-cases, arith,
}
use asapo.Common.Encoding.{c_string}
use asapo.Consumer.Service.Repeat.{repeat, repeat_lem}
use asapo.Consumer.Service.{
  ServiceIo, RequestInfo, Service, Reply, Text, HttpCode, HttpError, ok, no_content, bad_request,
  unauthorized, ConsumerError, wrong_input, interrupted_transaction, process_request,
  discover_service, process_discover_service_result, is_empty, unavailable_service,
  unsupported_client, local_io_error, simple_error, no_data, end_of_stream, stream_finished,
  partial_data, transfer_error, connection_error, partial_content, conflict, internal_server_error,
  service_unavailable, not_found, unsupported_media_type, other_code, process_request_responce,
  consumer_error_from_http_code, consumer_error_from_partial_data_response,
  consumer_error_from_no_data_response, get_partial_data_response_from_json,
  get_no_data_response_from_json, no_data_error,
}

module _ {W : Type 0} (io : ServiceIo W) where
  abbrev pub stops : Option ConsumerError → Bool
  stops none = true
  stops (some wrong_input) = true
  stops (some err) = false

  -- A round of `ServiceRequestWithTimeout`, once `DiscoverService` has returned.
  unfoldable pub request_to_service :
      RequestInfo → Text → Option ConsumerError × Text → State W (Bool × Reply)
  unfolding process_request
  request_to_service r response (some e, uri) w = ((false, (some e, response, uri)), w)
  request_to_service r response (none, uri) w =
      let (reply, w') = process_request io (record r { host = uri }) uri w in
      ((stops reply.0, reply), w')

  unfoldable pub service_round : Service → RequestInfo → Reply → State W (Bool × Reply)
  unfolding discover_service request_to_service
  service_round service r (err, response, uri) w =
      let (found, w') = discover_service io service uri w in request_to_service r response found w'

  unfoldable pub service_request_with_timeout :
      ℕ → Service → Text → RequestInfo → ℕ → State W (Option Reply)
  unfolding repeat service_round
  service_request_with_timeout timeout_ms service service_uri r fuel w =
      repeat io timeout_ms (λ (err, response, uri). (some interrupted_transaction, response, uri))
        (service_round service r) fuel 0 (none, [], service_uri) (io.clear_interrupt_flag w)

  -- A reply of the service at `uri` to the request.
  abbrev pub Answers : RequestInfo → HttpCode → Text → Text → Type 0
  Answers r code response uri =
      (w : W) × ((io.request (record r { host = uri }) w).0 ≡ (none, code, response))
      × (is_empty uri ≡ false)

  abbrev pub Justified : RequestInfo → Reply → Type 0
  Justified r (none, response, uri) =
      (code : HttpCode) × ((code ≡ ok) ⊎ (code ≡ no_content)) × Answers r code response uri
  Justified r (some wrong_input, response, uri) =
      (code : HttpCode) × ((code ≡ bad_request) ⊎ (code ≡ unauthorized))
      × Answers r code response uri
  Justified r (some err, response, uri) = Unit

  -- An error for which nothing has to be shown.
  other_error :
      (r : RequestInfo) (err : ConsumerError) (response uri : Text)
      → err ≢ wrong_input
      → Justified r (some err, response, uri)
  other_error r wrong_input response uri h = absurd (h refl)
  other_error r interrupted_transaction response uri h = tt
  other_error r unavailable_service response uri h = tt
  other_error r unsupported_client response uri h = tt
  other_error r local_io_error response uri h = tt
  other_error r simple_error response uri h = tt
  other_error r (no_data d) response uri h = tt
  other_error r (end_of_stream d) response uri h = tt
  other_error r (stream_finished d) response uri h = tt
  other_error r (partial_data d) response uri h = tt

  partial_data_lem : (s : Text) → consumer_error_from_partial_data_response io.json s ≢ wrong_input
  unfolding consumer_error_from_partial_data_response
  partial_data_lem s = elim (Option-cases (get_partial_data_response_from_json io.json s)) [
    | inl e ↦ ground arith
    | inr (d, e) ↦ ground arith
  ]

  no_data_lem : (s : Text) → consumer_error_from_no_data_response io.json s ≢ wrong_input
  unfolding consumer_error_from_no_data_response no_data_error
  no_data_lem s = elim (Option-cases (get_no_data_response_from_json io.json s)) [
    | inl e ↦ ground arith
    | inr (d, e) ↦ ground arith
  ]

  -- A service that is found has an address; one that is not is not reported as a wrong input.
  abbrev Found : Option ConsumerError × Text → Type 0
  Found x =
      ((x.0 ≡ none) × (is_empty (x.1) ≡ false))
      ⊎ ((e : ConsumerError) × (x.0 ≡ some e) × (e ≢ wrong_input))

  result-Found :
      (err : Option ConsumerError) (uri : Text) → Found (process_discover_service_result io err uri)
  unfolding process_discover_service_result
  result-Found none [] = inr (unavailable_service, refl, λ p. ground arith)
  result-Found none (c ∷ uri) = inl (refl, refl)
  result-Found (some unsupported_client) uri = inr (unsupported_client, refl, λ p. ground arith)
  result-Found (some wrong_input) uri = inr (unavailable_service, refl, λ p. ground arith)
  result-Found (some interrupted_transaction) uri =
      inr (unavailable_service, refl, λ p. ground arith)
  result-Found (some unavailable_service) uri = inr (unavailable_service, refl, λ p. ground arith)
  result-Found (some local_io_error) uri = inr (unavailable_service, refl, λ p. ground arith)
  result-Found (some simple_error) uri = inr (unavailable_service, refl, λ p. ground arith)
  result-Found (some (no_data d)) uri = inr (unavailable_service, refl, λ p. ground arith)
  result-Found (some (end_of_stream d)) uri = inr (unavailable_service, refl, λ p. ground arith)
  result-Found (some (stream_finished d)) uri = inr (unavailable_service, refl, λ p. ground arith)
  result-Found (some (partial_data d)) uri = inr (unavailable_service, refl, λ p. ground arith)

  discovered :
      (service : Service) (uri : Text) (w : W) → Found ((discover_service io service uri w).0)
  unfolding discover_service
  discovered service [] w = result-Found _ _
  discovered service (c ∷ uri) w = inl (refl, refl)

  reply-Justified :
      (r : RequestInfo) (uri : Text) (w : W)
      → is_empty uri ≡ false
      → (x : Option HttpError × HttpCode × Text) → (io.request (record r { host = uri }) w).0 ≡ x
      → Justified r (
        process_request_responce io.json (x.0) (x.1) (x.2),
        x.2,
        elim x.0 [ none ↦ uri | some e ↦ [] ],
      )
  unfolding process_request_responce consumer_error_from_http_code
  reply-Justified r uri w h (some transfer_error, code, s) e = tt
  reply-Justified r uri w h (some connection_error, code, s) e = tt
  reply-Justified r uri w h (none, ok, s) e = (ok, inl refl, (w, e, h))
  reply-Justified r uri w h (none, no_content, s) e = (no_content, inr refl, (w, e, h))
  reply-Justified r uri w h (none, bad_request, s) e = (bad_request, inl refl, (w, e, h))
  reply-Justified r uri w h (none, unauthorized, s) e = (unauthorized, inr refl, (w, e, h))
  reply-Justified r uri w h (none, partial_content, s) e =
      other_error r _ s uri (partial_data_lem (c_string s))
  reply-Justified r uri w h (none, conflict, s) e = other_error r _ s uri (no_data_lem (c_string s))
  reply-Justified r uri w h (none, internal_server_error, s) e = tt
  reply-Justified r uri w h (none, service_unavailable, s) e = tt
  reply-Justified r uri w h (none, not_found, s) e = tt
  reply-Justified r uri w h (none, unsupported_media_type, s) e = tt
  reply-Justified r uri w h (none, other_code n, s) e = tt

  request-Justified :
      (r : RequestInfo) (response : Text) (x : Option ConsumerError × Text) (w : W)
      → Found x
      → Justified r ((request_to_service r response x w).0.1)
  unfolding request_to_service process_request
  request-Justified r response (none, uri) w (inl (e, h)) = reply-Justified r uri w h _ refl
  request-Justified r response (none, uri) w (inr (d, e, h)) = absurd (ground arith)
  request-Justified r response (some err, uri) w (inl (e, h)) = absurd (ground arith)
  request-Justified r response (some err, uri) w (inr (d, e, h)) =
      other_error r err response uri (λ p. h (sym (some_inj e) ∙ p))

  pub round-Justified :
      (service : Service) (r : RequestInfo) (s : Reply) (w : W)
      → Justified r ((service_round service r s w).0.1)
  unfolding service_round
  round-Justified service r (err, response, uri) w =
      request-Justified r response _ _ (discovered service uri w)

  -- If every round takes 100 ms, a request to a service ends after at most one round more than any number
  -- of rounds that is longer than the timeout. It then reports no error only for a reply with OK or no
  -- content of a service with a known address, and a wrong input only for one with bad request or
  -- unauthorized.
  pub service_request_lem :
      ((w : W) → 100 ≤ (io.sleep w).0)
      → (timeout_ms fuel : ℕ) → timeout_ms < 100 * fuel
      → (service : Service) (service_uri : Text) (r : RequestInfo) (w : W)
      → (reply : Reply) × (w' : W) × (service_request_with_timeout timeout_ms service service_uri r
            (suc fuel)
            w
          ≡ (some reply, w'))
        × Justified r reply
  unfolding service_request_with_timeout
  service_request_lem sleeps timeout_ms fuel f service service_uri r w =
      repeat_lem io timeout_ms
        (λ (err, response, uri). (some interrupted_transaction, response, uri))
        (service_round service r) (Justified r) sleeps (λ s. tt) (round-Justified service r) fuel 0
        _ _ (inl (omega arith)) (omega arith)
