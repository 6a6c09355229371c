-- ===== src/Receiver/Connection/Listen.antt =====
-- Which rounds the loop of a connection makes.
use asapo.Base.{
  ℕ, zero, suc, ◌<◌, ◌≡◌, ◌↔◌, refl, sym, ap, ◌∙◌, subst, ◌⊎◌, inl, inr, Bool, true, false, List,
  map, Option, none, some, arith, some_inj, if◌then◌else◌,
}
use asapo.Common.Networking.{GenericRequestHeader}
use asapo.Receiver.Factory.{
  Handler, Generated, FactoryError, handlers, refused, add_handlers_to_request,
}
use asapo.Receiver.Request.{
  ReceiverError, Request, handle, create_response_to_request, process_request, processing_error,
}
use asapo.Receiver.Connection.{
  ConnectionIo, new_request, after_request, serve, after_header, listen_round, listen,
}

module _ {W : Type 0} (io : ConnectionIo W) where
  abbrev handling : GenericRequestHeader → List Handler → W → (Option ReceiverError × Request) × W
  handling h hs w = handle (map (io.step h) hs) new_request w

  -- A request of known kind is received, and its handlers leave an error or none.
  abbrev pub Handled : W → Option ReceiverError → GenericRequestHeader → Request → W → Type 0
  Handled w err h r w' =
      (hs : List Handler) × (after : W) × (io.receive_header w ≡ (some h, after))
      × (add_handlers_to_request io.threshold_mb h ≡ handlers hs)
      × (handling h hs after ≡ ((err, r), w'))

  -- A round after which there is a next one: all handlers succeed, and the producer gets its response.
  abbrev pub Answered : W → W → Type 0
  Answered w w' =
      (h : GenericRequestHeader) × (r : Request) × (handled sent : W) × Handled w none h r handled
      × (io.send_response (create_response_to_request r none) handled ≡ (true, sent))
      × (w' ≡ io.count_request h.data_size sent)

  abbrev pub Serves : ℕ → W → W → Type 0
  Serves zero w w' = w ≡ w'
  Serves (suc n) w w' = (next : W) × Answered w next × Serves n next w'

  -- The last round: no request is received; or one that the factory refuses, and nothing is sent; or a
  -- handler fails, and the response says so, sent or not; or the response to a success cannot be sent.
  abbrev pub Stops : W → W → Type 0
  Stops w w' =
      (io.receive_header w ≡ (none, w'))
      ⊎ (((h : GenericRequestHeader) × (e : FactoryError) × (io.receive_header w ≡ (some h, w'))
            × (add_handlers_to_request io.threshold_mb h ≡ refused e))
          ⊎ (((h : GenericRequestHeader) × (r : Request) × (handled : W) × (e : ReceiverError)
                × Handled w (some e) h r handled
                × (w' ≡ (io.send_response (create_response_to_request r (some e)) handled).1))
              ⊎ ((h : GenericRequestHeader) × (r : Request) × (handled : W) × Handled w none h r
                    handled
                  × (io.send_response (create_response_to_request r none) handled ≡ (false, w')))))

  abbrev Round : W → Bool × W → Type 0
  Round w (true, w') = Answered w w'
  Round w (false, w') = Stops w w'

  module _ (w : W) (h : GenericRequestHeader) (r : Request) (handled : W) where
    -- The rounds in which handlers run.
    fails :
        (err : ReceiverError)
        → Handled w (some err) h r handled
        → listen_round io w
          ≡ (false, (io.send_response (create_response_to_request r (some err)) handled).1)
    unfolding listen_round after_header serve process_request after_request
    fails err (hs, after, e, f, g) = rw (e, f, g) refl

    responds :
        (hs : List Handler) (after : W) (sent : Bool × W)
        → handling h hs after ≡ ((none, r), handled)
        → io.send_response (create_response_to_request r none) handled ≡ sent
        → process_request io.send_response (map (io.step h) hs) new_request after
          ≡ (if sent.0 then none else some processing_error, sent.1)
    unfolding process_request
    responds hs after sent g t =
        ap
          (λ ((err, r'), w').
            (let (sent', w'') = io.send_response (create_response_to_request r' err) w' in
              (
                elim err [ some e ↦ some e | none ↦ if sent' then none else some processing_error ],
                w'',
              )))
          g
        ∙ ap (λ x. (if x.0 then none else some processing_error, x.1)) t

    answers :
        (sent : W)
        → Handled w none h r handled
        → io.send_response (create_response_to_request r none) handled ≡ (true, sent)
        → listen_round io w ≡ (true, io.count_request h.data_size sent)
    unfolding listen_round after_header serve after_request
    answers sent (hs, after, e, f, g) t = rw (e, f, responds hs after (true, sent) g t) refl

    not_sent :
        (sent : W)
        → Handled w none h r handled
        → io.send_response (create_response_to_request r none) handled ≡ (false, sent)
        → listen_round io w ≡ (false, sent)
    unfolding listen_round after_header serve after_request
    not_sent sent (hs, after, e, f, g) t = rw (e, f, responds hs after (false, sent) g t) refl

  answered_lem : (w w' : W) → Answered w w' → listen_round io w ≡ (true, w')
  answered_lem w w' (h, r, handled, sent, k, t, e) =
      answers w h r handled sent k t ∙ ap (λ x. (true, x)) (sym e)

  stops_lem : (w w' : W) → Stops w w' → listen_round io w ≡ (false, w')
  unfolding listen_round after_header serve
  stops_lem w w' (inl e) = rw e refl
  stops_lem w w' (inr (inl (h, e, p, q))) = rw (p, q) refl
  stops_lem w w' (inr (inr (inl (h, r, handled, e, k, q)))) =
      fails w h r handled e k ∙ ap (λ x. (false, x)) (sym q)
  stops_lem w w' (inr (inr (inr (h, r, handled, k, t)))) = not_sent w h r handled w' k t

  sent-Round :
      (w : W) (h : GenericRequestHeader) (r : Request) (handled : W)
      → Handled w none h r handled
      → (x : Bool × W) → io.send_response (create_response_to_request r none) handled ≡ x
      → Round w (listen_round io w)
  sent-Round w h r handled k (true, sent) t =
      rw (answers w h r handled sent k t) (h, r, handled, sent, k, t, refl)
  sent-Round w h r handled k (false, sent) t =
      rw (not_sent w h r handled sent k t) (inr (inr (inr (h, r, handled, k, t))))

  handled-Round :
      (w : W) (h : GenericRequestHeader) (hs : List Handler) (after : W)
      → io.receive_header w ≡ (some h, after)
      → add_handlers_to_request io.threshold_mb h ≡ handlers hs
      → (x : (Option ReceiverError × Request) × W) → handling h hs after ≡ x
      → Round w (listen_round io w)
  handled-Round w h hs after e f ((some err, r), handled) g =
      let k : Handled w (some err) h r handled = (hs, after, e, f, g) in
      rw (fails w h r handled err k) (inr (inr (inl (h, r, handled, err, k, refl))))
  handled-Round w h hs after e f ((none, r), handled) g =
      sent-Round w h r handled (hs, after, e, f, g) _ refl

  generated-Round :
      (w : W) (h : GenericRequestHeader) (after : W)
      → io.receive_header w ≡ (some h, after)
      → (x : Generated) → add_handlers_to_request io.threshold_mb h ≡ x
      → Round w (listen_round io w)
  generated-Round w h after e (refused err) f =
      let s : Stops w after = inr (inl (h, err, e, f)) in rw (stops_lem w after s) s
  generated-Round w h after e (handlers hs) f = handled-Round w h hs after e f _ refl

  received-Round :
      (w : W) (x : Option GenericRequestHeader × W)
      → io.receive_header w ≡ x
      → Round w (listen_round io w)
  received-Round w (none, after) e = let s : Stops w after = inl e in rw (stops_lem w after s) s
  received-Round w (some h, after) e = generated-Round w h after e _ refl

  -- What the loop has done when it has ended.
  abbrev pub Ends : ℕ → W → W → Type 0
  Ends fuel w w' =
      (n : ℕ) × (last final : W) × (n < fuel)
      × Serves n w last
      × Stops last final
      × (w' ≡ io.send_statistics (io.close_socket final))

  listen_stops :
      (fuel : ℕ) (w final : W)
      → listen_round io w ≡ (false, final)
      → listen io (suc fuel) w ≡ some (io.send_statistics (io.close_socket final))
  unfolding listen
  listen_stops fuel w final e = ground arith

  listen_goes_on :
      (fuel : ℕ) (w next : W)
      → listen_round io w ≡ (true, next)
      → listen io (suc fuel) w ≡ listen io fuel next
  unfolding listen
  listen_goes_on fuel w next e = ground arith

  Ends-listen :
      (n fuel : ℕ) (w last final : W)
      → n < fuel
      → Serves n w last
      → Stops last final
      → listen io fuel w ≡ some (io.send_statistics (io.close_socket final))
  unfolding listen
  Ends-listen n zero w last final l s t = absurd (omega arith)
  Ends-listen zero (suc fuel) w last final l s t =
      subst (λ x. listen io (suc fuel) x ≡ some (io.send_statistics (io.close_socket final)))
        (sym s) (listen_stops fuel last final (stops_lem last final t))
  Ends-listen (suc n) (suc fuel) w last final l (next, a, s) t =
      listen_goes_on fuel w next (answered_lem w next a)
      ∙ Ends-listen n fuel next last final (omega arith) s t

  continues :
      (fuel : ℕ) (w w' : W) (x : Bool × W)
      → listen_round io w ≡ x
      → Round w x
      → ((next : W) → listen io fuel next ≡ some w' → Ends fuel next w')
      → listen io (suc fuel) w ≡ some w'
      → Ends (suc fuel) w w'
  unfolding listen
  continues fuel w w' (true, next) e a rest l =
      let (n, last, final, b, s, t, q) = rest next (sym (listen_goes_on fuel w next e) ∙ l) in
      (suc n, last, final, omega arith, (next, a, s), t, q)
  continues fuel w w' (false, next) e t rest l =
      (0, w, next, omega arith, refl, t, some_inj (sym l ∙ listen_stops fuel w next e))

  listen-Ends : (fuel : ℕ) (w w' : W) → listen io fuel w ≡ some w' → Ends fuel w w'
  unfolding listen
  listen-Ends zero w w' l = absurd (cc)
  listen-Ends (suc fuel) w w' l =
      continues fuel w w' _ refl (received-Round w _ refl) (λ next k. listen-Ends fuel next w' k) l

  -- The loop of a connection ends within so many rounds and with this world exactly if it first makes fewer
  -- rounds in each of which a request of a known kind is received, all its handlers succeed, the producer
  -- gets the response and the request is counted; then one in which no request is received, or the factory
  -- refuses it and nothing is sent, or a handler fails and the response is tried, or the response to a
  -- success cannot be sent; and then closes the socket, once, and sends the statistics.
  pub listen_lem : (fuel : ℕ) (w w' : W) → (listen io fuel w ≡ some w') ↔ Ends fuel w w'
  listen_lem fuel w w' = (
    listen-Ends fuel w w',
    λ (n, last, final, b, s, t, q). Ends-listen n fuel w last final b s t ∙ ap some (sym q),
  )
