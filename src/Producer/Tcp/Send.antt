-- ===== src/Producer/Tcp/Send.antt =====
-- What `ProcessRequestUnlocked` (producer/api/cpp/src/request_handler_tcp.cpp) can end with.
use asapo.Base.{
  ℕ, ◌≡◌, ◌≢◌, refl, sym, ◌⊎◌, inl, inr, Bool, true, false, not, List, [], ◌∷◌, Option, none, some,
  arith, Bool-cases, if◌then◌else◌, Option-cases, State,
}
use asapo.Producer.Request.{ProducerRequest}
use asapo.Producer.Tcp.{
  Outcome, answered, put_back, failed, server_error, immediate_callback_after_error,
  try_send_to_receiver, process_error_from_receiver, send_connected, send_if_connected,
  after_connect, send_to_receiver, next_receiver, process_sized, send_to_one_of,
  update_data_size_from_file_if_needed, process_request_unlocked,
}
use asapo.Producer.Tcp.Connection.{
  ProducerError, local_io_error, Io, RequestHandlerTcp, disconnect, connect_to_receiver,
}
use asapo.Producer.Tcp.Receivers.{
  rebalance_if_needed, need_rebalance, update_receivers_list, close_connection_to_perform_rebalance,
}

server-not_failed : (err : Option ProducerError) → server_error err ≡ true → failed err ≡ false → ⊥
unfolding server_error failed
server-not_failed err s f = ground arith

immediate_failed :
    (err : Option ProducerError)
    → immediate_callback_after_error err ≡ true
    → (failed err ≡ true) × (server_error err ≡ false)
unfolding immediate_callback_after_error failed server_error
immediate_failed err h = ground arith

module _ {W : Type 0} (io : Io W) where
  disconnect-sd : (h : RequestHandlerTcp) (w : W) → (disconnect io h w).0.sd ≡ none
  unfolding disconnect
  disconnect-sd h w = ground arith

  process_error_cases :
      (err : Option ProducerError) (h : RequestHandlerTcp) (w : W)
      → let (again, h') = (process_error_from_receiver io err h w).0 in
        (again ≡ server_error err)
        × (((failed err ≡ true) × (h'.sd ≡ none)) ⊎ ((failed err ≡ false) × (h' ≡ h)))
  unfolding process_error_from_receiver
  process_error_cases err h w = ground (arith, disconnect-sd h w)

  -- The caller is answered, with an error only if a retry would not help; then the connection is closed.
  -- Without an error, or with a warning, it is kept.
  abbrev pub Answers : ProducerRequest → Outcome → RequestHandlerTcp → Type 0
  Answers r o h =
      (err : Option ProducerError) × (response : Option ℕ) × (o
        ≡ answered r err response (not (failed err)))
      × (server_error err ≡ false)
      × (((failed err ≡ true) × (h.sd ≡ none)) ⊎ ((failed err ≡ false) × (h.sd ≢ none)))

  abbrev pub GoesOn : ProducerRequest → Option Outcome × RequestHandlerTcp → Type 0
  GoesOn r (none, h) = h.sd ≡ none
  GoesOn r (some o, h) = Answers r o h

  goes_on :
      (r : ProducerRequest) (err : Option ProducerError) (response : Option ℕ)
      (h h' : RequestHandlerTcp) (again : Bool)
      → again ≡ server_error err
      → h.sd ≢ none
      → ((failed err ≡ true) × (h'.sd ≡ none)) ⊎ ((failed err ≡ false) × (h' ≡ h))
      → GoesOn r (if again then none else some (answered r err response (not (failed err))), h')
  goes_on r err response h h' true e c (inl (f, gone)) = gone
  goes_on r err response h h' true e c (inr (f, same)) = absurd (server-not_failed err (sym e) f)
  goes_on r err response h h' false e c (inl (f, gone)) =
      (err, response, refl, sym e, inl (f, gone))
  goes_on r err response h h' false e c (inr (f, same)) =
      (err, response, refl, sym e, inr (f, rw same c))

  send_connected-GoesOn :
      (h : RequestHandlerTcp) (sd : ℕ) (r : ProducerRequest) (w : W)
      → h.sd ≢ none
      → GoesOn r (send_connected io h sd r w).0
  unfolding send_connected
  send_connected-GoesOn h sd r w c =
      let ((err, response), w') = try_send_to_receiver io sd r w in
      let ((again, h'), _) = process_error_from_receiver io err h w' in
      let (e, cases) = process_error_cases err h w' in goes_on r err response h h' again e c cases

  connect_cases :
      (h : RequestHandlerTcp) (size uri : ℕ) (w : W)
      → let (err, h') = (connect_to_receiver io h size uri w).0 in
        ((err ≡ none) × (h'.sd ≢ none)) ⊎ ((err ≢ none) × (h'.sd ≡ none))
  unfolding connect_to_receiver
  connect_cases h size uri w = ground arith

  send_if_connected-GoesOn :
      (h : RequestHandlerTcp) (r : ProducerRequest) (w : W)
      → h.sd ≢ none
      → GoesOn r (send_if_connected io h r w).0
  unfolding send_if_connected
  send_if_connected-GoesOn h r w c = elim (Option-cases h.sd) [
    | inl e ↦ absurd (c e)
    | inr (sd, e) ↦ rw (e, send_if_connected) (send_connected-GoesOn h sd r w c)
  ]

  after_connect-GoesOn :
      (r : ProducerRequest) (err : Option ProducerError) (h : RequestHandlerTcp) (w : W)
      → ((err ≡ none) × (h.sd ≢ none)) ⊎ ((err ≢ none) × (h.sd ≡ none))
      → GoesOn r (after_connect io r err h w).0
  unfolding after_connect
  after_connect-GoesOn r none h w (inl (_, c)) = send_if_connected-GoesOn h r w c
  after_connect-GoesOn r none h w (inr (n, _)) = absurd (n refl)
  after_connect-GoesOn r (some e) h w (inl (n, _)) = absurd (cc)
  after_connect-GoesOn r (some e) h w (inr (_, gone)) =
      elim (Bool-cases (immediate_callback_after_error (some e))) [
        | inl i ↦ rw i (
          some e,
          none,
          rw (immediate_failed (some e) i).0,
          (immediate_failed (some e) i).1,
          inl ((immediate_failed (some e) i).0, gone),
        )
        | inr i ↦ rw i gone
      ]

  send_to_receiver-GoesOn :
      (h : RequestHandlerTcp) (r : ProducerRequest) (uri : ℕ) (w : W)
      → GoesOn r (send_to_receiver io h r uri w).0
  unfolding send_to_receiver
  send_to_receiver-GoesOn h r uri w = elim (Option-cases h.sd) [
    | inr (sd, e) ↦ rw (e, send_to_receiver) (send_connected-GoesOn h sd r w (λ n. absurd (cc)))
    | inl e ↦
        let ((err, h'), w') = connect_to_receiver io h r.source_credentials_size uri w in
        rw (e, send_to_receiver)
          (after_connect-GoesOn r err h' w' (connect_cases h r.source_credentials_size uri w))
  ]

  -- The request is put back and there is no connection, or the caller has its answer.
  abbrev pub Ends : ProducerRequest → Outcome × RequestHandlerTcp → Type 0
  Ends r (o, h) = ((o ≡ put_back) × (h.sd ≡ none)) ⊎ Answers r o h

  next_receiver-Ends :
      (r : ProducerRequest) (rest : RequestHandlerTcp → State W (Outcome × RequestHandlerTcp))
      (result : Option Outcome) (h : RequestHandlerTcp) (w : W)
      → GoesOn r (result, h)
      → (h.sd ≡ none → Ends r (rest h w).0)
      → Ends r (next_receiver io rest result h w).0
  unfolding next_receiver
  next_receiver-Ends r rest none h w g f = f g
  next_receiver-Ends r rest (some o) h w g f = inr g

  send_to_one_of-Ends :
      (uris : List ℕ) (h : RequestHandlerTcp) (r : ProducerRequest) (w : W)
      → (uris ≢ []) ⊎ (h.sd ≡ none)
      → Ends r (send_to_one_of io uris h r w).0
  unfolding send_to_one_of
  send_to_one_of-Ends [] h r w (inl n) = absurd (n refl)
  send_to_one_of-Ends [] h r w (inr c) = inl (refl, c)
  send_to_one_of-Ends (uri ∷ uris) h r w c =
      let ((result, h'), w') = send_to_receiver io h r uri w in
      next_receiver-Ends r (λ x. send_to_one_of io uris x r) result h' w'
        (send_to_receiver-GoesOn h r uri w) (λ gone. send_to_one_of-Ends uris h' r w' (inr gone))

  -- A handler with a connection has a receiver on its list.
  abbrev pub HasReceivers : RequestHandlerTcp → Type 0
  HasReceivers h = (h.receivers_list ≢ []) ⊎ (h.sd ≡ none)

  rebalance-HasReceivers :
      (h : RequestHandlerTcp) (w : W) → HasReceivers h → HasReceivers (rebalance_if_needed io h w).0
  unfolding rebalance_if_needed need_rebalance update_receivers_list
      close_connection_to_perform_rebalance
  rebalance-HasReceivers h w c = ground arith

  Answers-same :
      (r r' : ProducerRequest) (o : Outcome) (h : RequestHandlerTcp)
      → r'.has_callback ≡ r.has_callback
      → Answers r' o h
      → Answers r o h
  unfolding answered
  Answers-same r r' o h e (err, response, a, s, c) = (err, response, rw (← e) a, s, c)

  Ends-same :
      (r r' : ProducerRequest) (x : Outcome × RequestHandlerTcp)
      → r'.has_callback ≡ r.has_callback
      → Ends r' x
      → Ends r x
  Ends-same r r' x e (inl p) = inl p
  Ends-same r r' (o, h) e (inr a) = inr (Answers-same r r' o h e a)

  -- The request's file could not be read: the caller has that error, and the handler is as it was.
  abbrev pub Unreadable : ProducerRequest → RequestHandlerTcp → Outcome × RequestHandlerTcp → Type 0
  Unreadable r h (o, h') = (o ≡ answered r (some local_io_error) none false) × (h' ≡ h)

  update_same :
      (r r' : ProducerRequest) (w : W)
      → (update_data_size_from_file_if_needed io r w).0 ≡ some r'
      → r'.has_callback ≡ r.has_callback
  unfolding update_data_size_from_file_if_needed
  update_same r r' w e = ground arith

  process_sized-Ends :
      (h : RequestHandlerTcp) (r r' : ProducerRequest) (w : W)
      → HasReceivers h
      → r'.has_callback ≡ r.has_callback
      → Ends r (process_sized io h r (some r') w).0
  unfolding process_sized
  process_sized-Ends h r r' w c same =
      let (h', w') = rebalance_if_needed io h w in
      Ends-same r r' (send_to_one_of io h'.receivers_list h' r' w').0 same
        (send_to_one_of-Ends h'.receivers_list h' r' w' (rebalance-HasReceivers h w c))

  pub process_readable-Ends :
      (h : RequestHandlerTcp) (r r' : ProducerRequest) (w : W)
      → HasReceivers h
      → (update_data_size_from_file_if_needed io r w).0 ≡ some r'
      → Ends r (process_request_unlocked io h r w).0
  unfolding process_request_unlocked
  process_readable-Ends h r r' w c e = rw e (
      process_sized-Ends h r r' (update_data_size_from_file_if_needed io r w).1 c
        (update_same r r' w e))

  -- A call on a handler that has a receiver on its list if it is connected ends in one of three ways.
  -- The file could not be read: the caller has kLocalIOError and the handler is as it was. Or the
  -- request goes back to the queue with no callback and the connection is closed. Or the callback is
  -- called once, with an error only if a retry would not help; the call is successful exactly if there
  -- is no error but a warning, and exactly then there is a connection.
  pub process_request-Ends :
      (h : RequestHandlerTcp) (r : ProducerRequest) (w : W)
      → HasReceivers h
      → let result = (process_request_unlocked io h r w).0 in Unreadable r h result ⊎ Ends r result
  unfolding process_request_unlocked process_sized
  process_request-Ends h r w c =
      elim (Option-cases (update_data_size_from_file_if_needed io r w).0) [
        | inl e ↦ inl (rw (e, process_sized) refl, rw (e, process_sized) refl)
        | inr (r', e) ↦ inr (process_readable-Ends h r r' w c e)
      ]
