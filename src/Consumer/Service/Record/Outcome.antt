-- ===== src/Consumer/Service/Record/Outcome.antt =====
-- What `GetRecordFromServer` returns.
use asapo.Base.{
  ℕ, zero, suc, ◌+◌, ◌*◌, ◌<◌, ◌≤◌, ◌≡◌, refl, ◌∙◌, subst, ◌⊎◌, inl, inr, false, Option, none, some,
  Bool-cases, arith, dec_lt,
}
use asapo.Consumer.Service.{
  ServiceIo, Suffix, broker, Reply, Text, ConsumerError, interrupted_transaction,
}
use asapo.Consumer.Service.Timeout.{Justified, round-Justified}
use asapo.Consumer.Service.Record.{
  Step, returns, tries_again, after_round, or_error, prepare_request_info, get_record, this,
  interrupts, ends, times_out, goes_on,
}
use asapo.Consumer.Service.Record.Told.{NamesIfAny, Told, round-Told}
use asapo.Consumer.Service.Record.Steps.{Final, Asks, Follows, step-Follows}

module _ {W : Type 0} (io : ServiceIo W) (timeout_ms : ℕ) (resend : Option (ℕ × ℕ)) (stream : Text)
    (min_size : Option ℕ) (first_group : Text) (first : Suffix) where
  -- A reply to the first request names the identifier.
  abbrev pub Named : ℕ → Type 0
  Named = Told io (prepare_request_info io timeout_ms resend stream min_size first_group first)

  abbrev pub AsksFor : Option ConsumerError → Text → Suffix → Type 0
  AsksFor = Asks Named first_group first

  -- No error is reported only for a reply of the broker to what is asked for; once an error is saved, no
  -- other is reported, but for one that is returned at once.
  abbrev pub Reported : Option ConsumerError → Reply → Type 0
  Reported saved (none, response, uri) =
      (group_id : Text) × (suffix : Suffix) × (asked : Option ConsumerError) × AsksFor asked
        group_id suffix
      × Justified io (prepare_request_info io timeout_ms resend stream min_size group_id suffix)
          (none, response, uri)
  Reported none (some e, response, uri) = Unit
  Reported (some e0) (some e, response, uri) = (e ≡ e0) ⊎ Final e

  Final-Reported :
      (saved : Option ConsumerError) (e : ConsumerError) (response uri : Text)
      → Final e
      → Reported saved (some e, response, uri)
  Final-Reported none e response uri h = tt
  Final-Reported (some e0) e response uri h = inr h

  -- The saved error of a later round is the one of this round.
  later-Reported :
      (saved saved' : Option ConsumerError) (reply : Reply)
      → ((e0 : ConsumerError) → saved ≡ some e0 → saved' ≡ saved)
      → Reported saved' reply
      → Reported saved reply
  later-Reported saved saved' (none, response, uri) k h = h
  later-Reported none saved' (some e, response, uri) k h = tt
  later-Reported (some e0) saved' (some e, response, uri) k h =
      subst (λ x. Reported x (some e, response, uri)) (k e0 refl) h

  late-Reported :
      (saved saved' : Option ConsumerError) (e : ConsumerError) (response uri : Text)
      → ((e0 : ConsumerError) → saved ≡ some e0 → saved' ≡ saved)
      → Reported saved (some (or_error saved' e), response, uri)
  late-Reported none saved' e response uri k = tt
  late-Reported (some e0) saved' e response uri k = inl (rw (k e0 refl) refl)

  module _ (sleeps : (w : W) → 100 ≤ (io.sleep w).0) where
    abbrev run : ℕ → ℕ → Option ConsumerError → Text → Suffix → Text → Text → W → Option Reply × W
    run = get_record io timeout_ms resend stream min_size

    abbrev Ends : Option ConsumerError → Option Reply × W → Type 0
    Ends saved result =
        (reply : Reply) × (w' : W) × (result ≡ (some reply, w')) × Reported saved reply

    module _ (fuel elapsed_ms : ℕ) (saved : Option ConsumerError) (group_id : Text)
        (suffix : Suffix) (response uri : Text) (w : W) where
      abbrev round : Reply × W
      round =
          this io timeout_ms resend stream min_size fuel elapsed_ms saved group_id suffix response
            uri w

      abbrev whole : Option Reply × W
      whole = run (suc fuel) elapsed_ms saved group_id suffix response uri w

      round_lem :
          Justified io
            (prepare_request_info io timeout_ms resend stream min_size group_id suffix)
            (round.0)
      round_lem = round-Justified io broker _ (none, response, uri) w

      told : group_id ≡ first_group → suffix ≡ first → (i : ℕ) → NamesIfAny (round.0.0) i → Named i
      told g s i n =
          subst (λ x. Told io (prepare_request_info io timeout_ms resend stream min_size x first) i)
            g
            (subst
              (λ x.
                Told io (prepare_request_info io timeout_ms resend stream min_size group_id x) i)
              s (round-Told io _ (none, response, uri) w i n))

      -- What the loop does with one more round, if it does well with the rest of the rounds.
      go_on :
          AsksFor saved group_id suffix
          → timeout_ms ≤ elapsed_ms + 100 * fuel
          → io.interrupted w ≡ false
          → ((saved' : Option ConsumerError) (group_id' : Text) (suffix' : Suffix)
              → (elapsed_ms' : ℕ) (response' uri' : Text) (w' : W)
              → AsksFor saved' group_id' suffix'
              → elapsed_ms < timeout_ms
              → elapsed_ms + 100 ≤ elapsed_ms'
              → Ends saved' (run fuel elapsed_ms' saved' group_id' suffix' response' uri' w'))
          → (step : Step) → after_round (round.0.0) saved group_id suffix ≡ step
          → Follows Named first_group first saved (round.0.0) step
          → Ends saved whole
      go_on a f i rest (returns none) d e = (
        (none, round.0.1, round.0.2),
        round.1,
        ends io timeout_ms resend stream min_size fuel elapsed_ms saved group_id suffix response uri
            w none i d,
        (
          group_id,
          suffix,
          saved,
          a,
          subst
              (λ x.
                Justified io
                  (prepare_request_info io timeout_ms resend stream min_size group_id suffix)
                  (x, round.0.1, round.0.2))
              e round_lem,
        ),
      )
      go_on a f i rest (returns (some err)) d e = (
        (some err, round.0.1, round.0.2),
        round.1,
        ends io timeout_ms resend stream min_size fuel elapsed_ms saved group_id suffix response uri
            w (some err) i d,
        Final-Reported saved err (round.0.1) (round.0.2) e,
      )
      go_on a f i rest (tries_again saved' group_id' suffix' err) d (a', k) =
          elim (dec_lt elapsed_ms timeout_ms) [
            | no l ↦ (
              (some (or_error saved' err), round.0.1, round.0.2),
              round.1,
              times_out io timeout_ms resend stream min_size fuel elapsed_ms saved group_id suffix
                  response uri w saved' group_id' suffix' err i d (omega arith),
              late-Reported saved saved' err (round.0.1) (round.0.2) k,
            )
            | yes l ↦
                let long = sleeps (round.1) in
                let (reply, w', p, q) =
                  rest saved' group_id' suffix' (elapsed_ms + (io.sleep (round.1)).0) (round.0.1)
                    (round.0.2) ((io.sleep (round.1)).1) a' l (omega arith) in
                (
                  reply,
                  w',
                  goes_on io timeout_ms resend stream min_size fuel elapsed_ms saved group_id suffix
                        response uri w saved' group_id' suffix' err i d l
                      ∙ p,
                  later-Reported saved saved' reply k q,
                )
          ]

      one_more :
          AsksFor saved group_id suffix
          → timeout_ms ≤ elapsed_ms + 100 * fuel
          → ((saved' : Option ConsumerError) (group_id' : Text) (suffix' : Suffix)
              → (elapsed_ms' : ℕ) (response' uri' : Text) (w' : W)
              → AsksFor saved' group_id' suffix'
              → elapsed_ms < timeout_ms
              → elapsed_ms + 100 ≤ elapsed_ms'
              → Ends saved' (run fuel elapsed_ms' saved' group_id' suffix' response' uri' w'))
          → Ends saved whole
      one_more a f rest = elim (Bool-cases (io.interrupted w)) [
        | inl i ↦ (
          (some interrupted_transaction, response, uri),
          w,
          interrupts io timeout_ms resend stream min_size fuel elapsed_ms saved group_id suffix
              response uri w i,
          Final-Reported saved interrupted_transaction response uri (inl refl),
        )
        | inr i ↦
            go_on a f i rest _ refl
              (step-Follows Named first_group first _ saved group_id suffix a told)
      ]

    -- If every round takes 100 ms, the request for a record ends from any of its rounds on, after at
    -- most one round more than are needed to reach the timeout. No error is reported only for a reply
    -- with OK or no content to the first request, or, if this is one for the next message, to one in
    -- the group "0" for the message whose identifier a reply to the first request has named; once an
    -- error is saved, no other is reported but it, the end of the stream, or an interruption.
    pub get_record_lem :
        (fuel elapsed_ms : ℕ) (saved : Option ConsumerError) (group_id : Text) (suffix : Suffix)
        → (response uri : Text) (w : W) → AsksFor saved group_id suffix
        → timeout_ms ≤ elapsed_ms + 100 * fuel
        → Ends saved (run (suc fuel) elapsed_ms saved group_id suffix response uri w)
    get_record_lem zero elapsed_ms saved group_id suffix response uri w a f =
        one_more 0 elapsed_ms saved group_id suffix response uri w a f
          (λ saved' group_id' suffix' t response' uri' w' a' l g. absurd (omega arith))
    get_record_lem (suc fuel) elapsed_ms saved group_id suffix response uri w a f =
        one_more (suc fuel) elapsed_ms saved group_id suffix response uri w a f
          (λ saved' group_id' suffix' t response' uri' w' a' l g.
            get_record_lem fuel t saved' group_id' suffix' response' uri' w' a' (omega arith))
