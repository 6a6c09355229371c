-- ===== src/Consumer/Service/Record/Steps.antt =====
-- What a round of `GetRecordFromServer` is followed by.
use asapo.Base.{
  ℕ, ◌≡◌, refl, sym, ◌∙◌, ap, subst, ◌⊎◌, inl, inr, true, false, Option, none, some, Bool-cases,
  arith,
}
use asapo.Consumer.Service.{
  Suffix, next, groupedlast, last, error_command, by_id, other_command, Text, ConsumerError,
  wrong_input, interrupted_transaction, unavailable_service, unsupported_client, local_io_error,
  simple_error, no_data, end_of_stream, stream_finished, partial_data,
}
use asapo.Consumer.Service.Record.Told.{Names, NamesIfAny}
use asapo.Consumer.Service.Record.{
  is_next, group_zero, switch_to_get_by_id, Step, returns, tries_again, keep, is_stream_finished,
  after_round,
}

-- An error that is returned at once.
abbrev pub Final : ConsumerError → Type 0
Final e = (e ≡ interrupted_transaction) ⊎ (is_stream_finished e ≡ true)

-- `P` holds of the identifiers that a reply to the first request may name.
module _ (P : ℕ → Type 0) (first_group : Text) (first : Suffix) where
  -- What is asked for when `saved` is saved: what was asked for at first, or the message that it names.
  abbrev pub Asks : Option ConsumerError → Text → Suffix → Type 0
  Asks none group_id suffix = (group_id ≡ first_group) × (suffix ≡ first)
  Asks (some e) group_id suffix =
      (i : ℕ) × (first ≡ next) × (group_id ≡ group_zero) × (suffix ≡ by_id i) × Names e i × P i

  abbrev pub Follows : Option ConsumerError → Option ConsumerError → Step → Type 0
  Follows saved err (returns none) = err ≡ none
  Follows saved err (returns (some e)) = Final e
  Follows saved err (tries_again saved' group_id suffix e) =
      Asks saved' group_id suffix × ((e0 : ConsumerError) → saved ≡ some e0 → saved' ≡ saved)

  switched :
      (err : ConsumerError)
      → first ≡ next
      → is_stream_finished err ≡ false
      → ((i : ℕ) → Names err i → P i)
      → Follows none (some err) (
          let s = switch_to_get_by_id err first_group next in
          keep none s.err s.switched s.group_id s.suffix)
  unfolding switch_to_get_by_id
  switched (no_data none) f h t = inl refl
  switched (no_data (some d)) f h t =
      ((d.id, f, refl, refl, refl, t d.id refl), λ e0 p. ground arith)
  switched (partial_data none) f h t = inl refl
  switched (partial_data (some d)) f h t =
      ((d.id, f, refl, refl, refl, t d.id refl), λ e0 p. ground arith)
  switched interrupted_transaction f h t = inl refl
  switched wrong_input f h t = ((refl, sym f), λ e0 p. refl)
  switched unavailable_service f h t = ((refl, sym f), λ e0 p. refl)
  switched unsupported_client f h t = ((refl, sym f), λ e0 p. refl)
  switched local_io_error f h t = ((refl, sym f), λ e0 p. refl)
  switched simple_error f h t = ((refl, sym f), λ e0 p. refl)
  switched (end_of_stream d) f h t = ((refl, sym f), λ e0 p. refl)
  switched (stream_finished d) f h t = absurd (ground arith)

  next_cases : (suffix : Suffix) → is_next suffix ≡ true → suffix ≡ next
  next_cases next h = refl
  next_cases groupedlast h = ground arith
  next_cases last h = ground arith
  next_cases error_command h = ground arith
  next_cases (by_id i) h = ground arith
  next_cases (other_command s) h = ground arith

  -- Before an error is saved, the request is the first one.
  first-Follows :
      (err : ConsumerError)
      → is_next first ≡ true
      → is_stream_finished err ≡ false
      → ((i : ℕ) → Names err i → P i)
      → Follows none (some err) (
          let s = switch_to_get_by_id err first_group first in
          keep none s.err s.switched s.group_id s.suffix)
  first-Follows err n h t =
      let f = next_cases first n in
      subst
        (λ x. Follows none (some err) (
          let s = switch_to_get_by_id err first_group x in
          keep none s.err s.switched s.group_id s.suffix))
        (sym f) (switched err f h t)

  next-Follows :
      (err : ConsumerError) (saved : Option ConsumerError) (group_id : Text) (suffix : Suffix)
      → Asks saved group_id suffix
      → is_next suffix ≡ true
      → is_stream_finished err ≡ false
      → (group_id ≡ first_group → suffix ≡ first → (i : ℕ) → Names err i → P i)
      → Follows saved (some err) (
          let s = switch_to_get_by_id err group_id suffix in
          keep saved s.err s.switched s.group_id s.suffix)
  next-Follows err none group_id suffix (g, s) n h t =
      rw (g, s) (first-Follows err (ap is_next (sym s) ∙ n) h (t g s))
  next-Follows err (some e) group_id suffix (i, f, g, s, m, q) n h t =
      absurd (let p : false ≡ true = ap is_next (sym s) ∙ n in ground arith)

  pub step-Follows :
      (err saved : Option ConsumerError) (group_id : Text) (suffix : Suffix)
      → Asks saved group_id suffix
      → (group_id ≡ first_group → suffix ≡ first → (i : ℕ) → NamesIfAny err i → P i)
      → Follows saved err (after_round err saved group_id suffix)
  unfolding after_round
  step-Follows none saved group_id suffix h t = refl
  step-Follows (some err) saved group_id suffix h t = elim (Bool-cases (is_stream_finished err)) [
    | inl f ↦ rw f (inr f)
    | inr f ↦ elim (Bool-cases (is_next suffix)) [
      | inr n ↦ rw (f, n) (h, λ e0 p. refl)
      | inl n ↦ rw (f, n) (next-Follows err saved group_id suffix h n f t)
    ]
  ]
