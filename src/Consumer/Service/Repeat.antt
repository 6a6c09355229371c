-- ===== src/Consumer/Service/Repeat.antt =====
-- consumer_impl.cpp: the loop that `ServiceRequestWithTimeout` and `GetDataFromFile` have.
use asapo.Base.{
  ℕ, zero, suc, ◌+◌, ◌*◌, ◌<◌, ◌≤◌, ◌≡◌, ◌⊎◌, inl, inr, Bool, true, false, Option, none, some, ltb,
  if◌then◌else◌, State, Bool-cases, arith, dec_lt,
}
use asapo.Consumer.Service.{ServiceIo}

module _ {W : Type 0} (io : ServiceIo W) where
  -- The loop: until the timeout, or an interrupt, or a round that stops it.
  unfoldable pub repeat :
      {S : Type 0} → ℕ → (S → S) → (S → State W (Bool × S)) → ℕ → ℕ → S → State W (Option S)
  repeat timeout_ms interrupt round zero elapsed_ms s w = (none, w)
  repeat timeout_ms interrupt round (suc fuel) elapsed_ms s w =
      if ltb timeout_ms elapsed_ms
      then (some s, w)
      else if io.interrupted w
      then (some (interrupt s), w)
      else let ((stop, s'), w') = round s w in
        elim stop [
          | true ↦ (some s', w')
          | false ↦
              let (spent, w'') = io.sleep w' in
              repeat timeout_ms interrupt round fuel (elapsed_ms + spent) s' w''
        ]

  module _ {S : Type 0} (timeout_ms : ℕ) (interrupt : S → S) (round : S → State W (Bool × S)) where
    late :
        (fuel elapsed_ms : ℕ) (s : S) (w : W)
        → timeout_ms < elapsed_ms
        → repeat timeout_ms interrupt round (suc fuel) elapsed_ms s w ≡ (some s, w)
    unfolding repeat
    late fuel elapsed_ms s w h = ground arith

    interrupts :
        (fuel elapsed_ms : ℕ) (s : S) (w : W)
        → elapsed_ms ≤ timeout_ms
        → io.interrupted w ≡ true
        → repeat timeout_ms interrupt round (suc fuel) elapsed_ms s w ≡ (some (interrupt s), w)
    unfolding repeat
    interrupts fuel elapsed_ms s w h e = ground arith

    last_round :
        (fuel elapsed_ms : ℕ) (s : S) (w : W)
        → elapsed_ms ≤ timeout_ms
        → io.interrupted w ≡ false
        → (round s w).0.0 ≡ true
        → repeat timeout_ms interrupt round (suc fuel) elapsed_ms s w
          ≡ (some ((round s w).0.1), (round s w).1)
    unfolding repeat
    last_round fuel elapsed_ms s w h e d = ground arith

    goes_on :
        (fuel elapsed_ms : ℕ) (s : S) (w : W)
        → elapsed_ms ≤ timeout_ms
        → io.interrupted w ≡ false
        → (round s w).0.0 ≡ false
        → repeat timeout_ms interrupt round (suc fuel) elapsed_ms s w ≡ (
            let (spent, w'') = io.sleep ((round s w).1) in
            repeat timeout_ms interrupt round fuel (elapsed_ms + spent) ((round s w).0.1) w'')
    unfolding repeat
    goes_on fuel elapsed_ms s w h e d = ground arith

    -- What every round makes true, and an interrupt too, holds of the result.
    pub repeat_lem :
        (P : S → Type 0)
        → ((w : W) → 100 ≤ (io.sleep w).0)
        → ((s : S) → P (interrupt s))
        → ((s : S) (w : W) → P ((round s w).0.1))
        → (fuel elapsed_ms : ℕ) (s : S) (w : W) → (elapsed_ms ≤ timeout_ms) ⊎ P s
        → timeout_ms < elapsed_ms + 100 * fuel
        → (s' : S) × (w' : W) × (repeat timeout_ms interrupt round (suc fuel) elapsed_ms s w
            ≡ (some s', w'))
          × P s'
    repeat_lem P sleeps i r zero elapsed_ms s w h f =
        let l : timeout_ms < elapsed_ms = omega arith in
        (s, w, late zero elapsed_ms s w l, elim h [ inl e ↦ absurd (omega arith) | inr p ↦ p ])
    repeat_lem P sleeps i r (suc fuel) elapsed_ms s w h f = elim (dec_lt timeout_ms elapsed_ms) [
      | yes l ↦ (
        s,
        w,
        late (suc fuel) elapsed_ms s w l,
        elim h [ inl e ↦ absurd (omega arith) | inr p ↦ p ],
      )
      | no l ↦ elim (Bool-cases (io.interrupted w)) [
        | inl e ↦ (interrupt s, w, interrupts (suc fuel) elapsed_ms s w (omega arith) e, i s)
        | inr e ↦ elim (Bool-cases ((round s w).0.0)) [
          | inl d ↦ (
            (round s w).0.1,
            (round s w).1,
            last_round (suc fuel) elapsed_ms s w (omega arith) e d,
            r s w,
          )
          | inr d ↦ rw (goes_on (suc fuel) elapsed_ms s w (omega arith) e d) (
              let long = sleeps ((round s w).1) in
              repeat_lem P sleeps i r fuel _ ((round s w).0.1) _ (inr (r s w)) (omega arith))
        ]
      ]
    ]
