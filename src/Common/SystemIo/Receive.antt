-- ===== src/Common/SystemIo/Receive.antt =====
-- A received buffer is what the peer has sent (common/cpp/src/system_io/system_io.cpp).
use asapo.Base.{
  ℕ, zero, suc, ◌+◌, ◌-◌, ◌≤◌, ◌<◌, ◌≡◌, refl, ap, ◌∙◌, inl, inr, List, [], ◌∷◌, ◌++◌, none, some,
  length, take, drop, length-append, take-append-drop, append_assoc, append-nil, leb, arith,
  Bool-cases, All, subst,
}
use asapo.Common.SystemIo.{
  end_of_file, other_errno, resource_temporarily_unavailable, Event, ready, failed, Socket, min,
  max_transfer_chunk_size, Transferred, waiting, returned, transfer,
}

-- No byte is lost, added or moved; without an error there are as many as were asked for, and the end is
-- met only where no bytes are left.
abbrev pub Received : ℕ → List ℕ → Transferred → Type 0
Received size all waiting = Unit
Received size all (returned got none s) = (got ++ s.bytes ≡ all) × (length got ≡ size)
Received size all (returned got (some end_of_file) s) =
    (got ≡ all) × (s.bytes ≡ []) × (length got < size)
Received size all (returned got (some e) s) = (got ++ s.bytes ≡ all) × (length got < size)

pub length-take_le : (n : ℕ) (xs : List ℕ) → length (take n xs) ≤ n
length-take_le zero xs = omega arith
length-take_le (suc n) [] = omega arith
length-take_le (suc n) (x ∷ xs) = omega (arith, length-take_le n xs)

pub transfer-Received :
    (size : ℕ) (got bytes : List ℕ) (es : List Event)
    → length got ≤ size
    → Received size (got ++ bytes) (transfer size got bytes es)
unfolding transfer
transfer-Received size got bytes [] h = ground arith
transfer-Received size got bytes (failed none ∷ es) h = ground arith
transfer-Received size got bytes (failed (some resource_temporarily_unavailable) ∷ es) h =
    ground (arith, transfer-Received size got bytes es h)
transfer-Received size got bytes (failed (some other_errno) ∷ es) h = ground arith
transfer-Received size got [] (ready k ∷ es) h = let all = append-nil got in ground arith
transfer-Received size got (b ∷ bs) (ready k ∷ es) h =
    let n = min (k + 1) (min max_transfer_chunk_size (size - length got)) in
    let longer = length-append got (take n (b ∷ bs)) in
    let few = length-take_le n (b ∷ bs) in
    let same : (got ++ take n (b ∷ bs)) ++ drop n (b ∷ bs) ≡ got ++ (b ∷ bs) =
      append_assoc got (take n (b ∷ bs)) (drop n (b ∷ bs))
      ∙ ap (λ l. got ++ l) (take-append-drop n (b ∷ bs)) in
    elim (Bool-cases (leb size (length got))) [
      | inl full ↦ rw full (refl, ground arith)
      | inr more ↦ rw more (
          subst
            (λ all. Received size all (transfer size (got ++ take n (b ∷ bs)) (drop n (b ∷ bs)) es))
            same
            (transfer-Received size (got ++ take n (b ∷ bs)) (drop n (b ∷ bs)) es (ground arith)))
    ]

abbrev pub IsReady : Event → Type 0
IsReady (ready k) = Unit
IsReady (failed e) = ⊥

pub length-drop : (n : ℕ) (xs : List ℕ) → length (take n xs) + length (drop n xs) ≡ length xs
length-drop zero xs = omega arith
length-drop (suc n) [] = omega arith
length-drop (suc n) (x ∷ xs) = omega (arith, length-drop n xs)

pub take_pos : (n : ℕ) (x : ℕ) (xs : List ℕ) → 0 < n → 0 < length (take n (x ∷ xs))
take_pos zero x xs h = absurd (omega arith)
take_pos (suc n) x xs h = omega arith

-- With an event for each byte that is still wanted the transfer comes to its end without an error.
pub transfer_total :
    (size : ℕ) (got bytes : List ℕ) (es : List Event)
    → All IsReady es
    → length got ≤ size
    → size ≤ length got + length bytes
    → size ≤ length got + length es
    → (got' : List ℕ) × (s : Socket) × (transfer size got bytes es ≡ returned got' none s)
      × All IsReady s.events
      × (length got + length es ≤ length got' + length s.events)
unfolding transfer
transfer_total size got bytes [] r h b e =
    (got, record { bytes = bytes; events = [] }, ground arith, tt, omega arith)
transfer_total size got bytes (failed x ∷ es) r h b e = absurd r.0
transfer_total size got [] (ready k ∷ es) r h b e =
    (got, record { bytes = []; events = ready k ∷ es }, ground arith, r, omega arith)
transfer_total size got (x ∷ bs) (ready k ∷ es) r h b e =
    let n = min (k + 1) (min max_transfer_chunk_size (size - length got)) in
    let longer = length-append got (take n (x ∷ bs)) in
    let few = length-take_le n (x ∷ bs) in
    let rest = length-drop n (x ∷ bs) in
    elim (Bool-cases (leb size (length got))) [
      | inl full ↦
          (got, record { bytes = x ∷ bs; events = ready k ∷ es }, rw full refl, r, omega arith)
      | inr more ↦
          (let wanted : 0 < n = ground arith in
            let some_bytes = take_pos n x bs wanted in
            let (got', s, run, ready', left) =
              transfer_total size (got ++ take n (x ∷ bs)) (drop n (x ∷ bs)) es r.1 (ground arith)
                (omega arith) (omega arith) in
            (got', s, rw more run, ready', omega arith))
    ]

-- On a socket without failures the outcome is one of three, and the socket stays without failures.
abbrev pub Calm : Transferred → Type 0
Calm waiting = Unit
Calm (returned got none s) = All IsReady s.events
Calm (returned got (some end_of_file) s) = All IsReady s.events
Calm (returned got (some e) s) = ⊥

pub transfer-Calm :
    (size : ℕ) (got bytes : List ℕ) (es : List Event)
    → All IsReady es
    → Calm (transfer size got bytes es)
unfolding transfer
transfer-Calm size got bytes [] r = ground arith
transfer-Calm size got bytes (failed x ∷ es) r = absurd r.0
transfer-Calm size got [] (ready k ∷ es) r = ground arith
transfer-Calm size got (x ∷ bs) (ready k ∷ es) r =
    let n = min (k + 1) (min max_transfer_chunk_size (size - length got)) in
    ground (arith, transfer-Calm size (got ++ take n (x ∷ bs)) (drop n (x ∷ bs)) es r.1)
