-- ===== src/Common/SystemIo/File.antt =====
-- Receiving a file and sending one, round by round (common/cpp/src/system_io/system_io.cpp).
use asapo.Base.{
  ℕ, zero, suc, ◌+◌, ◌-◌, ◌≤◌, ◌<◌, ◌≡◌, refl, ap, sym, subst, ◌∙◌, inl, inr, Bool, true, false,
  List, [], ◌∷◌, ◌++◌, none, length, take, drop, length-append, take-append-drop, append_assoc,
  append-nil, leb, arith, Bool-cases, All,
}
use asapo.Common.SystemIo.{
  Socket, min, read_write_buf_size, returned, receive, FileResult, ended, write_received,
  receive_data_to_file, all_sent, send_file,
}
use asapo.Common.SystemIo.Receive.{
  take_pos, Received, transfer-Received, transfer_total, IsReady, length-drop,
}

-- What one receipt of enough bytes gives.
receive_whole :
    (size : ℕ) (s : Socket)
    → All IsReady s.events
    → size ≤ length s.bytes
    → size ≤ length s.events
    → (got : List ℕ) × (s' : Socket) × (receive size s ≡ returned got none s')
      × (got ++ s'.bytes ≡ s.bytes)
      × (length got ≡ size)
      × All IsReady s'.events
      × (length s.events ≤ size + length s'.events)
unfolding receive
receive_whole size s r b e =
    let (got, s', run, ready', left) =
      transfer_total size [] s.bytes s.events r (omega arith) (omega arith) (omega arith) in
    let all =
      subst (Received size s.bytes) run
        (transfer-Received size [] s.bytes s.events (omega arith)) in
    (got, s', run, all.0, all.1, ready', omega arith)

-- The bytes of one round.
abbrev round_size : ℕ → ℕ → ℕ
round_size size done = min (min size read_write_buf_size) (size - done)

round_size_bounds :
    (size done : ℕ)
    → done < size
    → (0 < round_size size done) × (round_size size done ≤ size - done)
round_size_bounds size done h = ground arith

module _ (can_write : ℕ → Bool) (writes : (n : ℕ) → can_write n ≡ true) (size : ℕ) where
  written :
      (next : List ℕ → Socket → FileResult) (file got : List ℕ) (s : Socket)
      → write_received can_write size next file (returned got none s) ≡ next (file ++ got) s
  unfolding write_received
  written next file got s = let ok = writes (length file) in ground arith

  round_writes :
      (fuel : ℕ) (file got : List ℕ) (s s' : Socket)
      → leb size (length file) ≡ false
      → receive (round_size size (length file)) s ≡ returned got none s'
      → receive_data_to_file can_write size (suc fuel) file s
        ≡ receive_data_to_file can_write size fuel (file ++ got) s'
  unfolding receive_data_to_file
  round_writes fuel file got s s' more run =
      let next = receive_data_to_file can_write size fuel in
      rw more (ap (write_received can_write size next file) run ∙ written next file got s')

  -- The file is written in the end, and no byte is lost.
  abbrev pub Written : List ℕ → FileResult → Type 0
  Written all r =
      (file : List ℕ) × (s : Socket) × (r ≡ ended none file s)
      × (file ++ s.bytes ≡ all)
      × (length file ≡ size)

  Written-round :
      {r r' : FileResult} (file got rest bytes : List ℕ)
      → r ≡ r'
      → got ++ rest ≡ bytes
      → Written ((file ++ got) ++ rest) r'
      → Written (file ++ bytes) r
  Written-round file got rest bytes same all (file', s, run, all', many) =
      (file', s, same ∙ run, all' ∙ (append_assoc file got rest ∙ ap (λ l. file ++ l) all), many)

  -- With as many bytes and events as are wanted the file is written.
  pub file-Written :
      (fuel : ℕ) (file : List ℕ) (s : Socket)
      → All IsReady s.events
      → length file ≤ size
      → size ≤ length file + length s.bytes
      → size ≤ length file + length s.events
      → size < fuel + length file
      → Written (file ++ s.bytes) (receive_data_to_file can_write size fuel file s)
  unfolding receive_data_to_file
  file-Written zero file s r h b e f = absurd (omega arith)
  file-Written (suc fuel) file s r h b e f = elim (Bool-cases (leb size (length file))) [
    | inl full ↦ (file, s, rw full refl, refl, ground arith)
    | inr more ↦
        (let bounds = round_size_bounds size (length file) (ground arith) in
          let (got, s', run, all, many, ready', left) =
            receive_whole (round_size size (length file)) s r (omega arith) (omega arith) in
          let longer = length-append file got in
          let bytes : length got + length s'.bytes ≡ length s.bytes =
            sym (length-append got s'.bytes) ∙ ap length all in
          Written-round file got s'.bytes s.bytes (round_writes fuel file got s s' more run) all (
            file-Written fuel (file ++ got) s' ready' (omega arith) (omega arith) (omega arith)
              (omega arith)))
  ]

pub empty_of_length : (xs : List ℕ) → length xs ≡ 0 → xs ≡ []
empty_of_length [] h = refl
empty_of_length (x ∷ xs) h = absurd (omega arith)

length-take_pos : (n : ℕ) (xs : List ℕ) → 0 < n → 0 < length xs → 0 < length (take n xs)
length-take_pos n [] h k = absurd (omega arith)
length-take_pos n (x ∷ xs) h k = take_pos n x xs h

module _ (can_send : ℕ → Bool) (sends : (n : ℕ) → can_send n ≡ true) (size : ℕ) where
  send_next :
      (fuel : ℕ) (sent file : List ℕ)
      → leb size (length sent) ≡ false
      → send_file can_send size (suc fuel) sent file
        ≡ send_file can_send size fuel
            (sent ++ take (min size read_write_buf_size) file)
            (drop (min size read_write_buf_size) file)
  unfolding send_file
  send_next fuel sent file more = let ok = sends (length sent) in ground arith

  -- A file of the given size is sent whole.
  pub file_sent :
      (fuel : ℕ) (sent file : List ℕ)
      → length sent + length file ≡ size
      → length file < fuel
      → send_file can_send size fuel sent file ≡ all_sent (sent ++ file)
  unfolding send_file
  file_sent zero sent file e f = absurd (omega arith)
  file_sent (suc fuel) sent file e f = elim (Bool-cases (leb size (length sent))) [
    | inl full ↦
        (let none_left = empty_of_length file (ground arith) in
          let whole : sent ≡ sent ++ file =
            sym (append-nil sent) ∙ ap (λ l. sent ++ l) (sym none_left) in
          rw full (ap all_sent whole))
    | inr more ↦
        (let n = min size read_write_buf_size in
          let left : 0 < length file = ground arith in
          let pos : 0 < n = ground arith in
          let cut = length-drop n file in
          let some_sent = length-take_pos n file pos left in
          let longer = length-append sent (take n file) in
          let same : (sent ++ take n file) ++ drop n file ≡ sent ++ file =
            append_assoc sent (take n file) (drop n file)
            ∙ ap (λ l. sent ++ l) (take-append-drop n file) in
          send_next fuel sent file more
          ∙ (file_sent fuel (sent ++ take n file) (drop n file) (omega arith) (omega arith)
              ∙ ap all_sent same))
  ]
