-- ===== src/Common/Encoding/Names.antt =====
-- Encoded names can be read back and hold nothing that the database forbids
-- (common/cpp/src/database/encoding.cpp).
use asapo.Base.{
  ℕ, ◌/◌, ◌%◌, ◌<◌, ◌≡◌, ◌≢◌, refl, ap, ◌∙◌, Bool, true, false, ◌&&◌, List, [], ◌∷◌, some, ◌==◌,
  All, All-map, arith, Bool-cases, not, all_below, all_below_sound, inl, inr, ◌⊎◌,
}
use asapo.Common.Encoding.{
  should_escape, hex_digit, hex_count, escape_all, escape, is_hex, hex_value, c_string, put_byte,
  decode, encode_db_name, encode_col_name, decode_name,
}

-- A character that a text can hold.
abbrev pub IsChar : ℕ → Type 0
IsChar c = (0 < c) × (c < 256)

hex_digits_table : all_below 16 (λ n. is_hex (hex_digit n) && hex_value (hex_digit n) == n) ≡ true
unfolding hex_digit is_hex hex_value
hex_digits_table = refl

hex_digit-read : (n : ℕ) → n < 16 → (is_hex (hex_digit n) ≡ true) × (hex_value (hex_digit n) ≡ n)
hex_digit-read n h =
    let table =
      all_below_sound 16 (λ n. is_hex (hex_digit n) && hex_value (hex_digit n) == n) n
        hex_digits_table h in
    ground arith

escape_none : (s : List ℕ) (db : Bool) → hex_count s db ≡ 0 → escape_all s db ≡ s
unfolding hex_count escape_all
escape_none [] db h = refl
escape_none (c ∷ cs) db h = ground (arith, escape_none cs db)

-- The shortcut for texts with nothing to escape gives what the loop would.
pub escape-eq-escape_all : (s : List ℕ) (db : Bool) → escape s db ≡ escape_all s db
unfolding escape
escape-eq-escape_all s db = ground (arith, escape_none s db)

decode-plain : (c : ℕ) (rest : List ℕ) → c ≢ b'%' → decode (c ∷ rest) ≡ put_byte c (decode rest)
unfolding decode put_byte
decode-plain c [] h = ground arith
decode-plain c (a ∷ []) h = ground arith
decode-plain c (a ∷ b ∷ rest) h = ground arith

decode-hex :
    (c : ℕ) (rest : List ℕ)
    → c < 256
    → decode (b'%' ∷ hex_digit (c / 16) ∷ hex_digit (c % 16) ∷ rest) ≡ put_byte c (decode rest)
unfolding decode
decode-hex c rest h =
    let hi = hex_digit-read (c / 16) (omega arith) in
    let lo = hex_digit-read (c % 16) (omega arith) in
    rw (hi.0, lo.0, hi.1, lo.1) (ap (λ k. put_byte k (decode rest)) (omega arith))

should_escape-percent : (c : ℕ) (db : Bool) → should_escape c db ≡ false → c ≢ b'%'
unfolding should_escape
should_escape-percent c db h = λ e. ground arith

decode-nil : decode [] ≡ some []
unfolding decode
decode-nil = refl

decode-escape_all : (s : List ℕ) (db : Bool) → All IsChar s → decode (escape_all s db) ≡ some s
unfolding escape_all put_byte
decode-escape_all [] db h = decode-nil
decode-escape_all (c ∷ cs) db h =
    let ih = ap (put_byte c) (decode-escape_all cs db h.1) in
    elim (Bool-cases (should_escape c db)) [
      | inl e ↦ rw e (decode-hex c (escape_all cs db) h.0.1 ∙ ih)
      | inr e ↦ rw e (decode-plain c (escape_all cs db) (should_escape-percent c db e) ∙ ih)
    ]

c_string-whole : (s : List ℕ) → All (λ c. 0 < c) s → c_string s ≡ s
unfolding c_string
c_string-whole [] h = refl
c_string-whole (c ∷ cs) h = ground (arith, h.0, c_string-whole cs h.1)

is_hex_pos : (x : ℕ) → is_hex x ≡ true → 0 < x
unfolding is_hex
is_hex_pos x e = ground arith

hex_digit_pos : (n : ℕ) → n < 16 → 0 < hex_digit n
hex_digit_pos n h = is_hex_pos (hex_digit n) (hex_digit-read n h).0

escape_all_pos : (s : List ℕ) (db : Bool) → All IsChar s → All (λ c. 0 < c) (escape_all s db)
unfolding escape_all
escape_all_pos [] db h = tt
escape_all_pos (c ∷ cs) db h =
    let hi = hex_digit_pos (c / 16) (omega arith) in
    let lo = hex_digit_pos (c % 16) (omega arith) in ground (arith, escape_all_pos cs db h.1)

decode_name_of :
    (t d : List ℕ) → c_string t ≡ t → decode t ≡ some d → c_string d ≡ d → decode_name t ≡ d
unfolding decode_name
decode_name_of t d whole decoded whole' = ground arith

decode_name-escape : (s : List ℕ) (db : Bool) → All IsChar s → decode_name (escape s db) ≡ s
decode_name-escape s db h = rw (escape-eq-escape_all s db) (
    decode_name_of (escape_all s db) s (c_string-whole (escape_all s db) (escape_all_pos s db h))
      (decode-escape_all s db h) (c_string-whole s (All-map IsChar (λ c. 0 < c) s (λ c p. p.0) h)))

-- A text without zero bytes is read back from its encoding, for databases and for collections.
pub decode-encode :
    (s : List ℕ)
    → All IsChar s
    → (decode_name (encode_db_name s) ≡ s) × (decode_name (encode_col_name s) ≡ s)
unfolding encode_db_name encode_col_name
decode-encode s h = (decode_name-escape s true h, decode_name-escape s false h)

-- The bytes of an encoded database name.
abbrev pub IsAllowed : ℕ → Type 0
IsAllowed c = (should_escape c true ≡ false) ⊎ (c ≡ b'%')

hex_digits_allowed : all_below 16 (λ n. not (should_escape (hex_digit n) true)) ≡ true
unfolding hex_digit should_escape
hex_digits_allowed = refl

escape_all-IsAllowed : (s : List ℕ) → All (λ c. c < 256) s → All IsAllowed (escape_all s true)
unfolding escape_all
escape_all-IsAllowed [] h = tt
escape_all-IsAllowed (c ∷ cs) h =
    let hi =
      all_below_sound 16 (λ n. not (should_escape (hex_digit n) true)) (c / 16) hex_digits_allowed
        (omega arith) in
    let lo =
      all_below_sound 16 (λ n. not (should_escape (hex_digit n) true)) (c % 16) hex_digits_allowed
        (omega arith) in
    let rest = escape_all-IsAllowed cs h.1 in
    elim (Bool-cases (should_escape c true)) [
      | inl e ↦ rw e (inr refl, (inl (ground arith), (inl (ground arith), rest)))
      | inr e ↦ rw e (inl e, rest)
    ]

-- The name of a database has none of the bytes that are escaped, but for the percent sign.
pub encode_db_name-IsAllowed :
    (s : List ℕ) → All (λ c. c < 256) s → All IsAllowed (encode_db_name s)
unfolding encode_db_name
encode_db_name-IsAllowed s h = rw (escape-eq-escape_all s true) (escape_all-IsAllowed s h)
