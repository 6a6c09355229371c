-- ===== src/Common/Encoding/Query.antt =====
-- A quoted text in a query stands for itself (common/cpp/src/database/encoding.cpp).
use asapo.Base.{
  ℕ, ◌≡◌, refl, ap, sym, ◌∙◌, Bool, true, false, ◌&&◌, ◌||◌, leb, List, [], ◌∷◌, Option, none, some,
  ◌==◌, if◌then◌else◌, arith, Bool-cases, inl, inr,
}
use asapo.Common.Encoding.{
  put_byte, is_one_of, should_escape_query, query_count, escape_query_all, escape_query,
}

-- The bytes with a meaning of their own in a regular expression, outside of brackets: \ ^ $ . [ | ( ) ? * + {
abbrev pub metacharacters : List ℕ
metacharacters =
    b'\\' ∷ b'^' ∷ b'$' ∷ b'.' ∷ b'[' ∷ b'|' ∷ b'(' ∷ b')' ∷ b'?' ∷ b'*' ∷ b'+' ∷ b'{' ∷ []

-- A letter or a digit, which a backslash gives a meaning.
abbrev pub is_alphanumeric : ℕ → Bool
is_alphanumeric c =
    (leb b'0' c && leb c b'9') || ((leb b'A' c && leb c b'Z') || (leb b'a' c && leb c b'z'))

-- A regular expression read as a plain text: after a backslash any byte but a letter or a digit stands
-- for itself, and an expression in which a byte has another meaning is refused.
abbrev pub literal : List ℕ → Option (List ℕ)
literal [] = some []
literal (c ∷ []) = if is_one_of metacharacters c then none else some (c ∷ [])
literal (c ∷ d ∷ rest) =
    let quoted = literal rest in
    let plain = literal (d ∷ rest) in
    if c == b'\\'
    then (if is_alphanumeric d then none else put_byte d quoted)
    else if is_one_of metacharacters c
    then none
    else put_byte c plain

escape_query_none : (s : List ℕ) → query_count s ≡ 0 → escape_query_all s ≡ s
unfolding query_count escape_query_all
escape_query_none [] h = refl
escape_query_none (c ∷ cs) h = ground (arith, escape_query_none cs)

not_alphanumeric : (c : ℕ) → should_escape_query c ≡ true → is_alphanumeric c ≡ false
unfolding should_escape_query is_one_of
not_alphanumeric c h = ground arith

plain_byte :
    (c : ℕ)
    → should_escape_query c ≡ false
    → (is_one_of metacharacters c ≡ false) × ((c == b'\\') ≡ false)
unfolding should_escape_query is_one_of
plain_byte c h = ground arith

literal-plain :
    (c : ℕ) (rest : List ℕ)
    → should_escape_query c ≡ false
    → literal (c ∷ rest) ≡ put_byte c (literal rest)
unfolding put_byte
literal-plain c [] h = let (p, q) = plain_byte c h in rw p refl
literal-plain c (d ∷ rest) h = let (p, q) = plain_byte c h in rw (q, p) refl

literal-escape_query_all : (s : List ℕ) → literal (escape_query_all s) ≡ some s
unfolding escape_query_all put_byte
literal-escape_query_all [] = refl
literal-escape_query_all (c ∷ cs) =
    let ih = ap (put_byte c) (literal-escape_query_all cs) in
    elim (Bool-cases (should_escape_query c)) [
      | inl e ↦ rw (e, not_alphanumeric c e) ih
      | inr e ↦ rw e (literal-plain c (escape_query_all cs) e ∙ ih)
    ]

-- The quoted text, read as a regular expression, is the plain text that was quoted: no byte in it has
-- another meaning, and a backslash stands before no letter and no digit.
pub literal-escape_query : (s : List ℕ) → literal (escape_query s) ≡ some s
unfolding escape_query
literal-escape_query s = elim (Bool-cases (query_count s == 0)) [
  | inl e ↦
      (let same = escape_query_none s (ground arith) in
        let read = literal-escape_query_all s in rw e (ap literal (sym same) ∙ read))
  | inr e ↦ rw e (literal-escape_query_all s)
]
