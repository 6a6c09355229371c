-- ===== src/Common/Encoding.antt =====
-- common/cpp/src/database/encoding.cpp: names of databases and collections, and quoted text in queries. A
-- text is the list of its bytes.
pub mod Names
pub mod Query
mod Tests
use asapo.Base.{
  ℕ, ◌+◌, ◌-◌, ◌*◌, ◌/◌, ◌%◌, Bool, true, false, ◌&&◌, ◌||◌, List, [], ◌∷◌, Option, none, some,
  ◌==◌, leb, if◌then◌else◌, get_elem?,
}

unfoldable pub should_escape : ℕ → Bool → Bool
should_escape c db =
    if c == b'$' || (c == b' ' || c == b'%')
    then true
    else if db
    then c == b'/' || (c == b'\\' || (c == b'.' || c == b'"'))
    else false

-- The digits of `upperhex`; past its end there is no digit.
abbrev pub upperhex : List ℕ
upperhex =
    b'0' ∷ b'1' ∷ b'2' ∷ b'3' ∷ b'4' ∷ b'5' ∷ b'6' ∷ b'7' ∷ b'8' ∷ b'9' ∷ b'A' ∷ b'B' ∷ b'C' ∷ b'D'
    ∷ b'E' ∷ b'F' ∷ []

pub hex_digit : ℕ → ℕ
hex_digit n = elim (get_elem? upperhex n) [ none ↦ 0 | some d ↦ d ]

-- The first loop of `Escape`.
unfoldable pub hex_count : List ℕ → Bool → ℕ
unfolding should_escape
hex_count [] db = 0
hex_count (c ∷ cs) db = (if should_escape c db then 1 else 0) + hex_count cs db

-- The second loop.
unfoldable pub escape_all : List ℕ → Bool → List ℕ
unfolding should_escape hex_digit
escape_all [] db = []
escape_all (c ∷ cs) db =
    let rest = escape_all cs db in
    if should_escape c db then b'%' ∷ hex_digit (c / 16) ∷ hex_digit (c % 16) ∷ rest else c ∷ rest

unfoldable pub escape : List ℕ → Bool → List ℕ
unfolding hex_count escape_all
escape s db = if hex_count s db == 0 then s else escape_all s db

pub is_hex : ℕ → Bool
is_hex x = (leb b'0' x && leb x b'9') || ((leb b'a' x && leb x b'f') || (leb b'A' x && leb x b'F'))

-- What `sscanf` reads for a digit.
pub hex_value : ℕ → ℕ
hex_value x = if leb x b'9' then x - b'0' else if leb x b'F' then x - b'A' + 10 else x - b'a' + 10

-- The bytes before the first zero.
unfoldable pub c_string : List ℕ → List ℕ
c_string [] = []
c_string (c ∷ cs) = if c == 0 then [] else c ∷ c_string cs

pub put_byte : ℕ → Option (List ℕ) → Option (List ℕ)
put_byte c none = none
put_byte c (some cs) = some (c ∷ cs)

-- The loop of `decode` on the bytes before the terminator, which is no digit.
pub decode : List ℕ → Option (List ℕ)
unfolding is_hex hex_value put_byte
decode [] = some []
decode (c ∷ []) = if c == b'%' then none else some (c ∷ [])
decode (c ∷ a ∷ []) = let plain = decode (a ∷ []) in if c == b'%' then none else put_byte c plain
decode (c ∷ a ∷ b ∷ rest) =
    let plain = decode (a ∷ b ∷ rest) in
    let escaped = decode rest in
    if c == b'%'
    then (if is_hex a && is_hex b then put_byte (16 * hex_value a + hex_value b) escaped else none)
    else put_byte c plain

pub encode_db_name : List ℕ → List ℕ
unfolding escape
encode_db_name dbname = escape dbname true

unfoldable pub encode_col_name : List ℕ → List ℕ
unfolding escape
encode_col_name colname = escape colname false

-- The empty text for what cannot be decoded.
pub decode_name : List ℕ → List ℕ
unfolding decode c_string
decode_name name = elim (decode (c_string name)) [ none ↦ [] | some decoded ↦ c_string decoded ]

abbrev pub query_chars : List ℕ
query_chars =
    b'-' ∷ b'[' ∷ b']' ∷ b'{' ∷ b'}' ∷ b'(' ∷ b')' ∷ b'*' ∷ b'+' ∷ b'?' ∷ b'\\' ∷ b'.' ∷ b',' ∷ b'^'
    ∷ b'$' ∷ b'|' ∷ b'#' ∷ []

pub is_one_of : List ℕ → ℕ → Bool
is_one_of [] c = false
is_one_of (x ∷ xs) c = c == x || is_one_of xs c

pub should_escape_query : ℕ → Bool
unfolding is_one_of
should_escape_query c = is_one_of query_chars c

pub query_count : List ℕ → ℕ
unfolding should_escape_query
query_count [] = 0
query_count (c ∷ cs) = (if should_escape_query c then 1 else 0) + query_count cs

pub escape_query_all : List ℕ → List ℕ
unfolding should_escape_query
escape_query_all [] = []
escape_query_all (c ∷ cs) =
    let rest = escape_query_all cs in if should_escape_query c then b'\\' ∷ c ∷ rest else c ∷ rest

pub escape_query : List ℕ → List ℕ
unfolding query_count escape_query_all
escape_query s = if query_count s == 0 then s else escape_query_all s
