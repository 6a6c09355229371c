-- ===== src/Common/Encoding/Tests.antt =====
-- The theorems about encoded names and quoted texts at concrete texts, and runs of the code.
use asapo.Base.{ℕ, ◌≡◌, refl, List, [], ◌∷◌, some, All, arith}
use asapo.Common.Encoding.{
  encode_db_name, encode_col_name, decode_name, escape, escape_all, hex_count, should_escape,
  hex_digit, decode, is_hex, hex_value, put_byte, c_string, escape_query, escape_query_all,
  query_count, should_escape_query, is_one_of,
}
use asapo.Common.Encoding.Names.{IsChar, decode-encode}
use asapo.Common.Encoding.Query.{literal, literal-escape_query}

-- "a.b$"
abbrev text : List ℕ
text = b'a' ∷ b'.' ∷ b'b' ∷ b'$' ∷ []

text-All : All IsChar text
text-All = omega arith

decode-encode_example :
    (decode_name (encode_db_name text) ≡ text) × (decode_name (encode_col_name text) ≡ text)
decode-encode_example = decode-encode text text-All

literal-escape_query_example : literal (escape_query text) ≡ some text
literal-escape_query_example = literal-escape_query text

encodes : encode_db_name text ≡ b'a' ∷ b'%' ∷ b'2' ∷ b'E' ∷ b'b' ∷ b'%' ∷ b'2' ∷ b'4' ∷ []
unfolding encode_db_name escape hex_count escape_all should_escape hex_digit
encodes = refl

quotes : escape_query text ≡ b'a' ∷ b'\\' ∷ b'.' ∷ b'b' ∷ b'\\' ∷ b'$' ∷ []
unfolding escape_query escape_query_all query_count should_escape_query is_one_of
quotes = refl

-- A percent sign that is followed by no two digits cannot be decoded.
decode_fails : decode_name (b'a' ∷ b'%' ∷ b'2' ∷ []) ≡ []
unfolding decode_name decode c_string is_hex hex_value put_byte
decode_fails = refl
