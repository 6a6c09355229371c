-- ===== src/Common/Database/ListServer.antt =====
-- A server that keeps a list of collections and nothing else, to run the client of
-- common/cpp/src/database/mongodb_client.cpp on.
use asapo.Base.{
  ℕ, ◌≡◌, refl, ap, sym, ◌⊎◌, inl, inr, Bool, true, false, not, ◌&&◌, ◌||◌, List, [], ◌∷◌, Option,
  none, some, if◌then◌else◌, Bool-cases, arith, ◌∙◌, Text, same_text, same_text→≡,
}
use asapo.Common.Encoding.Query.{literal, literal-escape_query}
use asapo.Common.Database.{Mongo, namespace_not_found}
use asapo.Common.Database.Delete.Collections.{begins, has, Server}

abbrev keep_if : (Text → Bool) → List Text → List Text
keep_if p [] = []
keep_if p (x ∷ xs) = let rest = keep_if p xs in if p x then x ∷ rest else rest

abbrev choose_quoted : Option Text → List Text → Option (List Text)
choose_quoted none names = none
choose_quoted (some prefix) names = some (keep_if (begins prefix) names)

-- What a filter lists: a text after "^" is read as a quoted one.
abbrev listed : Option Text → List Text → Option (List Text)
listed none names = some names
listed (some []) names = some names
listed (some (c ∷ quoted)) names = choose_quoted (literal quoted) names

abbrev pub list_server : Mongo (List Text) ℕ
list_server = record {
  client_new = λ address w. (true, w);
  ping = λ w. (true, w);
  insert_one = λ db name document w. (none, w);
  replace_one = λ db name id document upsert w.
      (inr (record { upserted_count = 1; modified_count = 0; matched_count = 0 }), w);
  update_one = λ db name id document upsert w.
      (inr (record { upserted_count = 1; modified_count = 0; matched_count = 0 }), w);
  update_array = λ db name file size document w. (none, w);
  find_and_modify = λ db name id w. (inr none, w);
  find = λ db name selector w. (([], false), w);
  collection_names = λ db filter w. (listed filter w, w);
  drop_collection = λ db name w. (
    if has name w then none else some namespace_not_found,
    keep_if (λ m. not (same_text name m)) w,
  );
  delete_many = λ db name query w. (true, w);
  bson_from_json = λ json. some 0;
  append_meta = some;
  append_id = λ id document. some document;
}

kept : (s h p : Bool) → (s ≡ false) ⊎ (true ≡ p) → s || (h && p) ≡ (s || h) && p
kept false h p e = refl
kept true h p (inl e) = absurd (ground arith)
kept true h p (inr e) = e

left_out : (s h p : Bool) → (s ≡ false) ⊎ (false ≡ p) → h && p ≡ (s || h) && p
left_out false h p e = refl
left_out true h p (inl e) = absurd (ground arith)
left_out true false p (inr e) = e
left_out true true p (inr e) = refl

agrees : (p : Text → Bool) (x m : Text) (b : Bool) → p x ≡ b → (same_text x m ≡ false) ⊎ (b ≡ p m)
agrees p x m b e = elim (Bool-cases (same_text x m)) [
  | inl s ↦ inr (sym e ∙ ap p (same_text→≡ x m s))
  | inr s ↦ inl s
]

pub has-keep_if :
    (p : Text → Bool) (m : Text) (names : List Text) → has m (keep_if p names) ≡ has m names && p m
has-keep_if p m [] = refl
has-keep_if p m (x ∷ xs) = elim (Bool-cases (p x)) [
  | inl e ↦ rw (e, has-keep_if p m xs) (kept (same_text x m) (has m xs) (p m) (agrees p x m true e))
  | inr e ↦
      rw (e, has-keep_if p m xs) (left_out (same_text x m) (has m xs) (p m) (agrees p x m false e))
]

abbrev pub list_server_laws : (db : Text) → Server list_server db
list_server_laws db = record {
  exists_in = λ w m. has m w;
  drop_answer = λ name w. refl;
  drop_exists = λ name m w. has-keep_if (λ m. not (same_text name m)) m w;
  listing = λ prefix w. keep_if (begins prefix) w;
  lists = λ prefix w. ap (λ l. (choose_quoted l w, w)) (literal-escape_query prefix);
  lists_exact = λ prefix m w. has-keep_if (begins prefix) m w;
  delete_many_exists = λ name query m w. refl;
}
