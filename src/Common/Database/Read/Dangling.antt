-- ===== src/Common/Database/Read/Dangling.antt =====
-- What a name that is too long leaves behind in common/cpp/src/database/mongodb_client.cpp.
use asapo.Base.{
  ◌≡◌, ◌≢◌, ◌<◌, refl, ap, ◌∙◌, inl, inr, Bool, true, false, none, some, length, Bool-cases, arith,
  if◌then◌else◌, Text, same_text, same_text→≡,
}
use asapo.Common.Encoding.{encode_col_name}
use asapo.Common.Database.{
  wrong_input, MongoDbClient, destroyed, Mongo, Selector, last_record, StreamInfo, continue, ◌>>=◌,
  keep_world, destroy, destroy_collection, set_collection, select_after, select_collection,
  clean_up, update_current_collection_if_needed,
}
use asapo.Common.Database.Read.{JsonReader, search, get_record_from_db, after_last, get_stream_info}
use asapo.Common.Database.Current.{Selects}

same_text-differs : (xs ys : Text) → xs ≢ ys → same_text xs ys ≡ false
same_text-differs xs ys h = elim (Bool-cases (same_text xs ys)) [
  | inl e ↦ absurd (h (same_text→≡ xs ys e))
  | inr e ↦ e
]

set_too_long :
    (name : Text) (c : MongoDbClient)
    → 100 < length (encode_col_name name)
    → set_collection name c ≡ some (some wrong_input, c)
unfolding set_collection
set_too_long name c long = ground (arith, long)

-- The collection that was current is destroyed, and the name that is refused is not noted.
abbrev pub left_dangling : MongoDbClient → MongoDbClient
left_dangling c = record c { current_collection = destroyed }

select_too_long :
    (db old name : Text) (c : MongoDbClient)
    → Selects db old c
    → name ≢ old
    → 100 < length (encode_col_name name)
    → select_collection name c ≡ some (some wrong_input, left_dangling c)
unfolding select_collection destroy_collection
select_too_long db old name c p other long =
    rw (same_text-differs name c.current_collection_name (λ e. other (e ∙ p.1.1)))
      (ap (λ k. select_after name (destroy c k)) p.1.0 ∙ set_too_long name (left_dangling c) long)

if_true {ℓ} : {A : Type ℓ} (b : Bool) (x y : A) → b ≡ true → (if b then x else y) ≡ x
if_true b x y e = ap (λ b. if b then x else y) e

module _ {W D : Type 0} (io : Mongo W D) where
  search_dangling :
      (name : Text) (selector : Selector) (c : MongoDbClient) (w : W)
      → (update_current_collection_if_needed name >>= search io selector) (left_dangling c, w)
        ≡ none
  unfolding update_current_collection_if_needed select_collection destroy_collection search
  search_dangling name selector c w = elim (Bool-cases (same_text name c.current_collection_name)) [
    | inl e ↦ rw e refl
    | inr e ↦ rw e refl
  ]

  get_record_dangling :
      (name : Text) (selector : Selector) (c : MongoDbClient) (w : W)
      → c.connected ≡ true
      → get_record_from_db io name selector (left_dangling c, w) ≡ none
  unfolding get_record_from_db
  get_record_dangling name selector c w on =
      if_true c.connected _ _ on ∙ search_dangling name selector c w

  get_record_too_long :
      (db old name : Text) (selector : Selector) (c : MongoDbClient) (w : W)
      → Selects db old c
      → name ≢ old
      → 100 < length (encode_col_name name)
      → get_record_from_db io name selector (c, w) ≡ some (inl wrong_input, (left_dangling c, w))
  unfolding get_record_from_db update_current_collection_if_needed search
  get_record_too_long db old name selector c w p other long =
      if_true c.connected _ _ p.0.0
      ∙ ap (λ r. continue (search io selector) (keep_world w r))
          (select_too_long db old name c p other long)

  -- While there is a current collection, a request for the state of a stream whose other name is too long
  -- once encoded is refused, and destroys the current collection but keeps the pointer to it: every
  -- later search, for any name, and the destructor of the client then use or destroy it a second time.
  pub too_long :
      (reader : JsonReader) (db old name next : Text) (selector : Selector) (info : StreamInfo)
      (c : MongoDbClient) (w : W)
      → Selects db old c
      → name ≢ old
      → 100 < length (encode_col_name name)
      → (get_stream_info io reader name info (c, w)
          ≡ some ((some wrong_input, info), (left_dangling c, w)))
        × ((get_record_from_db io next selector (left_dangling c, w) ≡ none)
            × (clean_up (left_dangling c) ≡ none))
  unfolding get_stream_info after_last clean_up destroy_collection
  too_long reader db old name next selector info c w p other long = (
    ap (continue (after_last io reader name info))
        (get_record_too_long db old name last_record c w p other long),
    (get_record_dangling next selector c w p.0.0, refl),
  )
