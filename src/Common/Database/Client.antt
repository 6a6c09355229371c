-- ===== src/Common/Database/Client.antt =====
-- common/cpp/src/database/mongodb_client.h and the calls of the MongoDB library: the fields of the client, and
-- computations on them. A text is the list of its bytes, none of them zero; a time is a number of nanoseconds
-- after the epoch. The member current_session_ is never set, so that there is no code for it here.
use asapo.Base.{ℕ, Bool, false, List, [], Option, none, some, ◌⊎◌, if◌then◌else◌, Text}

-- The types of `DBErrorType`, and `simple_error` for kSimpleError of the general errors.
pub data DbError : Type 0 where
  json_parse_error unknown_error connection_error not_connected insert_error : DbError
  duplicate_id already_connected bad_address memory_error no_record wrong_input : DbError
  simple_error : DbError

-- The fields of a `MessageMeta` that are used here, and all the others in one.
pub record MessageMeta : Type 0 where
  pub id : ℕ
  pub timestamp : ℕ
  pub dataset_substream : ℕ
  pub others : Text

pub record StreamInfo : Type 0 where
  pub last_id : ℕ
  pub name : Text
  pub finished : Bool
  pub next_stream : Text
  pub timestamp_created : ℕ
  pub timestamp_lastentry : ℕ

abbrev pub new_stream_info : StreamInfo
new_stream_info = record {
  last_id = 0;
  name = [];
  finished = false;
  next_stream = [];
  timestamp_created = 0;
  timestamp_lastentry = 0;
}

-- What `current_collection_` points to: nothing, a collection of this (encoded) name, or one that is destroyed.
pub data Collection : Type 0 where
  no_collection destroyed : Collection
  collection : Text → Collection

-- `client` and `write_concern` tell whether these pointers are set.
pub record MongoDbClient : Type 0 where
  pub connected : Bool
  pub client : Bool
  pub write_concern : Bool
  pub database_name : Text
  pub current_collection : Collection
  pub current_collection_name : Text

-- The codes of the library's errors: MONGOC_ERROR_DUPLICATE_KEY, 26 and the rest.
pub data MongoError : Type 0 where
  duplicate_key namespace_not_found other_code : MongoError

-- The filter and the options of a search. An id is at most the largest int64_t.
pub data Selector : Type 0 where
  by_id : ℕ → Selector
  by_string_id : Text → Selector
  last_record earliest_record : Selector

pub record Reply : Type 0 where
  pub upserted_count : ℕ
  pub modified_count : ℕ
  pub matched_count : ℕ

-- The calls of the library that go to the server, on a database and a collection; a document is a `D`.
-- `find` gives the documents as JSON, and whether the cursor has an error; `update_array` puts the
-- document into the array "messages" of the dataset; `find_and_modify` increments the counter and
-- gives its new value, if the reply has one. Of the rest, `bson_from_json` reads a document, and the
-- others append to one.
pub record Mongo (W D : Type 0) : Type 0 where
  pub client_new : Text → W → Bool × W
  pub ping : W → Bool × W
  pub insert_one : Text → Text → D → W → Option MongoError × W
  pub replace_one : Text → Text → Text → D → Bool → W → (MongoError ⊎ Reply) × W
  pub update_one : Text → Text → Text → D → Bool → W → (MongoError ⊎ Reply) × W
  pub update_array : Text → Text → MessageMeta → ℕ → D → W → Option MongoError × W
  pub find_and_modify : Text → Text → Text → W → (MongoError ⊎ Option ℕ) × W
  pub find : Text → Text → Selector → W → (List Text × Bool) × W
  pub collection_names : Text → Option Text → W → Option (List Text) × W
  pub drop_collection : Text → Text → W → Option MongoError × W
  pub delete_many : Text → Text → Text → W → Bool × W
  pub bson_from_json : Text → Option D
  pub append_meta : D → Option D
  pub append_id : Text → D → Option D

-- A computation on the client and the world; there is none after the use of a pointer that is null or
-- freed.
abbrev pub Db : Type 0 → Type 0 → Type 0
Db W A = MongoDbClient × W → Option (A × (MongoDbClient × W))

abbrev pub continue :
    {W A B : Type 0}
    → (A → Db W B)
    → Option (A × (MongoDbClient × W))
    → Option (B × (MongoDbClient × W))
continue f none = none
continue f (some (a, s)) = f a s

infixl 5 ◌>>=◌ ◌>>◌
abbrev pub ◌>>=◌ : {W A B : Type 0} → Db W A → (A → Db W B) → Db W B
◌>>=◌ m f s = continue f (m s)

abbrev pub ◌>>◌ : {W A B : Type 0} → Db W A → Db W B → Db W B
m >> k = m >>= λ _. k

abbrev pub pure : {W A : Type 0} → A → Db W A
pure a s = some (a, s)

abbrev pub client_state : {W : Type 0} → Db W MongoDbClient
client_state (c, w) = some (c, (c, w))

-- A call of the library with `client_` or with `current_collection_`.
abbrev pub with_client : {W A : Type 0} → (Text → W → A × W) → Db W A
with_client f (c, w) =
    if c.client then (let (a, w') = f c.database_name w in some (a, (c, w'))) else none

abbrev pub call_on :
    {W A : Type 0}
    → (Text → Text → W → A × W)
    → MongoDbClient
    → W
    → Collection
    → Option (A × (MongoDbClient × W))
call_on f c w (collection name) = let (a, w') = f c.database_name name w in some (a, (c, w'))
call_on f c w no_collection = none
call_on f c w destroyed = none

abbrev pub with_collection : {W A : Type 0} → (Text → Text → W → A × W) → Db W A
with_collection f (c, w) = call_on f c w c.current_collection
