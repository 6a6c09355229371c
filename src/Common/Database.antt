-- ===== src/Common/Database.antt =====
-- common/cpp/src/database/mongodb_client.cpp: the client of the database, its connection and its current
-- collection.
mod Client
pub mod Write
pub mod Read
pub mod Delete
pub mod Runs
pub mod Current
pub mod Serves
pub mod ListServer
pub mod Calls
mod Tests
pub mod Session
pub use Client.*
use asapo.Base.{
  ℕ, ◌+◌, Bool, true, false, ◌&&◌, not, List, [], ◌∷◌, ◌++◌, Option, none, some, ◌⊎◌, inl, inr,
  length, ltb, ◌==◌, if◌then◌else◌, Text, same_text,
}
use asapo.Common.Encoding.{encode_col_name, encode_db_name}

pub mongo_db_client : MongoDbClient
mongo_db_client = record {
  connected = false;
  client = false;
  write_concern = false;
  database_name = [];
  current_collection = no_collection;
  current_collection_name = [];
}

abbrev pub max_db_name_length : ℕ
max_db_name_length = 63

abbrev pub max_collection_name_length : ℕ
max_collection_name_length = 100

-- kDBDataCollectionNamePrefix with "_", and kDBMetaCollectionName, which is also a key of records.
abbrev pub data_prefix : Text
data_prefix = b'd' ∷ b'a' ∷ b't' ∷ b'a' ∷ b'_' ∷ []

abbrev pub meta_name : Text
meta_name = b'm' ∷ b'e' ∷ b't' ∷ b'a' ∷ []

-- `mongoc_collection_destroy` for a pointer that is not null.
abbrev pub destroy : MongoDbClient → Collection → Option MongoDbClient
destroy c no_collection = some c
destroy c destroyed = none
destroy c (collection _) = some (record c { current_collection = destroyed })

pub destroy_collection : MongoDbClient → Option MongoDbClient
destroy_collection c = destroy c c.current_collection

pub set_collection : Text → MongoDbClient → Option (Option DbError × MongoDbClient)
set_collection name c =
    let encoded_name = encode_col_name name in
    if ltb max_collection_name_length (length encoded_name)
    then some (some wrong_input, c)
    else if c.client
    then some (
      none,
      record c { current_collection = collection encoded_name; current_collection_name = name },
    )
    else none

abbrev pub select_after : Text → Option MongoDbClient → Option (Option DbError × MongoDbClient)
select_after name none = none
select_after name (some c) = set_collection name c

pub select_collection : Text → MongoDbClient → Option (Option DbError × MongoDbClient)
unfolding destroy_collection set_collection
select_collection name c =
    if same_text name c.current_collection_name
    then some (none, c)
    else select_after name (destroy_collection c)

abbrev pub keep_world :
    {W A : Type 0} → W → Option (A × MongoDbClient) → Option (A × (MongoDbClient × W))
keep_world w none = none
keep_world w (some (a, c)) = some (a, (c, w))

pub update_current_collection_if_needed : {W : Type 0} → Text → Db W (Option DbError)
unfolding select_collection
update_current_collection_if_needed name (c, w) = keep_world w (select_collection name c)

abbrev pub released : Option MongoDbClient → Option MongoDbClient
released none = none
released (some c) =
    some (record c { write_concern = false; current_collection = no_collection; client = false })

-- The pointers are null afterwards, and the name of the collection stays.
pub clean_up : MongoDbClient → Option MongoDbClient
unfolding destroy_collection
clean_up c = released (destroy_collection c)

abbrev pub after_clean_up :
    {W : Type 0}
    → Option DbError
    → W
    → Option MongoDbClient
    → Option (Option DbError × (MongoDbClient × W))
after_clean_up err w none = none
after_clean_up err w (some c) = some (err, (c, w))

module _ {W D : Type 0} (io : Mongo W D) where
  -- `InitializeClient`; the address stands for the text that DBAddress makes of it.
  pub initialize_client : Text → Db W (Option DbError)
  initialize_client address (c, w) =
      let (made, w') = io.client_new address w in
      if made
      then some (none, (record c { client = true; write_concern = true }, w'))
      else some (some bad_address, (record c { client = false }, w'))

  pub try_connect_database : Db W (Option DbError)
  try_connect_database (c, w) =
      let (answered, w') = io.ping w in
      if c.client
      then (if answered
          then some (none, (record c { connected = true }, w'))
          else some (some connection_error, (c, w')))
      else none

  clean_up_with : Option DbError → Db W (Option DbError)
  unfolding clean_up
  clean_up_with err (c, w) = after_clean_up err w (clean_up c)

  after_ping : Option DbError → Db W (Option DbError)
  unfolding clean_up_with
  after_ping none = pure none
  after_ping (some e) = clean_up_with (some e)

  after_initialize : Text → Option DbError → Db W (Option DbError)
  unfolding clean_up_with try_connect_database after_ping
  after_initialize database (some e) s = clean_up_with (some e) s
  after_initialize database none (c, w) =
      let encoded = encode_db_name database in
      let c' = record c { database_name = encoded } in
      if ltb max_db_name_length (length encoded)
      then clean_up_with (some wrong_input) (c', w)
      else continue after_ping (try_connect_database (c', w))

  pub connect : Text → Text → Db W (Option DbError)
  unfolding initialize_client after_initialize
  connect address database (c, w) =
      if c.connected
      then some (some already_connected, (c, w))
      else continue (after_initialize database) (initialize_client address (c, w))
