-- ===== src/Common/Database/Session.antt =====
-- A session of the client in common/cpp/src/database/mongodb_client.cpp: its connection and the calls.
use asapo.Base.{
  ◌≡◌, refl, ap, sym, subst, inl, Bool, true, false, List, [], Option, none, some, All, ltb, length,
  if◌then◌else◌, if_both, arith, ◌∙◌, Text,
}
use asapo.Common.Encoding.{encode_db_name}
use asapo.Common.Database.{
  DbError, wrong_input, bad_address, connection_error, MessageMeta, MongoDbClient, mongo_db_client,
  no_collection, Mongo, Db, continue, ◌>>=◌, ◌>>◌, pure, connect, initialize_client,
  try_connect_database, after_ping, after_initialize, clean_up_with, clean_up, destroy,
  destroy_collection, released, after_clean_up, max_db_name_length,
}
use asapo.Common.Database.Read.{JsonReader}
use asapo.Common.Database.Read.Safe.{AllListed}
use asapo.Common.Database.Write.Counter.{Counts}
use asapo.Common.Database.Calls.{Call, IsTaken, run_calls, Serves-run_calls}
use asapo.Common.Database.Current.{IsReady}
use asapo.Common.Database.Serves.{Serves}

-- What a connection leaves: everything released, or a client that is ready.
abbrev pub Established : Text → Option DbError → MongoDbClient → Type 0
Established database (some e) c =
    (c.connected ≡ false) × ((c.client ≡ false) × (c.current_collection ≡ no_collection))
Established database none c = IsReady (encode_db_name database) c

module _ {W D : Type 0} (io : Mongo W D) where
  abbrev pub Connects : Text → Option (Option DbError × (MongoDbClient × W)) → Type 0
  Connects database result =
      (r : Option DbError × (MongoDbClient × W)) × ((result ≡ some r)
        × Established database r.0 r.1.0)

  -- A client that has no collection yet.
  abbrev IsNew : MongoDbClient → Type 0
  IsNew c =
      (c.connected ≡ false)
      × ((c.current_collection ≡ no_collection) × (c.current_collection_name ≡ []))

  clean_up-Connects :
      (database : Text) (e : DbError) (c : MongoDbClient) (w : W)
      → IsNew c
      → Connects database (clean_up_with io (some e) (c, w))
  unfolding clean_up_with clean_up destroy_collection
  clean_up-Connects database e c w p = (
    (
      some e,
      (record c { write_concern = false; current_collection = no_collection; client = false }, w),
    ),
    (ap (λ k. after_clean_up (some e) w (released (destroy c k))) p.1.0, (p.0, (refl, refl))),
  )

  answered-Connects :
      (database : Text) (c : MongoDbClient) (w : W) (answered : Bool)
      → IsNew c
      → c.client ≡ true
      → c.database_name ≡ encode_db_name database
      → Connects database (
          continue (after_ping io) (
            if answered
            then some (none, (record c { connected = true }, w))
            else some (some connection_error, (c, w))))
  unfolding after_ping
  answered-Connects database c w true new set named =
      (_, (refl, (refl, (set, (named, inl (new.1.1, λ e. ground arith))))))
  answered-Connects database c w false new set named =
      clean_up-Connects database connection_error c w new

  ping-Connects :
      (database : Text) (c : MongoDbClient) (w : W)
      → IsNew c
      → c.client ≡ true
      → c.database_name ≡ encode_db_name database
      → Connects database (continue (after_ping io) (try_connect_database io (c, w)))
  unfolding try_connect_database
  ping-Connects database c w new set named =
      let (answered, w') = io.ping w in
      subst
        (λ b. Connects database (
          continue (after_ping io) (
            if b
            then (if answered
                then some (none, (record c { connected = true }, w'))
                else some (some connection_error, (c, w')))
            else none)))
        (sym set) (answered-Connects database c w' answered new set named)

  initialize-Connects :
      (database : Text) (c : MongoDbClient) (w : W)
      → IsNew c
      → c.client ≡ true
      → Connects database (after_initialize io database none (c, w))
  unfolding after_initialize
  initialize-Connects database c w new set =
      let c' = record c { database_name = encode_db_name database } in
      if_both (Connects database) (ltb max_db_name_length (length (encode_db_name database)))
        (clean_up_with io (some wrong_input) (c', w))
        (continue (after_ping io) (try_connect_database io (c', w)))
        (clean_up-Connects database wrong_input c' w new) (ping-Connects database c' w new set refl)

  made-Connects :
      (database : Text) (w : W) (made : Bool)
      → Connects database (
          continue (after_initialize io database) (
            if made
            then some (none, (record mongo_db_client { client = true; write_concern = true }, w))
            else some (some bad_address, (record mongo_db_client { client = false }, w))))
  unfolding mongo_db_client after_initialize
  made-Connects database w true =
      initialize-Connects database (record mongo_db_client { client = true; write_concern = true })
        w (refl, (refl, refl)) refl
  made-Connects database w false =
      clean_up-Connects database bad_address (record mongo_db_client { client = false }) w
        (refl, (refl, refl))

  connect-Connects :
      (address database : Text) (w : W)
      → Connects database (connect io address database (mongo_db_client, w))
  unfolding connect initialize_client mongo_db_client
  connect-Connects address database w =
      let (made, w') = io.client_new address w in made-Connects database w' made

module _ {W D : Type 0} (io : Mongo W D) (message_json : MessageMeta → Text)
    (flattened_meta : Text → Option Text) (reader : JsonReader) where
  -- The calls are made if there is a connection.
  abbrev pub calls_if_connected : List Call → Option DbError → Db W (Option DbError)
  calls_if_connected xs (some e) = pure (some e)
  calls_if_connected xs none = run_calls io message_json flattened_meta reader xs >> pure none

  abbrev pub session : Text → Text → List Call → Db W (Option DbError)
  session address database xs = connect io address database >>= calls_if_connected xs

  calls-Connects :
      (database : Text) (xs : List Call) (err : Option DbError) (s : MongoDbClient × W)
      → Established database err s.0
      → Serves (encode_db_name database) (run_calls io message_json flattened_meta reader xs)
      → Connects io database (calls_if_connected xs err s)
  calls-Connects database xs (some e) s p h = ((some e, s), (refl, p))
  calls-Connects database xs none s p h =
      let (r, (e, q)) = h s p in ((none, r.1), (ap (continue (λ _. pure none)) e, q))

  -- With a new client, for counters that are never zero and listed streams with names that the client
  -- takes, a connection and any sequence of calls on names that it takes, of which no update of
  -- metadata is given a null pointer for them, end without the use of a null or freed pointer. An
  -- error of the connection leaves nothing open; else the client is connected to the database of this
  -- name, and its current collection is the one whose name it has noted, if it has noted one.
  pub session_lem :
      (address database : Text) (xs : List Call) (w : W)
      → ((name : Text) → Counts io (encode_db_name database) name)
      → ((w : W) → AllListed io reader (io.collection_names (encode_db_name database) none w).0)
      → All IsTaken xs
      → Connects io database (session address database xs (mongo_db_client, w))
  session_lem address database xs w counts listed names =
      let (r, (e, p)) = connect-Connects io address database w in
      let (r', (e', p')) = calls-Connects database xs r.0 r.1 p (
        Serves-run_calls io message_json flattened_meta reader (encode_db_name database) counts
          listed xs names) in
      (r', (ap (continue (calls_if_connected xs)) e ∙ e', p'))
