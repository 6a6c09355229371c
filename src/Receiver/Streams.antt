-- ===== src/Receiver/Streams.antt =====
-- The handlers of requests on streams and metadata: request_handler_db.cpp, request_handler_db_delete_stream.cpp,
-- request_handler_db_get_meta.cpp, request_handler_db_last_stream.cpp, request_handler_db_stream_info.cpp and
-- request_handler_db_meta_write.cpp of receiver/src/request_handler, on the client of the database.
pub mod Deleted
mod Tests
use asapo.Base.{
  ℕ, ◌+◌, ◌-◌, ◌*◌, ◌/◌, ◌%◌, Bool, true, false, not, List, [], ◌∷◌, ◌++◌, Option, none, some, ◌⊎◌,
  inl, inr, ltb, leb, ◌==◌, if◌then◌else◌, Text, same_text,
}
use asapo.Common.Database.{
  DbError, no_record, StreamInfo, new_stream_info, MongoDbClient, Mongo, Db, connect, data_prefix,
  meta_name,
}
use asapo.Common.Database.Write.{
  MetaIngestOp, insert_op, replace_op, update_op, unknown_op, MetaIngestMode, insert_meta,
}
use asapo.Common.Database.Read.{JsonReader, get_stream_info, get_last_stream, get_meta_from_db}
use asapo.Common.Database.Delete.{delete_stream}
use asapo.Common.DataStructs.{DeleteStreamOptions, decode_options, decode_mode}
use asapo.Receiver.Request.{ReceiverError, internal_error}
use asapo.Receiver.Request.Handlers.{db_error_to_receiver_error}

-- What the handlers read of a request. `flags` and `ingest_mode` are the entries 0 and kPosMetaIngestMode of
-- the custom data, `api_version` is the number of the version.
pub record StreamRequest : Type 0 where
  pub beamtime_id : Text
  pub data_source : Text
  pub stream : Text
  pub flags : ℕ
  pub ingest_mode : ℕ
  pub api_version : ℕ
  pub meta : Option Text

-- The fields of a handler of the database.
pub record RequestHandlerDb : Type 0 where
  pub db_name : Text
  pub connected_to_db : Bool
  pub db_client : MongoDbClient

pub record HttpReply : Type 0 where
  pub failed : Bool
  pub code : ℕ
  pub body : Text

-- The error of a handler, and the text that it sets as a response.
abbrev pub Response : Type 0
Response = Option ReceiverError × Option Text

abbrev pub Handles : Type 0 → Type 0 → Type 0
Handles W A = RequestHandlerDb × W → Option (A × (RequestHandlerDb × W))

-- "auto", "bt", "st_" and "_"
abbrev pub auto : Text
auto = b'a' ∷ b'u' ∷ b't' ∷ b'o' ∷ []

abbrev pub bt : Text
bt = b'b' ∷ b't' ∷ []

-- The id of the metadata of a stream, or of the beamtime.
pub meta_id : Text → Text
meta_id [] = bt
meta_id (c ∷ cs) = b's' ∷ b't' ∷ b'_' ∷ c ∷ cs

pub deleted_result : Bool → Option DbError → Option ReceiverError
deleted_result error_on_not_exist none = none
deleted_result error_on_not_exist (some no_record) =
    if error_on_not_exist then db_error_to_receiver_error (some no_record) else none
deleted_result error_on_not_exist (some e) = db_error_to_receiver_error (some e)

pub meta_result : DbError ⊎ Text → Response
meta_result (inr meta) = (none, some meta)
meta_result (inl no_record) = (none, some [])
meta_result (inl e) = (db_error_to_receiver_error (some e), none)

-- A state of a stream, as it is sent; `name` changes the name in it.
pub info_result : (StreamInfo → Text) → Option DbError × StreamInfo → Response
info_result json (some e, info) = (db_error_to_receiver_error (some e), none)
info_result json (none, info) = (none, some (json info))

pub with_db_name : StreamRequest → RequestHandlerDb → RequestHandlerDb
with_db_name r h =
    if same_text h.db_name []
    then record h { db_name = r.beamtime_id ++ (b'_' ∷ r.data_source) }
    else h

-- A call of the client of the handler.
pub with_db :
    {W A : Type 0}
    → RequestHandlerDb
    → Option (A × (MongoDbClient × W))
    → Option (A × (RequestHandlerDb × W))
with_db h none = none
with_db h (some (a, (c, w))) = some (a, (record h { db_client = c }, w))

-- What a handler does if the database is connected.
pub if_connected :
    {W : Type 0}
    → (RequestHandlerDb × W → Option (Response × (RequestHandlerDb × W)))
    → Option (Option ReceiverError × (RequestHandlerDb × W))
    → Option (Response × (RequestHandlerDb × W))
if_connected go none = none
if_connected go (some (some e, s)) = some ((some e, none), s)
if_connected go (some (none, s)) = go s

respond :
    {W A : Type 0}
    → (A → Response)
    → Option (A × (RequestHandlerDb × W))
    → Option (Response × (RequestHandlerDb × W))
respond f none = none
respond f (some (a, s)) = some (f a, s)

-- A call of the client, and the response made of its result.
pub ask :
    {W A : Type 0}
    → Db W A
    → (A → Response)
    → RequestHandlerDb × W
    → Option (Response × (RequestHandlerDb × W))
unfolding with_db respond
ask call f (h, w) = respond f (with_db h (call (h.db_client, w)))

-- `RequestHandlerDbDeleteStream::ProcessRequest` once the database is connected.
pub delete_with :
    {W D : Type 0}
    → Mongo W D
    → DeleteStreamOptions
    → Text
    → RequestHandlerDb × W
    → Option (Response × (RequestHandlerDb × W))
unfolding ask deleted_result
delete_with io options stream s =
    if options.delete_meta
    then ask (delete_stream io stream)
        (λ err. (deleted_result options.error_on_not_exist err, none)) s
    else some ((none, none), s)

-- `database_uri` and `http_get` are the configuration and the request to the discovery service.
module _ {W D : Type 0} (io : Mongo W D) (database_uri : Text) (http_get : W → HttpReply × W) where
  pub get_database_server_uri : W → (ReceiverError ⊎ Text) × W
  get_database_server_uri w =
      if same_text database_uri auto
      then (let (reply, w') = http_get w in
          if reply.failed
          then (inl internal_error, w')
          else if reply.code == 200
          then (inr reply.body, w')
          else (inl internal_error, w'))
      else (inr database_uri, w)

  connected_result :
      RequestHandlerDb
      → Option (Option DbError × (MongoDbClient × W))
      → Option (Option ReceiverError × (RequestHandlerDb × W))
  connected_result h none = none
  connected_result h (some (some e, (c, w))) =
      some (db_error_to_receiver_error (some e), (record h { db_client = c }, w))
  connected_result h (some (none, (c, w))) =
      some (none, (record h { db_client = c; connected_to_db = true }, w))

  connect_to :
      RequestHandlerDb
      → (ReceiverError ⊎ Text) × W
      → Option (Option ReceiverError × (RequestHandlerDb × W))
  unfolding connected_result
  connect_to h (inl e, w) = some (some e, (h, w))
  connect_to h (inr uri, w) = connected_result h (connect io uri h.db_name (h.db_client, w))

  -- `ConnectToDbIfNeeded`
  pub connect_if_needed : Handles W (Option ReceiverError)
  unfolding connect_to get_database_server_uri
  connect_if_needed (h, w) =
      if h.connected_to_db then some (none, (h, w)) else connect_to h (get_database_server_uri w)

  -- `RequestHandlerDb::ProcessRequest`
  pub process_db : StreamRequest → Handles W (Option ReceiverError)
  unfolding with_db_name connect_if_needed
  process_db r (h, w) = connect_if_needed (with_db_name r h, w)

  pub delete_stream_request : StreamRequest → Handles W Response
  unfolding process_db if_connected decode_options delete_with
  delete_stream_request r s =
      if_connected (delete_with io (decode_options r.flags) r.stream) (process_db r s)

  module _ (reader : JsonReader) (stream_info_json : StreamInfo → Text) where
    pub get_meta_request : StreamRequest → Handles W Response
    unfolding process_db if_connected ask meta_id meta_result
    get_meta_request r s =
        if_connected (ask (get_meta_from_db io reader meta_name (meta_id r.stream)) meta_result)
          (process_db r s)

    pub last_stream_request : StreamRequest → Handles W Response
    unfolding process_db if_connected ask info_result
    last_stream_request r s =
        if_connected
          (ask (get_last_stream io reader new_stream_info) (info_result stream_info_json))
          (process_db r s)

    pub stream_info_request : StreamRequest → Handles W Response
    unfolding process_db if_connected ask info_result
    stream_info_request r s =
        if_connected
          (ask (get_stream_info io reader (data_prefix ++ r.stream) new_stream_info)
            (info_result (λ info. stream_info_json (record info { name = r.stream }))))
          (process_db r s)

  -- The mode and the stream of the metadata, by the version of the producer.
  pub meta_mode : MetaIngestOp → StreamRequest → Text × MetaIngestMode
  unfolding decode_mode
  meta_mode unset r =
      if ltb r.api_version 3
      then ([], record { op = replace_op; upsert = true })
      else (r.stream, decode_mode unset r.ingest_mode)

  pub meta_write_request : (Text → Option Text) → MetaIngestOp → StreamRequest → Handles W Response
  unfolding process_db if_connected ask meta_mode meta_id
  meta_write_request flattened_meta unset r s =
      let (stream, mode) = meta_mode unset r in
      if_connected
        (ask (insert_meta io flattened_meta meta_name (meta_id stream) r.meta mode)
          (λ err. (db_error_to_receiver_error err, none)))
        (process_db r s)
