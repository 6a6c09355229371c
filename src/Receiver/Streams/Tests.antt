-- ===== src/Receiver/Streams/Tests.antt =====
-- A request to delete a stream.
use asapo.Base.{refl, true, false, List, [], ◌∷◌, none, Text}
use asapo.Common.Database.{no_collection, MongoDbClient}
use asapo.Common.Database.ListServer.{list_server, list_server_laws}
use asapo.Common.DataStructs.{decode_options}
use asapo.Receiver.Streams.{StreamRequest, RequestHandlerDb, HttpReply, delete_stream_request}
use asapo.Receiver.Streams.Deleted.{Answers, delete_stream_request_lem}

abbrev client : MongoDbClient
client = record {
  connected = true;
  client = true;
  write_concern = true;
  database_name = b'b' ∷ [];
  current_collection = no_collection;
  current_collection_name = [];
}

abbrev handler : RequestHandlerDb
handler = record { db_name = b'b' ∷ []; connected_to_db = true; db_client = client }

-- It asks to delete the metadata, and takes a stream that is not there as an error.
abbrev request : StreamRequest
request = record {
  beamtime_id = b'b' ∷ [];
  data_source = [];
  stream = b'a' ∷ [];
  flags = 3;
  ingest_mode = 0;
  api_version = 6;
  meta = none;
}

abbrev http_get : List Text → HttpReply × List Text
http_get w = (record { failed = false; code = 200; body = [] }, w)

-- "data_a"
abbrev data_a : Text
data_a = b'd' ∷ b'a' ∷ b't' ∷ b'a' ∷ b'_' ∷ b'a' ∷ []

delete_stream_request_lem_example :
    Answers list_server [] http_get
      (b'b' ∷ [])
      (list_server_laws (b'b' ∷ []))
      (decode_options 3)
      (b'a' ∷ [])
      data_a
      (data_a ∷ [])
      (delete_stream_request list_server [] http_get request (handler, data_a ∷ []))
delete_stream_request_lem_example =
    delete_stream_request_lem list_server [] http_get (b'b' ∷ []) (list_server_laws (b'b' ∷ []))
      request data_a handler (data_a ∷ []) refl refl refl
