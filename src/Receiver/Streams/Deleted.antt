-- ===== src/Receiver/Streams/Deleted.antt =====
-- The request to delete a stream (receiver/src/request_handler/request_handler_db_delete_stream.cpp).
use asapo.Base.{
  ◌≡◌, refl, ap, ◌∙◌, Bool, true, false, [], ◌++◌, Option, none, some, if◌then◌else◌, Text,
  same_text, if_both,
}
use asapo.Common.Encoding.{encode_col_name}
use asapo.Common.Database.{no_record, Mongo, data_prefix}
use asapo.Common.Database.Delete.Collections.{Server, remains}
use asapo.Common.Database.Delete.Dropped.{delete_stream_lem}
use asapo.Receiver.Request.{ReceiverError, bad_request}
use asapo.Receiver.Request.Handlers.{db_error_to_receiver_error}
use asapo.Common.DataStructs.{DeleteStreamOptions, decode_options}
use asapo.Receiver.Streams.{
  StreamRequest, RequestHandlerDb, HttpReply, Response, deleted_result, with_db, connect_if_needed,
  with_db_name, process_db, if_connected, connect_to, get_database_server_uri, respond, ask,
  delete_with, delete_stream_request,
}

-- What the producer is told, by the options and whether the stream is there.
abbrev pub answer : DeleteStreamOptions → Bool → Option ReceiverError
answer o there =
    if o.delete_meta
    then if there then none else if o.error_on_not_exist then some bad_request else none
    else none

deleted_result-answer :
    (there e : Bool)
    → deleted_result e (if there then none else some no_record)
      ≡ (if there then none else if e then some bad_request else none)
unfolding deleted_result db_error_to_receiver_error
deleted_result-answer true e = refl
deleted_result-answer false true = refl
deleted_result-answer false false = refl

with_db_name-keeps :
    (r : StreamRequest) (h : RequestHandlerDb)
    → ((with_db_name r h).connected_to_db ≡ h.connected_to_db)
      × ((with_db_name r h).db_client ≡ h.db_client)
unfolding with_db_name
with_db_name-keeps r h =
    if_both (λ k. (k.connected_to_db ≡ h.connected_to_db) × (k.db_client ≡ h.db_client))
      (same_text h.db_name []) _ h (refl, refl) (refl, refl)

module _ {W D : Type 0} (io : Mongo W D) (database_uri : Text) (http_get : W → HttpReply × W)
    (db : Text) (server : Server io db) where
  stays_connected :
      (h : RequestHandlerDb) (w : W)
      → h.connected_to_db ≡ true
      → connect_if_needed io database_uri http_get (h, w) ≡ some (none, (h, w))
  unfolding connect_if_needed
  stays_connected h w on =
      ap
        (λ b.
          if b
          then some (none, (h, w))
          else connect_to io database_uri http_get h
              (get_database_server_uri io database_uri http_get w))
        on

  -- The response and the collections that there are afterwards.
  abbrev pub Answers :
      DeleteStreamOptions → Text → Text → W → Option (Response × (RequestHandlerDb × W)) → Type 0
  Answers o stream m w result =
      let there = server.exists_in w (data_prefix ++ encode_col_name stream) in
      (s : RequestHandlerDb × W) × ((result ≡ some ((answer o there, none), s))
        × (server.exists_in s.1 m ≡ (
            if o.delete_meta
            then remains (encode_col_name stream) there (server.exists_in w) m
            else server.exists_in w m)))

  by_option :
      (a b : Bool) (stream m : Text) (h : RequestHandlerDb) (w : W)
      → h.db_client.client ≡ true
      → h.db_client.database_name ≡ db
      → Answers
          (record { delete_meta = a; error_on_not_exist = b })
          stream
          m
          w
          (delete_with io (record { delete_meta = a; error_on_not_exist = b }) stream (h, w))
  unfolding delete_with ask with_db respond
  by_option false b stream m h w set same = ((h, w), (refl, refl))
  by_option true b stream m h w set same =
      let there = server.exists_in w (data_prefix ++ encode_col_name stream) in
      let ((err, (c, w')), (e, (result, (left, rest)))) =
        delete_stream_lem io db server stream m [] h.db_client w set same in
      (
        (record h { db_client = c }, w'),
        (
          ap (λ r. respond (λ err. (deleted_result b err, none)) (with_db h r)) e
              ∙ ap (λ a. some ((a, none), (record h { db_client = c }, w')))
                  (ap (deleted_result b) result ∙ deleted_result-answer there b),
          left,
        ),
      )

  delete_with-Answers :
      (o : DeleteStreamOptions) (stream m : Text) (h : RequestHandlerDb) (w : W)
      → h.db_client.client ≡ true
      → h.db_client.database_name ≡ db
      → Answers o stream m w (delete_with io o stream (h, w))
  delete_with-Answers o stream m h w set same =
      by_option o.delete_meta o.error_on_not_exist stream m h w set same

  -- On a handler that is connected to the database of a server as `Server` says, the request to delete a
  -- stream ends. The producer is told that it is a bad request exactly if the metadata is to be
  -- deleted, the stream is not there, and this is to be an error; and that it succeeded otherwise. No
  -- collection is dropped unless the metadata is to be deleted and the stream is there; then they are its
  -- own and those whose names begin with its in-process and acknowledgement lists, in any case.
  pub delete_stream_request_lem :
      (r : StreamRequest) (m : Text) (h : RequestHandlerDb) (w : W)
      → h.connected_to_db ≡ true
      → h.db_client.client ≡ true
      → h.db_client.database_name ≡ db
      → Answers
          (decode_options r.flags)
          r.stream
          m
          w
          (delete_stream_request io database_uri http_get r (h, w))
  unfolding delete_stream_request process_db if_connected
  delete_stream_request_lem r m h w on set same =
      let o = decode_options r.flags in
      let (kept, client) = with_db_name-keeps r h in
      let k = with_db_name r h in
      let (s, (e, left)) =
        delete_with-Answers o r.stream m k w (ap (λ c. c.client) client ∙ set)
          (ap (λ c. c.database_name) client ∙ same) in
      (
        s,
        (ap (if_connected (delete_with io o r.stream)) (stays_connected k w (kept ∙ on)) ∙ e, left),
      )
