-- ===== src/Common/Database/Tests.antt =====
-- Runs of the client of the database on small servers.
use asapo.Base.{
  ℕ, suc, ◌≡◌, ◌<◌, refl, ap, sym, subst, inr, true, false, not, ◌&&◌, List, [], ◌∷◌, ◌++◌, Option,
  none, some, if◌then◌else◌, arith, ◌∙◌, length, Text,
}
use asapo.Common.Encoding.{
  decode_name, encode_col_name, encode_db_name, escape, hex_count, escape_all, should_escape,
}
use asapo.Common.Encoding.Names.{decode-encode}
use asapo.Common.Database.{
  DbError, no_record, wrong_input, MessageMeta, new_stream_info, MongoDbClient, mongo_db_client,
  collection, Mongo, last_record, data_prefix, clean_up,
}
use asapo.Common.Database.Write.{insert_op, insert}
use asapo.Common.Database.Write.Counter.{Counts}
use asapo.Common.Database.Write.Stored.{Outcome, insert_lem}
use asapo.Common.Database.Read.{
  JsonReader, Info, get_stream_info, get_last_stream, get_record_from_db,
}
use asapo.Common.Database.Read.Safe.{AllListed}
use asapo.Common.Database.Read.Last.{LastOfListed, get_last_stream_lem}
use asapo.Common.Database.Read.Dangling.{left_dangling, too_long}
use asapo.Common.Database.Delete.{delete_stream, inprocess_prefix}
use asapo.Common.Database.Delete.Collections.{has, remains}
use asapo.Common.Database.Delete.Dropped.{delete_stream_lem}
use asapo.Common.Database.Calls.{
  Call, insert_call, insert_meta_call, get_last_stream_call, delete_stream_call,
}
use asapo.Common.Database.ListServer.{list_server, list_server_laws}
use asapo.Common.Database.Session.{Connects, session, session_lem}
use asapo.Common.Database.Current.{IsName, IsReady, Selects}

-- "data_a"
abbrev data_a : Text
data_a = b'd' ∷ b'a' ∷ b't' ∷ b'a' ∷ b'_' ∷ b'a' ∷ []

-- A server that accepts everything, with one counter.
abbrev server : Mongo ℕ ℕ
server = record {
  client_new = λ address w. (true, w);
  ping = λ w. (true, w);
  insert_one = λ db name document w. (none, w);
  replace_one = λ db name id document upsert w.
      (inr (record { upserted_count = 1; modified_count = 0; matched_count = 0 }), w);
  update_one = λ db name id document upsert w.
      (inr (record { upserted_count = 1; modified_count = 0; matched_count = 0 }), w);
  update_array = λ db name file size document w. (none, w);
  find_and_modify = λ db name id w. (inr (some (suc w)), suc w);
  find = λ db name selector w. (([] ∷ [], false), w);
  collection_names = λ db filter w. (some (data_a ∷ []), w);
  drop_collection = λ db name w. (none, w);
  delete_many = λ db name query w. (true, w);
  bson_from_json = λ json. some 0;
  append_meta = some;
  append_id = λ id document. some document;
}

abbrev message_json : MessageMeta → Text
message_json m = m.others

abbrev flattened_meta : Text → Option Text
flattened_meta json = some json

abbrev reader : JsonReader
reader = record {
  time_from_json = λ json key. some 1;
  get_uint64 = λ json key. some 1;
  get_string = λ json key. none;
  embedded = λ json key. none;
  set_message = λ json m. (true, m);
  dataset_content = λ json. (true, []);
}

abbrev message : MessageMeta
message = record { id = 0; timestamp = 0; dataset_substream = 0; others = [] }

-- "bt" and "a"
abbrev bt : Text
bt = b'b' ∷ b't' ∷ []

abbrev stream_a : Text
stream_a = b'a' ∷ []

abbrev long_name : Text
long_name =
    let ten =
      λ (rest : Text). b'x' ∷ b'x' ∷ b'x' ∷ b'x' ∷ b'x' ∷ b'x' ∷ b'x' ∷ b'x' ∷ b'x' ∷ b'x' ∷ rest in
    ten (ten (ten (ten (ten (ten (ten (ten (ten (ten (b'x' ∷ []))))))))))

-- The client once its collection is data_a.
abbrev open_client : MongoDbClient
open_client = record {
  connected = true;
  client = true;
  write_concern = true;
  database_name = stream_a;
  current_collection = collection data_a;
  current_collection_name = data_a;
}

encoded_data_a : encode_col_name data_a ≡ data_a
unfolding encode_col_name escape hex_count escape_all should_escape
encoded_data_a = refl

encoded_long : 100 < length (encode_col_name long_name)
unfolding encode_col_name escape hex_count escape_all should_escape
encoded_long = omega arith

data_a-IsName : IsName data_a
data_a-IsName = ((λ e. ground arith), rw encoded_data_a (omega arith))

data_a_decoded : decode_name data_a ≡ data_a
data_a_decoded =
    ap decode_name (sym encoded_data_a)
    ∙ (decode-encode data_a (
      (omega arith, omega arith),
      (
        (omega arith, omega arith),
        (
          (omega arith, omega arith),
          (
            (omega arith, omega arith),
            ((omega arith, omega arith), ((omega arith, omega arith), tt)),
          ),
        ),
      ),
    )).1

server-AllListed : (w : ℕ) → AllListed server reader (some (data_a ∷ []))
server-AllListed w = (inr (subst IsName (sym data_a_decoded) data_a-IsName), tt)

server-Counts : (db name : Text) → Counts server db name
server-Counts db name w = λ e. ground arith

open_client-Selects : Selects stream_a data_a open_client
open_client-Selects = (
  (refl, (refl, (refl, inr (ap collection (sym encoded_data_a))))),
  (ap collection (sym encoded_data_a), refl),
)

abbrev calls : List Call
calls =
    insert_call data_a message false
    ∷ get_last_stream_call new_stream_info
    ∷ delete_stream_call stream_a
    ∷ insert_meta_call data_a bt none (record { op = insert_op; upsert = false })
    ∷ []

session_lem_example :
    Connects server stream_a
      (session server message_json flattened_meta reader [] stream_a calls (mongo_db_client, 0))
session_lem_example =
    session_lem server message_json flattened_meta reader [] stream_a calls 0
      (server-Counts (encode_db_name stream_a)) server-AllListed
      (data_a-IsName, (tt, (tt, ((data_a-IsName, tt), tt))))

insert_lem_example :
    (r : (Option DbError × Option ℕ) × (MongoDbClient × ℕ)) × ((insert server message_json 2 data_a
          message false
          (open_client, 0)
        ≡ some r)
      × (Selects stream_a data_a r.1.0
          × Outcome server message_json stream_a data_a message false r.0))
insert_lem_example =
    insert_lem server message_json 0 stream_a data_a message false data_a-IsName
      (server-Counts stream_a data_a) (open_client, 0) open_client-Selects.0

too_long_example :
    (get_stream_info server reader long_name new_stream_info (open_client, 0)
      ≡ some ((some wrong_input, new_stream_info), (left_dangling open_client, 0)))
    × ((get_record_from_db server data_a last_record (left_dangling open_client, 0) ≡ none)
        × (clean_up (left_dangling open_client) ≡ none))
too_long_example =
    too_long server reader stream_a data_a long_name data_a last_record new_stream_info open_client
      0 open_client-Selects (λ e. ground arith) encoded_long

-- "inprocess_ab_1", which is of a stream "ab"
abbrev inprocess_ab : Text
inprocess_ab = inprocess_prefix ++ (b'a' ∷ b'b' ∷ b'_' ∷ b'1' ∷ [])

abbrev collections : List Text
collections = data_a ∷ inprocess_ab ∷ []

delete_stream_lem_example :
    (r : Option DbError × (MongoDbClient × List Text)) × ((delete_stream list_server stream_a
          (open_client, collections)
        ≡ some r)
      × ((r.0 ≡ (
            if has (data_prefix ++ encode_col_name stream_a) collections
            then none
            else some no_record))
          × ((has data_a r.1.1
                ≡ remains
                    (encode_col_name stream_a)
                    (has (data_prefix ++ encode_col_name stream_a) collections)
                    (λ m. has m collections)
                    data_a)
              × (has
                    (inprocess_prefix ++ (encode_col_name stream_a ++ (b'b' ∷ b'_' ∷ b'1' ∷ [])))
                    r.1.1
                  ≡ has
                      (inprocess_prefix ++ (encode_col_name stream_a ++ (b'b' ∷ b'_' ∷ b'1' ∷ [])))
                      collections
                    && not (has (data_prefix ++ encode_col_name stream_a) collections)))))
delete_stream_lem_example =
    delete_stream_lem list_server stream_a (list_server_laws stream_a) stream_a data_a
      (b'b' ∷ b'_' ∷ b'1' ∷ []) open_client collections refl refl

get_last_stream_lem_example :
    (r : Info × (MongoDbClient × ℕ)) × ((get_last_stream server reader new_stream_info
          (open_client, 0)
        ≡ some r)
      × (IsReady stream_a r.1.0 × LastOfListed server reader stream_a new_stream_info r.0))
get_last_stream_lem_example =
    get_last_stream_lem server reader stream_a new_stream_info server-AllListed (open_client, 0)
      open_client-Selects.0
