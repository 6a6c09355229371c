-- ===== src/Common/Database/Read.antt =====
-- The records that common/cpp/src/database/mongodb_client.cpp reads: messages, the state of a stream, the
-- last stream, and metadata.
pub mod Safe
pub mod Last
pub mod Dangling
use asapo.Base.{
  ℕ, ◌+◌, Bool, true, false, not, List, [], ◌∷◌, ◌++◌, Option, none, some, ◌⊎◌, inl, inr, ltb, ◌==◌,
  if◌then◌else◌, length, drop, Text, same_text,
}
use asapo.Common.Encoding.{encode_col_name, decode_name}
use asapo.Common.Database.{
  DbError, unknown_error, not_connected, json_parse_error, no_record, MessageMeta, StreamInfo,
  new_stream_info, MongoDbClient, Mongo, Selector, by_id, by_string_id, last_record,
  earliest_record, Db, ◌>>=◌, pure, with_client, with_collection,
  update_current_collection_if_needed, data_prefix, meta_name,
}

-- The keys of the records, and the keywords.
abbrev pub timestamp_key : Text
timestamp_key = b't' ∷ b'i' ∷ b'm' ∷ b'e' ∷ b's' ∷ b't' ∷ b'a' ∷ b'm' ∷ b'p' ∷ []

abbrev pub id_key : Text
id_key = b'_' ∷ b'i' ∷ b'd' ∷ []

abbrev pub name_key : Text
name_key = b'n' ∷ b'a' ∷ b'm' ∷ b'e' ∷ []

abbrev pub next_stream_key : Text
next_stream_key = b'n' ∷ b'e' ∷ b'x' ∷ b't' ∷ b'_' ∷ b's' ∷ b't' ∷ b'r' ∷ b'e' ∷ b'a' ∷ b'm' ∷ []

abbrev pub finish_stream_keyword : Text
finish_stream_keyword =
    b'a' ∷ b's' ∷ b'a' ∷ b'p' ∷ b'o' ∷ b'_' ∷ b'f' ∷ b'i' ∷ b'n' ∷ b'i' ∷ b's' ∷ b'h' ∷ b'_' ∷ b's'
    ∷ b't' ∷ b'r' ∷ b'e' ∷ b'a' ∷ b'm' ∷ []

abbrev pub no_next_stream_keyword : Text
no_next_stream_keyword =
    b'a' ∷ b's' ∷ b'a' ∷ b'p' ∷ b'o' ∷ b'_' ∷ b'n' ∷ b'o' ∷ b'_' ∷ b'n' ∷ b'e' ∷ b'x' ∷ b't' ∷ []

-- What the JSON reader finds in a text: `time_from_json` is TimeFromJson, `embedded` is GetRawString of
-- Embedded; `set_message` and `dataset_content` are SetFromJson of a message and of a new dataset,
-- with its answer.
pub record JsonReader : Type 0 where
  pub time_from_json : Text → Text → Option ℕ
  pub get_uint64 : Text → Text → Option ℕ
  pub get_string : Text → Text → Option Text
  pub embedded : Text → Text → Option Text
  pub set_message : Text → MessageMeta → Bool × MessageMeta
  pub dataset_content : Text → Bool × List MessageMeta

pub last_document : Text → List Text → Text
last_document first [] = first
last_document first (x ∷ xs) = last_document x xs

-- The loop over the cursor, and whether it then has an error.
pub record_result : List Text × Bool → DbError ⊎ Text
unfolding last_document
record_result (documents, true) = inl unknown_error
record_result ([], false) = inl no_record
record_result (x ∷ xs, false) = inr (last_document x xs)

-- The search in `GetDataSetById`.
pub find_substream : ℕ → List MessageMeta → Option MessageMeta
find_substream id_in_set [] = none
find_substream id_in_set (m ∷ ms) =
    let rest = find_substream id_in_set ms in
    if m.dataset_substream == id_in_set then some m else rest

or_empty : Option Text → Text
or_empty none = []
or_empty (some s) = s

pub mongo_collection_is_data_stream : Text → Bool
mongo_collection_is_data_stream (a ∷ b ∷ c ∷ d ∷ e ∷ rest) =
    same_text (a ∷ b ∷ c ∷ d ∷ e ∷ []) data_prefix
mongo_collection_is_data_stream _ = false

-- An error, and the structure that the function writes to.
abbrev pub Info : Type 0
Info = Option DbError × StreamInfo

module _ (reader : JsonReader) where
  pub update_stream_info_from_earliest_record : Text → StreamInfo → Info
  update_stream_info_from_earliest_record earliest info =
      elim (reader.time_from_json earliest timestamp_key) [
        | none ↦ (some json_parse_error, info)
        | some created ↦ (none, record info { timestamp_created = created })
      ]

  pub update_finished_stream_info : Text → StreamInfo → Info
  update_finished_stream_info metadata info =
      let info' = record info { finished = true } in
      elim (reader.get_string metadata next_stream_key) [
        | none ↦ (some json_parse_error, info')
        | some next ↦
            if same_text next no_next_stream_keyword
            then (none, info')
            else (none, record info' { next_stream = next })
      ]

  pub update_finished_info : Text → StreamInfo → Info
  unfolding or_empty update_finished_stream_info
  update_finished_info last info =
      if same_text (or_empty (reader.get_string last name_key)) finish_stream_keyword
      then elim (reader.embedded last meta_name) [
        | none ↦ (some json_parse_error, info)
        | some metadata ↦ update_finished_stream_info metadata info
      ]
      else (none, info)

  pub update_stream_info_from_last_record : Text → StreamInfo → Info
  unfolding update_finished_info
  update_stream_info_from_last_record last info = elim (reader.time_from_json last timestamp_key) [
    | none ↦ (some json_parse_error, info)
    | some timestamp_last ↦ elim (reader.get_uint64 last id_key) [
      | none ↦ (some json_parse_error, info)
      | some id ↦
          update_finished_info last
            (record info { timestamp_lastentry = timestamp_last; last_id = id })
    ]
  ]

  -- After `UpdateStreamInfoFromLastRecord`.
  with_earliest : Text → Info → Info
  unfolding update_stream_info_from_earliest_record
  with_earliest earliest (some e, info) = (some e, info)
  with_earliest earliest (none, info) = update_stream_info_from_earliest_record earliest info

  pub stream_info_from_db_response : Text → Text → StreamInfo → Info
  unfolding update_stream_info_from_last_record with_earliest
  stream_info_from_db_response last earliest info =
      with_earliest earliest (update_stream_info_from_last_record last info)

module _ {W D : Type 0} (io : Mongo W D) where
  search : Selector → Option DbError → Db W (DbError ⊎ Text)
  unfolding record_result
  search selector (some e) = pure (inl e)
  search selector none = do
    found ← with_collection (λ db col. io.find db col selector)
    pure (record_result found)

  pub get_record_from_db : Text → Selector → Db W (DbError ⊎ Text)
  unfolding search
  get_record_from_db name selector (c, w) =
      if c.connected
      then (do err ← update_current_collection_if_needed name; search selector err) (c, w)
      else some (inl not_connected, (c, w))

  module _ (reader : JsonReader) where
    -- The error that is made when the text cannot be read is not returned.
    pub message_of : MessageMeta → DbError ⊎ Text → Option DbError × MessageMeta
    message_of file (inl e) = (some e, file)
    message_of file (inr text) = let (_, file') = reader.set_message text file in (none, file')

    pub get_by_id : Text → ℕ → MessageMeta → Db W (Option DbError × MessageMeta)
    unfolding message_of
    get_by_id name id file = do
      text ← get_record_from_db name (by_id id)
      pure (message_of file text)

    message_found : MessageMeta → Option MessageMeta → Option DbError × MessageMeta
    message_found file none = (some no_record, file)
    message_found file (some m) = (none, m)

    pub message_of_dataset : ℕ → MessageMeta → DbError ⊎ Text → Option DbError × MessageMeta
    unfolding message_found find_substream
    message_of_dataset id_in_set file (inl e) = (some e, file)
    message_of_dataset id_in_set file (inr text) =
        let (_, content) = reader.dataset_content text in
        message_found file (find_substream id_in_set content)

    pub get_data_set_by_id : Text → ℕ → ℕ → MessageMeta → Db W (Option DbError × MessageMeta)
    unfolding message_of_dataset
    get_data_set_by_id name id_in_set id file = do
      text ← get_record_from_db name (by_id id)
      pure (message_of_dataset id_in_set file text)

    -- `GetStreamInfo` after its last and after its earliest record.
    after_earliest : Text → StreamInfo → DbError ⊎ Text → Info
    unfolding stream_info_from_db_response
    after_earliest last info (inl e) = (some e, info)
    after_earliest last info (inr earliest) = stream_info_from_db_response reader last earliest info

    after_last : Text → StreamInfo → DbError ⊎ Text → Db W Info
    unfolding after_earliest
    after_last name info (inl no_record) = pure (none, new_stream_info)
    after_last name info (inl e) = pure (some e, info)
    after_last name info (inr last) = do
      earliest ← get_record_from_db name earliest_record
      pure (after_earliest last info earliest)

    pub get_stream_info : Text → StreamInfo → Db W Info
    unfolding after_last
    get_stream_info name info = do
      last ← get_record_from_db name last_record
      after_last name info last

    newer_of : Text → StreamInfo → Info → Info
    newer_of name info (some e, next_info) = (some e, info)
    newer_of name info (none, next_info) =
        if ltb info.timestamp_created next_info.timestamp_created
        then (none, record next_info { name = drop (length data_prefix) name })
        else (none, info)

    pub update_last_stream_info : Text → StreamInfo → Db W Info
    unfolding mongo_collection_is_data_stream newer_of
    update_last_stream_info name info s =
        let collection_name = decode_name name in
        if mongo_collection_is_data_stream collection_name
        then (do
          next ← get_stream_info collection_name new_stream_info
          pure (newer_of collection_name info next))
            s
        else some ((none, info), s)

    -- The loop over the names of the collections.
    update_unless : (StreamInfo → Db W Info) → Info → Db W Info
    update_unless rest (some e, info) = pure (some e, info)
    update_unless rest (none, info) = rest info

    pub update_last_stream : List Text → StreamInfo → Db W Info
    unfolding update_last_stream_info update_unless
    update_last_stream [] info = pure (none, info)
    update_last_stream (x ∷ xs) info = do
      result ← update_last_stream_info x info
      update_unless (update_last_stream xs) result

    decode_on_error : Info → Info
    decode_on_error (none, info) = (none, info)
    decode_on_error (some e, info) = (some e, record info { name = decode_name info.name })

    over_names : StreamInfo → Option (List Text) → Db W Info
    unfolding update_last_stream
    over_names info none = pure (some unknown_error, info)
    over_names info (some names) = update_last_stream names info

    pub get_last_stream : StreamInfo → Db W Info
    unfolding over_names decode_on_error
    get_last_stream info (c, w) =
        if c.connected
        then (do
          names ← with_client (λ db. io.collection_names db none)
          result ← over_names (record info { timestamp_created = 0; timestamp_lastentry = 0 }) names
          pure (decode_on_error result))
            (c, w)
        else some ((some not_connected, info), (c, w))

    raw_meta : DbError ⊎ Text → DbError ⊎ Text
    raw_meta (inl e) = inl e
    raw_meta (inr text) = elim (reader.embedded text meta_name) [
      | none ↦ inl json_parse_error
      | some meta ↦ inr meta
    ]

    pub get_meta_from_db : Text → Text → Db W (DbError ⊎ Text)
    unfolding raw_meta
    get_meta_from_db name id = do
      text ← get_record_from_db name (by_string_id (encode_col_name id))
      pure (raw_meta text)
