-- ===== src/Receiver/Request/Handlers.antt =====
-- The handlers that store a message: request_handler_file_process.cpp, request_handler_db.cpp,
-- request_handler_db_check_request.cpp and request_handler_db_write.cpp of
-- receiver/src/request_handler. The calls of the file processor, of the database and of the discovery
-- service are the functions of a record. Texts are numbers: 0 is "", 1 is "{}".
pub mod Store
mod Tests
use asapo.Base.{
  ℕ, ◌⊎◌, inl, inr, Bool, true, false, ◌&&◌, ◌==◌, if◌then◌else◌, Option, none, some, State, ◌>>=◌,
  ◌>>◌, pure, effect, not,
}
use asapo.Common.Database.{DbError, json_parse_error, no_record, wrong_input, duplicate_id}
use asapo.Receiver.Request.{
  ReceiverError, bad_request, internal_error, warning_duplicated_request, file_already_exists,
  warning_message, Request, Step, set_response_message, set_already_processed_flag,
}

-- The fields of a `MessageMeta` that are compared.
pub record MessageMeta : Type 0 where
  pub size : ℕ
  pub name : ℕ
  pub metadata : ℕ

-- The two handlers of the database that are used here; each has its own connection.
pub data DbHandler : Type 0 where
  check_handler write_handler : DbHandler

-- What the handlers call. `process_file` takes the flag that allows to overwrite; `get_record` is
-- `GetRecordFromDb`, `insert_record` is `InsertRecordToDb`, `discover_database` is
-- `GetDatabaseServerUri`; `connected_to_db` and `set_connected` are a handler's field, and `connect`
-- uses its database's name.
pub record Storage (W : Type 0) : Type 0 where
  pub process_file : Bool → State W (Option ReceiverError)
  pub connected_to_db : DbHandler → W → Bool
  pub set_connected : DbHandler → W → W
  pub discover_database : State W (ReceiverError ⊎ ℕ)
  pub connect : DbHandler → ℕ → State W (Option DbError)
  pub get_record : State W (DbError ⊎ MessageMeta)
  pub insert_record : State W (Option DbError)

unfoldable pub db_error_to_receiver_error : Option DbError → Option ReceiverError
db_error_to_receiver_error none = none
db_error_to_receiver_error (some wrong_input) = some bad_request
db_error_to_receiver_error (some no_record) = some bad_request
db_error_to_receiver_error (some json_parse_error) = some bad_request
db_error_to_receiver_error (some _) = some internal_error

pub same_request_in_record : MessageMeta → MessageMeta → Bool
same_request_in_record request record_in_db =
    let meta = if request.metadata == 0 then 1 else request.metadata in
    request.size == record_in_db.size
    && (request.name == record_in_db.name && meta == record_in_db.metadata)

-- The messages that the handlers set.
abbrev pub file_overwritten : ℕ
file_overwritten = 1

abbrev pub duplicated_request_ignored : ℕ
duplicated_request_ignored = 2

abbrev pub ignoring_duplicate_record : ℕ
ignoring_duplicate_record = 3

module _ {W : Type 0} (io : Storage W) (request : MessageMeta) where
  pub connect_to_db_if_needed : DbHandler → State W (Option ReceiverError)
  connect_to_db_if_needed h w = elim (io.connected_to_db h w) [
    | true ↦ (none, w)
    | false ↦
        (do
          uri ← io.discover_database
          elim uri [
            | inl e ↦ pure (some e)
            | inr u ↦ do
              err ← io.connect h u
              elim err [
                | some e ↦ pure (db_error_to_receiver_error (some e))
                | none ↦ do effect (io.set_connected h); pure none
              ]
          ])
          w
  ]

  -- `RequestHandlerDbCheckRequest::ProcessRequest` on the record that was found.
  pub compare_record : DbError ⊎ MessageMeta → Option ReceiverError
  compare_record (inl no_record) = db_error_to_receiver_error none
  compare_record (inl e) = db_error_to_receiver_error (some e)
  compare_record (inr record_in_db) =
      if same_request_in_record request record_in_db
      then some warning_duplicated_request
      else some bad_request

  pub check_for_duplicates : State W (Option ReceiverError)
  check_for_duplicates = do
    err ← connect_to_db_if_needed check_handler
    elim err [
      | some e ↦ pure (some e)
      | none ↦ do found ← io.get_record; pure (compare_record found)
    ]

  -- `ProcessFileExistSituation` after the check for duplicates.
  pub on_file_exists : Option ReceiverError → Step W
  on_file_exists none r = do
    err ← io.process_file true
    pure (err, set_response_message r file_overwritten warning_message)
  on_file_exists (some warning_duplicated_request) r = pure (
    none,
    set_response_message (set_already_processed_flag r) duplicated_request_ignored warning_message,
  )
  on_file_exists (some e) r = pure (some e, r)

  -- `RequestHandlerFileProcess::ProcessRequest` after the first `ProcessFile`.
  pub after_file : Option ReceiverError → Step W
  after_file (some file_already_exists) r = do
    duplicate ← check_for_duplicates
    on_file_exists duplicate r
  after_file err r = pure (err, r)

  pub file_process_request : Step W
  file_process_request r = do err ← io.process_file false; after_file err r

  -- `ProcessDuplicateRecordSituation` after the check for duplicates.
  pub on_duplicate_record : Option ReceiverError → Step W
  on_duplicate_record (some warning_duplicated_request) r =
      pure (none, set_response_message r ignoring_duplicate_record warning_message)
  on_duplicate_record err r = pure (err, r)

  -- `RequestHandlerDbWrite::ProcessRequest` after the insertion.
  pub after_insert : Option DbError → Step W
  after_insert (some duplicate_id) r = do
    check_err ← check_for_duplicates
    on_duplicate_record check_err r
  after_insert err r = pure (db_error_to_receiver_error err, r)

  pub db_write_request : Step W
  db_write_request r = elim (r.already_processed) [
    | true ↦ pure (none, r)
    | false ↦ do
      err ← connect_to_db_if_needed write_handler
      elim err [
        | some e ↦ pure (some e, r)
        | none ↦ do inserted ← io.insert_record; after_insert inserted r
      ]
  ]
