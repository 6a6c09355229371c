-- ===== src/Producer/Send.antt =====
-- producer/api/cpp/src/producer_impl.cpp: the checks of a message, its header, and its way into the pool of
-- requests. A text is a number with its length; a pointer to data is a number.
pub mod Checks
pub mod Delivery
mod Tests
use asapo.Base.{
  ℕ, ◌+◌, Bool, true, false, not, ◌&&◌, ◌||◌, Option, none, some, ltb, ◌==◌, if◌then◌else◌, add64,
}
use asapo.Common.Networking.{
  transfer_data, transfer_dataset_data, GenericRequestHeader, has_flag, mask, transfer_data_flag,
  transfer_meta_data_only, store_in_filesystem, store_in_database,
}
use asapo.Producer.Request.{ProducerRequest, data_from_file}
use asapo.Common.RequestPool.{RequestPool, GenericRequest, NoSpaceLeft, add_request}

pub record Text : Type 0 where
  pub value : ℕ
  pub size : ℕ

abbrev pub is_empty : Text → Bool
is_empty t = t.size == 0

pub record MessageHeader : Type 0 where
  pub message_id : ℕ
  pub data_size : ℕ
  pub file_name : Text
  pub user_metadata : Text
  pub dataset_substream : ℕ
  pub dataset_size : ℕ
  pub auto_id : Bool

-- The messages of `ProducerErrorTemplates::kWrongInput`.
pub data WrongInput : Type 0 where
  wrong_ingest_mode too_long_filename empty_filename dataset_dimensions : WrongInput
  auto_id_of_dataset id_should_be_zero id_should_be_positive stream_empty : WrongInput
  need_data zero_data_size : WrongInput

-- `if (auto err = …) return err`.
abbrev pub or_else : Option WrongInput → Option WrongInput → Option WrongInput
or_else (some e) next = some e
or_else none next = next

abbrev pub max_message_size : ℕ
max_message_size = 1024

pub check_ingest_mode : ℕ → Option WrongInput
unfolding has_flag
check_ingest_mode m =
    let sends_data = has_flag m transfer_data_flag in
    let meta_only = has_flag m transfer_meta_data_only in
    let to_file = has_flag m store_in_filesystem in
    let to_database = has_flag m store_in_database in
    if sends_data && meta_only
    then some wrong_ingest_mode
    else if not sends_data && not meta_only
    then some wrong_ingest_mode
    else if sends_data && not (to_database || to_file)
    then some wrong_ingest_mode
    else if meta_only && to_file
    then some wrong_ingest_mode
    else none

pub check_file_name_in_request : MessageHeader → Option WrongInput
check_file_name_in_request h =
    if ltb max_message_size h.file_name.size
    then some too_long_filename
    else if is_empty h.file_name
    then some empty_filename
    else none

pub check_dataset_in_request : MessageHeader → Option WrongInput
check_dataset_in_request h =
    if h.dataset_substream == 0
    then none
    else if h.dataset_size == 0
    then some dataset_dimensions
    else if h.auto_id
    then some auto_id_of_dataset
    else none

pub check_message_id_in_request : MessageHeader → Option WrongInput
check_message_id_in_request h =
    if h.auto_id
    then (if h.message_id == 0 then none else some id_should_be_zero)
    else (if h.message_id == 0 then some id_should_be_positive else none)

pub check_producer_request : MessageHeader → ℕ → Text → Option WrongInput
check_producer_request h ingest_mode stream =
    if is_empty stream
    then some stream_empty
    else or_else (check_file_name_in_request h) (
        or_else (check_dataset_in_request h)
          (or_else (check_message_id_in_request h) (check_ingest_mode ingest_mode)))

-- `GenerateNextSendRequest`; the constructor of a header sets its other parameters to zero.
pub generate_next_send_request : MessageHeader → Text → ℕ → GenericRequestHeader
generate_next_send_request h stream ingest_mode =
    let dataset = not (h.dataset_substream == 0) in
    record {
      op_code = if dataset then transfer_dataset_data else transfer_data;
      data_id = h.message_id;
      data_size = h.data_size;
      meta_size = h.user_metadata.size;
      ingest_mode = ingest_mode;
      dataset_id = if dataset then h.dataset_substream else 0;
      dataset_size = if dataset then h.dataset_size else 0;
      message = h.file_name.value;
      stream = stream.value;
    }

pub check_data : ℕ → MessageHeader → Option ℕ → Option WrongInput
unfolding has_flag
check_data ingest_mode h pointer =
    if has_flag ingest_mode transfer_data_flag
    then elim pointer [
      | none ↦ some need_data
      | some _ ↦ if h.data_size == 0 then some zero_data_size else none
    ]
    else none

pub data SendError : Type 0 where
  wrong_input : WrongInput → SendError
  request_pool_is_full : SendError

-- An error, with the data that its `OriginalData` hands back, if there is one.
pub record SendResult : Type 0 where
  pub error : SendError
  pub original_data : Option ℕ

-- `HandleInputError` and the end of `HandleErrorFromPool`. Where the data is not handed back with the error,
-- it is released, not freed: its memory is the caller's.
pub with_original : SendError → Option ℕ → Bool → SendResult
with_original e pointer manage_data_memory = record {
  error = e;
  original_data = if manage_data_memory then pointer else none;
}

-- `ProducerRequest::ContainsData`: all but what is to be read from a file; `full_path` is `none` where it is empty.
pub contains_data : GenericRequestHeader → Option ℕ → Option ℕ → Bool
unfolding data_from_file
contains_data header pointer full_path =
    let request : ProducerRequest = record {
      header = header;
      has_data = elim pointer [ none ↦ false | some _ ↦ true ];
      original_filepath = full_path;
      has_callback = true;
      source_credentials_size = 0;
    } in
    elim (data_from_file request) [ none ↦ true | some _ ↦ false ]

-- The part of `ProducerRequest` that the pool reads; `ident` stands for the rest.
pub to_generic : ℕ → GenericRequestHeader → Option ℕ → Option ℕ → ℕ → ℕ → GenericRequest
unfolding contains_data
to_generic ident header pointer full_path timeout_ms now = record {
  ident = ident;
  data_size = header.data_size;
  contains_data = contains_data header pointer full_path;
  retry_counter = 0;
  timeout_ms = timeout_ms;
  created_at = now;
}

module _ (timeout_ms now ident : ℕ) where
  -- `AddRequest` of the pool, and what becomes of its error.
  pub enqueue_request :
      RequestPool
      → GenericRequestHeader
      → Option ℕ
      → Option ℕ
      → Bool
      → Option SendResult × RequestPool
  unfolding with_original to_generic
  enqueue_request pool header pointer full_path manage_data_memory =
      let (refused, pool') =
        add_request pool (to_generic ident header pointer full_path timeout_ms now) false in
      (
        elim refused [
          | none ↦ none
          | some _ ↦ some (with_original request_pool_is_full pointer manage_data_memory)
        ],
        pool',
      )

  -- The private `Send`.
  pub send_checked :
      RequestPool
      → MessageHeader
      → Text
      → Option ℕ
      → Option ℕ
      → ℕ
      → Bool
      → Option SendResult × RequestPool
  unfolding with_original
  send_checked pool h stream pointer full_path ingest_mode manage_data_memory =
      elim (check_producer_request h ingest_mode stream) [
        | some e ↦ (some (with_original (wrong_input e) pointer manage_data_memory), pool)
        | none ↦
            enqueue_request pool (generate_next_send_request h stream ingest_mode) pointer full_path
              manage_data_memory
      ]

  -- `Send` and `Send__`: the former manages the data's memory.
  pub send :
      RequestPool → MessageHeader → Option ℕ → ℕ → Text → Bool → Option SendResult × RequestPool
  unfolding with_original
  send pool h pointer ingest_mode stream manage_data_memory =
      elim (check_data ingest_mode h pointer) [
        | some e ↦ (some (with_original (wrong_input e) pointer manage_data_memory), pool)
        | none ↦ send_checked pool h stream pointer none ingest_mode manage_data_memory
      ]

  -- `SendFile`; an empty path is refused without more.
  pub send_file :
      RequestPool → MessageHeader → Option ℕ → ℕ → Text → Option SendResult × RequestPool
  unfolding with_original
  send_file pool h full_path ingest_mode stream = elim full_path [
    | none ↦ (some (with_original (wrong_input empty_filename) none false), pool)
    | some path ↦ send_checked pool h stream none (some path) ingest_mode true
  ]

  -- `keyword` is `kFinishStreamKeyword`, `metadata` the JSON text that names the next stream.
  pub send_stream_finished_flag :
      RequestPool → Text → Text → ℕ → Text → Option SendResult × RequestPool
  send_stream_finished_flag pool keyword stream last_id metadata =
      send_checked pool
        (record {
          message_id = add64 last_id 1;
          data_size = 0;
          file_name = keyword;
          user_metadata = metadata;
          dataset_substream = 0;
          dataset_size = 0;
          auto_id = false;
        })
        stream none none (mask transfer_meta_data_only) true
