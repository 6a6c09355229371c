-- ===== src/Consumer/Service/Data/Transfer.antt =====
-- consumer_impl.cpp: the file transfer service, and the choice between the sources of the data.
use asapo.Base.{
  ℕ, Bool, true, false, not, ◌&&◌, [], Option, none, some, ltb, ◌==◌, if◌then◌else◌, State,
}
use asapo.Consumer.Service.{
  RequestInfo, transfer, folder_token, file_transfer, Text, ConsumerError, wrong_input,
  simple_error, Reply, process_request, is_empty,
}
use asapo.Consumer.Service.Timeout.{service_request_with_timeout}
use asapo.Consumer.Service.Data.{
  MessageMeta, Consumer, DataIo, NetError, Result, file_size_name, try_get_data_from_buffer,
  get_data_from_file,
}

module _ {W : Type 0} (io : DataIo W) where
  -- `Folder`, `FileName` and the mode of the output follow from the others.
  abbrev pub create_file_transfer_request : Bool → MessageMeta → Text → RequestInfo
  create_file_transfer_request size_only info token = record {
    host = [];
    api = transfer info.name;
    min_size = none;
    resend = none;
    cookie = token;
    size_only = size_only;
    post = true;
  }

  unfoldable pub fts_request : ℕ → Bool → MessageMeta → State (Consumer W) (Option Reply)
  fts_request fuel size_only info c =
      let r = create_file_transfer_request size_only info c.folder_token_ in
      let (reply, w) =
        service_request_with_timeout io.service io.timeout_ms file_transfer c.current_fts_uri r fuel
          c.outside in
      (
        reply,
        record c {
          current_fts_uri = elim reply [ none ↦ c.current_fts_uri | some (err, s, uri) ↦ uri ];
          outside = w;
        },
      )

  unfoldable pub parsed_size : MessageMeta → Option ℕ → Option ConsumerError × MessageMeta
  parsed_size info none = (some simple_error, info)
  parsed_size info (some n) = (none, record info { size = n })

  -- What the reply to the request for the size means.
  unfoldable pub set_size : MessageMeta → Option Reply → Option (Option ConsumerError × MessageMeta)
  set_size info none = none
  set_size info (some (some e, s, uri)) = some (some e, info)
  set_size info (some (none, s, uri)) =
      some (parsed_size info (io.service.json.get_uint64 s file_size_name))

  unfoldable pub fts_size_request_with_timeout :
      ℕ → MessageMeta → State (Consumer W) (Option (Option ConsumerError × MessageMeta))
  fts_size_request_with_timeout fuel info c =
      let (reply, c') = fts_request fuel true info c in (set_size info reply, c')

  unfoldable pub set_data : MessageMeta → Text → Option Reply → Result
  set_data info bytes none = none
  set_data info bytes (some (some e, s, uri)) = some (some e, info, bytes)
  set_data info bytes (some (none, s, uri)) = some (none, info, s)

  unfoldable pub fts_request_with_timeout : ℕ → MessageMeta → Text → State (Consumer W) Result
  fts_request_with_timeout fuel info bytes c =
      let (reply, c') = fts_request fuel false info c in (set_data info bytes reply, c')

  abbrev pub create_folder_token_request : RequestInfo
  create_folder_token_request = record {
    host = io.service.endpoint;
    api = folder_token;
    min_size = none;
    resend = none;
    cookie = [];
    size_only = false;
    post = true;
  }

  unfoldable pub update_folder_token_if_needed : Bool → State (Consumer W) (Option ConsumerError)
  update_folder_token_if_needed ignore_existing c =
      let ((err, s, _), w) = process_request io.service create_folder_token_request [] c.outside in
      if not (is_empty c.folder_token_) && not ignore_existing
      then (none, c)
      else (err, record c { folder_token_ = elim err [ none ↦ s | some e ↦ [] ]; outside = w })

  -- `GetDataFromFileTransferService` once the size is asked for.
  unfoldable pub after_size :
      ℕ → Text → Option (Option ConsumerError × MessageMeta) × Consumer W → Result × Consumer W
  after_size fuel bytes (none, c) = (none, c)
  after_size fuel bytes (some (some e, info), c) = (some (some e, info, bytes), c)
  after_size fuel bytes (some (none, info), c) = fts_request_with_timeout fuel info bytes c

  -- The transfer with the size known, or asked for.
  unfoldable pub transfer_file : ℕ → MessageMeta → Text → State (Consumer W) Result
  transfer_file fuel info bytes c =
      if info.size == 0
      then after_size fuel bytes (fts_size_request_with_timeout fuel info c)
      else fts_request_with_timeout fuel info bytes c

  unfoldable pub after_token :
      ℕ → MessageMeta → Text → Option ConsumerError × Consumer W → Result × Consumer W
  after_token fuel info bytes (some e, c) = (some (some e, info, bytes), c)
  after_token fuel info bytes (none, c) = transfer_file fuel info bytes c

  -- A refused token is replaced, once.
  unfoldable pub retry : ℕ → Result × Consumer W → Result × Consumer W
  retry fuel (some (some wrong_input, info, bytes), c) =
      after_token fuel info bytes (update_folder_token_if_needed true c)
  retry fuel (result, c) = (result, c)

  unfoldable pub first_attempt :
      ℕ → MessageMeta → Text → Option ConsumerError × Consumer W → Result × Consumer W
  first_attempt fuel info bytes (some e, c) = (some (some e, info, bytes), c)
  first_attempt fuel info bytes (none, c) = retry fuel (transfer_file fuel info bytes c)

  unfoldable pub get_data_from_file_transfer_service :
      ℕ → MessageMeta → Text → State (Consumer W) Result
  get_data_from_file_transfer_service fuel info bytes c =
      first_attempt fuel info bytes (update_folder_token_if_needed false c)

  unfoldable pub from_storage : ℕ → MessageMeta → Text → State (Consumer W) Result
  from_storage fuel info bytes c =
      if io.has_filesystem
      then get_data_from_file io fuel info bytes c
      else get_data_from_file_transfer_service fuel info bytes c

  -- `RetrieveData` once the receiver is asked.
  unfoldable pub after_buffer :
      ℕ → MessageMeta → (Option NetError × Text) × Consumer W → Result × Consumer W
  after_buffer fuel info ((none, bytes), c) = (some (none, info, bytes), c)
  after_buffer fuel info ((some e, bytes), c) =
      from_storage fuel (record info { buf_id = 0 }) bytes c

  unfoldable pub retrieve_data : ℕ → MessageMeta → Text → State (Consumer W) Result
  retrieve_data fuel info bytes c =
      if ltb 0 info.buf_id
      then after_buffer fuel info (try_get_data_from_buffer io info bytes c)
      else from_storage fuel info bytes c
