-- ===== src/Consumer/Service/Data/Fetch.antt =====
-- The data that `RetrieveData` returns comes from a receiver, a file or the file transfer service.
use asapo.Base.{
  ℕ, suc, ◌*◌, ◌<◌, ◌≤◌, ◌≡◌, refl, ◌∙◌, ap, subst, inl, inr, Bool, true, false, not, Option, none,
  some, ltb, ◌==◌, if_both, Bool-cases, arith,
}
use asapo.Consumer.Service.{
  Text, ConsumerError, wrong_input, interrupted_transaction, unavailable_service,
  unsupported_client, local_io_error, simple_error, file_transfer, no_data, end_of_stream,
  stream_finished, partial_data, Reply,
}
use asapo.Consumer.Service.Repeat.{repeat_lem}
use asapo.Consumer.Service.Timeout.{Justified, service_request_lem}
use asapo.Consumer.Service.Data.{
  MessageMeta, Consumer, DataIo, Result, NetError, full_name, file_round, file_result,
  get_data_from_file, file_size_name,
}
use asapo.Consumer.Service.Data.Transfer.{
  create_file_transfer_request, fts_request, set_size, parsed_size, set_data,
  fts_size_request_with_timeout, fts_request_with_timeout, update_folder_token_if_needed,
  transfer_file, after_size, after_token, first_attempt, after_buffer, retry,
  get_data_from_file_transfer_service, from_storage, retrieve_data,
}
use asapo.Consumer.Service.Data.Source.{named, FromFile, Fetched, Given, buffer-Given}

module _ {W : Type 0} (io : DataIo W) where
  -- The state of the loop of `GetDataFromFile`.
  abbrev Read : Text → Bool × ℕ × Text → Type 0
  Read name s = s.0 ≡ false → FromFile io name (s.2)

  read_all : (x : Bool × ℕ × Text) → not (x.0) ≡ false → x ≡ (true, x.1, x.2)
  read_all (true, size, bytes) e = refl
  read_all (false, size, bytes) e = absurd (ground arith)

  round-Read :
      (name : Text) (s : Bool × ℕ × Text) (w : W) → Read name ((file_round io name s w).0.1)
  unfolding file_round
  round-Read name (failed, size, bytes) w e =
      let r = (io.read_file (full_name io.source_path name) w).0 in (r.1, w, read_all r e)

  result-Fetched :
      (info : MessageMeta) (s : Bool × ℕ × Text) (c : Consumer W)
      → Read info.name s
      → Fetched io info.name (file_result io info (some s), c)
  unfolding file_result
  result-Fetched info (true, size, bytes) c h =
      (some local_io_error, record info { size = size }, bytes, c, refl, refl, tt)
  result-Fetched info (false, size, bytes) c h =
      (none, record info { size = size }, bytes, c, refl, refl, inr (inl (h refl)))

  module _ (sleeps : (w : W) → 100 ≤ (io.service.sleep w).0) (fuel : ℕ)
      (enough : io.timeout_ms < 100 * fuel) where
    file-Fetched :
        (info : MessageMeta) (bytes : Text) (c : Consumer W)
        → Fetched io info.name (get_data_from_file io (suc fuel) info bytes c)
    unfolding get_data_from_file
    file-Fetched info bytes c =
        let (s, w', e, h) =
          repeat_lem io.service io.timeout_ms (λ (failed, size, bytes'). (true, size, bytes'))
            (file_round io info.name) (Read info.name) sleeps (λ s e. absurd (ground arith))
            (round-Read info.name) fuel 0 (false, info.size, bytes)
            (io.service.clear_interrupt_flag c.outside) (inl (omega arith)) (omega arith) in
        rw e (result-Fetched info s (record c { outside = w' }) h)

    fts_lem :
        (size_only : Bool) (info : MessageMeta) (c : Consumer W)
        → (reply : Reply) × (c' : Consumer W) × (fts_request io (suc fuel) size_only info c
            ≡ (some reply, c'))
          × Justified io.service
              (create_file_transfer_request io size_only (named io info.name) c.folder_token_)
              reply
    unfolding fts_request
    fts_lem size_only info c =
        let (reply, w', e, h) =
          service_request_lem io.service sleeps io.timeout_ms fuel enough file_transfer
            c.current_fts_uri (create_file_transfer_request io size_only info c.folder_token_)
            c.outside in
        (reply, record c { current_fts_uri = reply.2; outside = w' }, rw e refl, h)

    data-Fetched :
        (info : MessageMeta) (bytes token : Text) (reply : Reply) (c : Consumer W)
        → Justified io.service
            (create_file_transfer_request io false (named io info.name) token)
            reply
        → Fetched io info.name (set_data io info bytes (some reply), c)
    unfolding set_data
    data-Fetched info bytes token (some e, s, uri) c h = (some e, info, bytes, c, refl, refl, tt)
    data-Fetched info bytes token (none, s, uri) c h =
        (none, info, s, c, refl, refl, inr (inr (token, uri, h)))

    request-Fetched :
        (info : MessageMeta) (bytes : Text) (c : Consumer W)
        → Fetched io info.name (fts_request_with_timeout io (suc fuel) info bytes c)
    unfolding fts_request_with_timeout
    request-Fetched info bytes c =
        let (reply, c', e, h) = fts_lem false info c in
        rw e (data-Fetched info bytes c.folder_token_ reply c' h)

    parsed-Fetched :
        (info : MessageMeta) (bytes : Text) (n : Option ℕ) (c : Consumer W)
        → Fetched io info.name (after_size io (suc fuel) bytes (some (parsed_size io info n), c))
    unfolding after_size parsed_size
    parsed-Fetched info bytes none c = (some simple_error, info, bytes, c, refl, refl, tt)
    parsed-Fetched info bytes (some n) c = request-Fetched (record info { size = n }) bytes c

    size-Fetched :
        (info : MessageMeta) (bytes : Text) (reply : Reply) (c : Consumer W)
        → Fetched io info.name (after_size io (suc fuel) bytes (set_size io info (some reply), c))
    unfolding set_size after_size
    size-Fetched info bytes (some e, s, uri) c = (some e, info, bytes, c, refl, refl, tt)
    size-Fetched info bytes (none, s, uri) c =
        parsed-Fetched info bytes (io.service.json.get_uint64 s file_size_name) c

    transfer-Fetched :
        (info : MessageMeta) (bytes : Text) (c : Consumer W)
        → Fetched io info.name (transfer_file io (suc fuel) info bytes c)
    unfolding transfer_file fts_size_request_with_timeout
    transfer-Fetched info bytes c = elim (Bool-cases (info.size == 0)) [
      | inr z ↦ rw z (request-Fetched info bytes c)
      | inl z ↦
          let (reply, c', e, h) = fts_lem true info c in
          rw (z, e) (size-Fetched info bytes reply c')
    ]

    token-Fetched :
        (info : MessageMeta) (bytes : Text) (x : Option ConsumerError × Consumer W)
        → Fetched io info.name (after_token io (suc fuel) info bytes x)
    unfolding after_token
    token-Fetched info bytes (some e, c) = (some e, info, bytes, c, refl, refl, tt)
    token-Fetched info bytes (none, c) = transfer-Fetched info bytes c

    abbrev name_or : MessageMeta → Result × Consumer W → Text
    name_or info (none, c) = info.name
    name_or info (some (e, i, b), c) = i.name

    -- Of a result of `transfer_file`.
    retry-Fetched :
        (name : Text) (x : Result × Consumer W)
        → Fetched io name x
        → Fetched io name (retry io (suc fuel) x)
    unfolding retry
    retry-Fetched name (none, c) h = h
    retry-Fetched name (some (none, info, bytes), c) h = h
    retry-Fetched name (some (some wrong_input, info, bytes), c) (e, i, b, d, p, n, q) =
        subst (λ m. Fetched io m (retry io (suc fuel) (some (some wrong_input, info, bytes), c)))
          (ap (name_or info) p ∙ n)
          (token-Fetched info bytes (update_folder_token_if_needed io true c))
    retry-Fetched name (some (some interrupted_transaction, info, bytes), c) h = h
    retry-Fetched name (some (some unavailable_service, info, bytes), c) h = h
    retry-Fetched name (some (some unsupported_client, info, bytes), c) h = h
    retry-Fetched name (some (some local_io_error, info, bytes), c) h = h
    retry-Fetched name (some (some simple_error, info, bytes), c) h = h
    retry-Fetched name (some (some (no_data d), info, bytes), c) h = h
    retry-Fetched name (some (some (end_of_stream d), info, bytes), c) h = h
    retry-Fetched name (some (some (stream_finished d), info, bytes), c) h = h
    retry-Fetched name (some (some (partial_data d), info, bytes), c) h = h

    first-Fetched :
        (info : MessageMeta) (bytes : Text) (x : Option ConsumerError × Consumer W)
        → Fetched io info.name (first_attempt io (suc fuel) info bytes x)
    unfolding first_attempt
    first-Fetched info bytes (some e, c) = (some e, info, bytes, c, refl, refl, tt)
    first-Fetched info bytes (none, c) =
        retry-Fetched info.name (transfer_file io (suc fuel) info bytes c)
          (transfer-Fetched info bytes c)

    storage-Fetched :
        (info : MessageMeta) (bytes : Text) (c : Consumer W)
        → Fetched io info.name (from_storage io (suc fuel) info bytes c)
    unfolding from_storage get_data_from_file_transfer_service
    storage-Fetched info bytes c =
        if_both (Fetched io info.name) io.has_filesystem _ _ (file-Fetched info bytes c)
          (first-Fetched info bytes (update_folder_token_if_needed io false c))

    module _
        (alone : (c : Consumer W)
          → c.net_client ≡ none
          → (io.until_locked c).net_client ≡ none) where
      after-Fetched :
          (info : MessageMeta) (x : (Option NetError × Text) × Consumer W)
          → Given io x
          → Fetched io info.name (after_buffer io (suc fuel) info x)
      unfolding after_buffer
      after-Fetched info ((none, bytes), c) h = (none, info, bytes, c, refl, refl, inl (h refl))
      after-Fetched info ((some e, bytes), c) h =
          storage-Fetched (record info { buf_id = 0 }) bytes c

      -- If every round takes 100 ms, and no other thread makes the net client meanwhile, the retrieval of
      -- the data of a message ends, and data that is reported without an error comes from a receiver, from
      -- the file of this message, or in a reply with OK or no content of the file transfer service to a
      -- request for it.
      pub retrieve_data_lem :
          (info : MessageMeta) (bytes : Text) (c : Consumer W)
          → Fetched io info.name (retrieve_data io (suc fuel) info bytes c)
      unfolding retrieve_data
      retrieve_data_lem info bytes c =
          if_both (Fetched io info.name) (ltb 0 info.buf_id) _ _
            (after-Fetched info _ (buffer-Given io alone info bytes c))
            (storage-Fetched info bytes c)
