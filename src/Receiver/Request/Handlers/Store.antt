-- ===== src/Receiver/Request/Handlers/Store.antt =====
-- The file handler followed by the database handler, and what the producer is told of them
-- (receiver/src/request_handler).
use asapo.Base.{
  ◌≡◌, refl, ap, sym, ◌∙◌, ◌⊎◌, inl, inr, true, false, [], ◌∷◌, Option, none, some, arith,
  Bool-cases,
}
use asapo.Common.Networking.{warning}
use asapo.Receiver.Request.{
  ReceiverError, internal_error, file_already_exists, warning_message, Request, Step,
  set_response_message, set_already_processed_flag, handle, next_handler,
  create_response_to_request,
}
use asapo.Receiver.Request.Reply.{is_warned}
use asapo.Common.Database.{duplicate_id, insert_error}
use asapo.Receiver.Request.Handlers.{
  write_handler, Storage, MessageMeta, check_for_duplicates, connect_to_db_if_needed,
  file_overwritten, on_file_exists, after_file, file_process_request, after_insert,
  on_duplicate_record, db_write_request, db_error_to_receiver_error,
}

abbrev pub new_request : Request
new_request = record { response_message = none; already_processed = false }

module _ {W : Type 0} (io : Storage W) (request : MessageMeta) where
  abbrev pub store : W → (Option ReceiverError × Request) × W
  store = handle (file_process_request io request ∷ db_write_request io request ∷ []) new_request

  overwrites :
      (r : Request) (w w1 w2 w3 : W)
      → io.process_file false w ≡ (some file_already_exists, w1)
      → check_for_duplicates io request w1 ≡ (none, w2)
      → io.process_file true w2 ≡ (none, w3)
      → file_process_request io request r w
        ≡ ((none, set_response_message r file_overwritten warning_message), w3)
  unfolding file_process_request after_file on_file_exists
  overwrites r w w1 w2 w3 exists new over = ground (arith, exists, new, over)

  insert_fails :
      (r : Request) (w w1 w2 : W)
      → r.already_processed ≡ false
      → connect_to_db_if_needed io request write_handler w ≡ (none, w1)
      → io.insert_record w1 ≡ (some insert_error, w2)
      → db_write_request io request r w ≡ ((some internal_error, r), w2)
  unfolding db_write_request after_insert db_error_to_receiver_error
  insert_fails r w w1 w2 fresh connects fails = ground (arith, fresh, connects, fails)

  -- A file that existed without a record in the database is overwritten, and then the record cannot be
  -- inserted: the request has failed, and the producer is told that there is a warning.
  pub masked_error :
      (w w1 w2 w3 w4 w5 : W)
      → io.process_file false w ≡ (some file_already_exists, w1)
      → check_for_duplicates io request w1 ≡ (none, w2)
      → io.process_file true w2 ≡ (none, w3)
      → connect_to_db_if_needed io request write_handler w3 ≡ (none, w4)
      → io.insert_record w4 ≡ (some insert_error, w5)
      → let ((err, r), _) = store w in
        (err ≡ some internal_error) × ((create_response_to_request r err).error_code ≡ warning)
  unfolding handle next_handler set_response_message create_response_to_request
  masked_error w w1 w2 w3 w4 w5 exists new over connects fails =
      rw
        (
          overwrites new_request w w1 w2 w3 exists new over,
          insert_fails (set_response_message new_request file_overwritten warning_message) w3 w4 w5
              refl connects fails,
        )
        (refl, refl)

  after_file_quiet :
      (err : Option ReceiverError) (r : Request) (w : W)
      → r.response_message ≡ none
      → (after_file io request err r w).0.0 ≡ none
      → is_warned (after_file io request err r w).0.1 ≡ false
      → (err ≡ none) × (after_file io request err r w ≡ ((none, r), w))
  unfolding after_file on_file_exists set_response_message set_already_processed_flag
  after_file_quiet err r w q ok quiet = ground arith

  db_keeps_warning :
      (r : Request) (w : W)
      → is_warned r ≡ true
      → is_warned (db_write_request io request r w).0.1 ≡ true
  unfolding db_write_request after_insert on_duplicate_record set_response_message
  db_keeps_warning r w h = ground arith

  db_quiet :
      (r : Request) (w : W)
      → r.already_processed ≡ false
      → (db_write_request io request r w).0.0 ≡ none
      → is_warned (db_write_request io request r w).0.1 ≡ false
      → let (err, w1) = connect_to_db_if_needed io request write_handler w in
        let (inserted, w2) = io.insert_record w1 in
        (err ≡ none)
        × ((inserted ≡ none)
            ⊎ ((inserted ≡ some duplicate_id) × ((check_for_duplicates io request w2).0 ≡ none)))
  unfolding db_write_request after_insert on_duplicate_record set_response_message
      db_error_to_receiver_error
  db_quiet r w fresh ok quiet = ground arith

  ends :
      (err : Option ReceiverError) (r : Request) (w : W)
      → next_handler (handle []) err r w ≡ ((err, r), w)
  unfolding handle next_handler
  ends none r w = refl
  ends (some _) r w = refl

  last_handler : (h : Step W) (r : Request) (w : W) → handle (h ∷ []) r w ≡ h r w
  unfolding handle
  last_handler h r w = let ((err, r'), w') = h r w in ends err r' w'

  file_stored :
      (written : Option ReceiverError) (r : Request) (w w' : W)
      → after_file io request written new_request w ≡ ((none, r), w')
      → is_warned (db_write_request io request r w').0.1 ≡ false
      → (written ≡ none) × (after_file io request written new_request w ≡ ((none, new_request), w))
  file_stored written r w w' after quiet = elim (Bool-cases (is_warned r)) [
    | inl e ↦ (let warned = db_keeps_warning r w' e in absurd (cc))
    | inr e ↦ after_file_quiet written new_request w refl (rw (after) refl) (rw (after) e)
  ]

  abbrev DbQuiet : W → Type 0
  DbQuiet w =
      let (err, w2) = connect_to_db_if_needed io request write_handler w in
      let (inserted, w3) = io.insert_record w2 in
      (err ≡ none)
      × ((inserted ≡ none)
          ⊎ ((inserted ≡ some duplicate_id) × ((check_for_duplicates io request w3).0 ≡ none)))

  stored_after :
      (written err : Option ReceiverError) (r : Request) (w w' : W)
      → after_file io request written new_request w ≡ ((err, r), w')
      → (next_handler (handle (db_write_request io request ∷ [])) err r w').0.0 ≡ none
      → is_warned (next_handler (handle (db_write_request io request ∷ [])) err r w').0.1 ≡ false
      → (written ≡ none) × DbQuiet w
  unfolding next_handler
  stored_after written (some e) r w w' after ok quiet = absurd (cc)
  stored_after written none r w w' after ok quiet =
      let last = last_handler (db_write_request io request) r w' in
      let quiet' : is_warned (db_write_request io request r w').0.1 ≡ false = cc in
      let (p, q) = file_stored written r w w' after quiet' in
      let same : db_write_request io request r w' ≡ db_write_request io request new_request w =
        ap (λ (x : (Option ReceiverError × Request) × W). db_write_request io request x.0.1 x.1)
          (sym after ∙ q) in
      (p, db_quiet new_request w refl (cc) (cc))

  -- If both handlers succeed and leave no warning, the file processor succeeded without leave to
  -- overwrite, the database handler was connected, and the record was inserted, or was found to be a
  -- duplicate of one that was gone when it was looked for.
  pub stored :
      (w : W)
      → (store w).0.0 ≡ none
      → is_warned (store w).0.1 ≡ false
      → let (written, w1) = io.process_file false w in
        let (err, w2) = connect_to_db_if_needed io request write_handler w1 in
        let (inserted, w3) = io.insert_record w2 in
        (written ≡ none)
        × (err ≡ none)
        × ((inserted ≡ none)
            ⊎ ((inserted ≡ some duplicate_id) × ((check_for_duplicates io request w3).0 ≡ none)))
  unfolding handle file_process_request
  stored w ok quiet =
      let (written, w1) = io.process_file false w in
      let ((err, r), w') = after_file io request written new_request w1 in
      let (p, q) = stored_after written err r w1 w' refl ok quiet in (p, q.0, q.1)
