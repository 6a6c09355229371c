-- ===== src/Producer/Send/Checks.antt =====
-- Which messages the producer accepts, and what becomes of the data of those it does not
-- (producer/api/cpp/src/producer_impl.cpp).
use asapo.Base.{
  ℕ, ◌≤◌, ◌<◌, ◌≡◌, ◌⊎◌, inl, inr, ◌↔◌, Bool, true, false, Option, none, some, arith, ◌==◌,
  if◌then◌else◌, Option-cases, ◌++◌, [], ◌∷◌, ap,
}
use asapo.Common.Networking.{
  GenericRequestHeader, has_flag, transfer_data_flag, transfer_meta_data_only, store_in_filesystem,
  store_in_database,
}
use asapo.Common.RequestPool.{GenericRequest, RequestPool, NoSpaceLeft, add_request}
use asapo.Common.RequestPool.Limits.{add_request_cases}
use asapo.Producer.Send.{
  Text, MessageHeader, max_message_size, or_else, WrongInput, check_ingest_mode,
  check_file_name_in_request, check_dataset_in_request, check_message_id_in_request,
  check_producer_request, check_data, SendError, SendResult, wrong_input, request_pool_is_full,
  with_original, generate_next_send_request, contains_data, to_generic, enqueue_request,
  send_checked, send,
}

-- Data goes to the database or the file system; metadata alone does not go to the file system.
abbrev pub IsAcceptedMode : ℕ → Type 0
IsAcceptedMode m =
    ((has_flag m transfer_data_flag ≡ true)
      × (has_flag m transfer_meta_data_only ≡ false)
      × ((has_flag m store_in_filesystem ≡ true) ⊎ (has_flag m store_in_database ≡ true)))
    ⊎ ((has_flag m transfer_data_flag ≡ false)
        × (has_flag m transfer_meta_data_only ≡ true)
        × (has_flag m store_in_filesystem ≡ false))

pub accepted_mode : (m : ℕ) → (check_ingest_mode m ≡ none) ↔ IsAcceptedMode m
unfolding check_ingest_mode
accepted_mode m = (λ e. ground arith, λ h. ground arith)

-- What a message must be besides.
abbrev pub IsAcceptedMessage : MessageHeader → Text → Type 0
IsAcceptedMessage h stream =
    (0 < stream.size)
    × (0 < h.file_name.size)
    × (h.file_name.size ≤ max_message_size)
    × ((h.dataset_substream ≡ 0) ⊎ ((0 < h.dataset_size) × (h.auto_id ≡ false)))
    × (h.auto_id ≡ (h.message_id == 0))

or_else-none : (a b : Option WrongInput) → (or_else a b ≡ none) ↔ ((a ≡ none) × (b ≡ none))
or_else-none a b = (λ e. ground arith, λ h. ground arith)

accepted_file_name :
    (h : MessageHeader)
    → (check_file_name_in_request h ≡ none)
      ↔ ((0 < h.file_name.size) × (h.file_name.size ≤ max_message_size))
unfolding check_file_name_in_request
accepted_file_name h = (λ e. ground arith, λ p. ground arith)

accepted_dataset :
    (h : MessageHeader)
    → (check_dataset_in_request h ≡ none)
      ↔ ((h.dataset_substream ≡ 0) ⊎ ((0 < h.dataset_size) × (h.auto_id ≡ false)))
unfolding check_dataset_in_request
accepted_dataset h = (λ e. ground arith, λ p. ground arith)

accepted_id :
    (h : MessageHeader) → (check_message_id_in_request h ≡ none) ↔ (h.auto_id ≡ (h.message_id == 0))
unfolding check_message_id_in_request
accepted_id h = (λ e. ground arith, λ p. ground arith)

stream_checked :
    (h : MessageHeader) (m : ℕ) (stream : Text)
    → check_producer_request h m stream ≡ none
    → (0 < stream.size)
      × (or_else (check_file_name_in_request h) (
            or_else
              (check_dataset_in_request h)
              (or_else (check_message_id_in_request h) (check_ingest_mode m)))
          ≡ none)
unfolding check_producer_request
stream_checked h m stream e = ground arith

-- A message is accepted exactly if its stream and its file name are not empty, the name fits, a part of a
-- dataset says how many there are and has an id of its own, the id is zero exactly if it is to be
-- given by the receiver, and the ingest mode is meaningful.
pub accepted :
    (h : MessageHeader) (m : ℕ) (stream : Text)
    → (check_producer_request h m stream ≡ none) ↔ (IsAcceptedMessage h stream × IsAcceptedMode m)
unfolding check_producer_request
accepted h m stream = (λ e. to e, λ p. from p)
  where
    to : check_producer_request h m stream ≡ none → IsAcceptedMessage h stream × IsAcceptedMode m
    to e =
        let (size, rest) = stream_checked h m stream e in
        let (a, rest1) = (or_else-none (check_file_name_in_request h) _).0 rest in
        let (b, rest2) = (or_else-none (check_dataset_in_request h) _).0 rest1 in
        let (c, mode) = (or_else-none (check_message_id_in_request h) _).0 rest2 in
        let (d, f) = (accepted_file_name h).0 a in
        ((size, d, f, (accepted_dataset h).0 b, (accepted_id h).0 c), (accepted_mode m).0 mode)

    from : IsAcceptedMessage h stream × IsAcceptedMode m → check_producer_request h m stream ≡ none
    from ((size, d, f, dataset, i), mode) =
        let a = (accepted_file_name h).1 (d, f) in
        let b = (accepted_dataset h).1 dataset in
        let c = (accepted_id h).1 i in let e = (accepted_mode m).1 mode in ground arith

-- The checks of a message that is sent from memory.
abbrev pub Passes : MessageHeader → Option ℕ → ℕ → Text → Type 0
Passes h pointer mode stream =
    (check_data mode h pointer ≡ none) × IsAcceptedMessage h stream × IsAcceptedMode mode

module _ (timeout_ms now ident : ℕ) where
  abbrev pub IsRefused :
      RequestPool → Option ℕ → Bool → SendError → Option SendResult × RequestPool → Type 0
  IsRefused pool pointer manage e result =
      result ≡ (some (record { error = e; original_data = if manage then pointer else none }), pool)

  contains_data-no_path :
      (header : GenericRequestHeader) (pointer : Option ℕ)
      → contains_data header pointer none ≡ true
  unfolding contains_data
  contains_data-no_path header none = ground arith
  contains_data-no_path header (some x) = ground arith

  -- The request of a message: its data, if it has any, is in the request, and nothing is read from a file.
  abbrev pub request_of : MessageHeader → GenericRequest
  request_of h = record {
    ident = ident;
    data_size = h.data_size;
    contains_data = true;
    retry_counter = 0;
    timeout_ms = timeout_ms;
    created_at = now;
  }

  to_generic-request_of :
      (h : MessageHeader) (pointer : Option ℕ) (mode : ℕ) (stream : Text)
      → to_generic ident (generate_next_send_request h stream mode) pointer none timeout_ms now
        ≡ request_of h
  unfolding to_generic generate_next_send_request
  to_generic-request_of h pointer mode stream =
      ap (λ b. record (request_of h) { contains_data = b })
        (contains_data-no_path (generate_next_send_request h stream mode) pointer)

  -- A message is refused for a wrong input only if it does not pass the checks of its data, its names
  -- and its mode, and for a full pool only if it passes them and the pool refuses its request; then
  -- the pool is as it was and the data is handed back with the error if the producer manages its
  -- memory. Else it passes the checks, and its request stands last in the queue. The request counts
  -- as one that contains data, whatever the message has.
  pub send_lem :
      (pool : RequestPool) (h : MessageHeader) (pointer : Option ℕ) (mode : ℕ) (stream : Text)
      (manage : Bool)
      → let result = send timeout_ms now ident pool h pointer mode stream manage in
        ((e : WrongInput) × IsRefused pool pointer manage (wrong_input e) result
          × ¬ Passes h pointer mode stream)
        ⊎ (Passes h pointer mode stream
            × IsRefused pool pointer manage request_pool_is_full result
            × ((e : NoSpaceLeft) × (add_request pool (request_of h) false
                  ≡ (some (e, request_of h), pool))))
        ⊎ (Passes h pointer mode stream
            × (result.0 ≡ none)
            × (result.1.request_queue ≡ pool.request_queue ++ request_of h ∷ []))
  unfolding send send_checked enqueue_request with_original
  send_lem pool h pointer mode stream manage =
      let r =
        to_generic ident (generate_next_send_request h stream mode) pointer none timeout_ms now in
      let same = to_generic-request_of h pointer mode stream in
      elim (Option-cases (check_data mode h pointer)) [
        | inr (e, f) ↦ inl (e, ground arith, λ p. ground arith)
        | inl f ↦ elim (Option-cases (check_producer_request h mode stream)) [
          | inr (e, g) ↦
              inl (
                e,
                ground arith,
                λ p. let a = (accepted h mode stream).1 (p.1, p.2) in ground arith,
              )
          | inl g ↦
              (let (message, accepts) = (accepted h mode stream).0 g in
                let passed : Passes h pointer mode stream = (f, message, accepts) in
                elim (add_request_cases pool (request_of h)) [
                  | inl (e, full) ↦ inr (inl (passed, ground arith, (e, full)))
                  | inr (room, queued) ↦ inr (inr (passed, ground arith, ground arith))
                ])
        ]
      ]
