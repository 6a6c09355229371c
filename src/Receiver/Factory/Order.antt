-- ===== src/Receiver/Factory/Order.antt =====
-- What the handlers of an accepted request do, and in which order
-- (receiver/src/request_handler/request_factory.cpp).
use asapo.Base.{
  ℕ, ◌≡◌, ◌≢◌, refl, ◌⊎◌, inl, inr, Bool, true, false, not, ◌&&◌, ◌||◌, List, [], ◌∷◌, ◌++◌, arith,
  if◌then◌else◌, Bool-cases, subst,
}
use asapo.Common.Networking.{
  Opcode, transfer_data, transfer_dataset_data, authorize, unknown_op, stream_info, last_stream,
  get_buffer_data, transfer_meta_data, delete_stream, get_meta, count, GenericRequestHeader,
  has_flag, store_in_filesystem,
}
use asapo.Receiver.Factory.{
  Handler, secondary_authorize, initial_authorize, receive_metadata, receive_data, file_receive,
  file_write, db_write, db_meta_write, db_stream_info, db_last_stream, db_get_meta,
  delete_stream_handler, handlers_for, handlers, refused, bad_request, need_db_handler,
  receive_direct_to_file, transfer_handlers, add_handlers_to_request,
}

abbrev pub any : (Handler → Bool) → List Handler → Bool
any p [] = false
any p (x ∷ xs) = p x || any p xs

abbrev pub is_initial_authorize : Handler → Bool
is_initial_authorize initial_authorize = true
is_initial_authorize _ = false

abbrev pub stores_file : Handler → Bool
stores_file file_receive = true
stores_file file_write = true
stores_file _ = false

abbrev pub buffers_data : Handler → Bool
buffers_data receive_data = true
buffers_data _ = false

abbrev pub writes_record : Handler → Bool
writes_record db_write = true
writes_record _ = false

both_true : (a b : Bool) → (a && not b) ≡ true → (a ≡ true) × (b ≡ false)
both_true a b h = ground arith

-- The handlers of a data transfer, by what they depend on.
abbrev plan : Bool → Bool → Bool → List Handler
plan large to_file db =
    secondary_authorize
    ∷ receive_metadata
    ∷ ((if large
          then file_receive ∷ []
          else receive_data ∷ (if to_file then file_write ∷ [] else []))
        ++ (if db then db_write ∷ [] else []))

transfer_plan :
    (threshold_mb : ℕ) (h : GenericRequestHeader)
    → transfer_handlers threshold_mb h ≡ (
        if receive_direct_to_file threshold_mb h && not (has_flag h.ingest_mode store_in_filesystem)
        then refused bad_request
        else handlers (
            plan
              (receive_direct_to_file threshold_mb h)
              (has_flag h.ingest_mode store_in_filesystem)
              (need_db_handler h)))
unfolding transfer_handlers
transfer_plan threshold_mb h = ground arith

plan_stores :
    (large to_file db : Bool)
    → (large && not to_file) ≡ false
    → (any stores_file (plan large to_file db) ≡ to_file)
      × (any buffers_data (plan large to_file db) ≡ not large)
      × (any writes_record (plan large to_file db) ≡ db)
plan_stores large to_file db h = ground arith

-- A data transfer is refused exactly if the data is too large for a buffer and is not to be stored in
-- the file system. Otherwise it is stored in a file exactly if the ingest mode says so, goes through a
-- buffer exactly if it is not too large, and a record is written exactly if one is needed.
pub transfer_stores :
    (threshold_mb : ℕ) (h : GenericRequestHeader)
    → let large = receive_direct_to_file threshold_mb h in
      let to_file = has_flag h.ingest_mode store_in_filesystem in
      ((transfer_handlers threshold_mb h ≡ refused bad_request)
        × (large ≡ true)
        × (to_file ≡ false))
      ⊎ ((hs : List Handler) × (transfer_handlers threshold_mb h ≡ handlers hs)
          × ((large && not to_file) ≡ false)
          × (any stores_file hs ≡ to_file)
          × (any buffers_data hs ≡ not large)
          × (any writes_record hs ≡ need_db_handler h))
transfer_stores threshold_mb h =
    let large = receive_direct_to_file threshold_mb h in
    let to_file = has_flag h.ingest_mode store_in_filesystem in
    let plans = transfer_plan threshold_mb h in
    elim (Bool-cases (large && not to_file)) [
      | inl e ↦ inl (rw (plans, e), (both_true large to_file e).0, (both_true large to_file e).1)
      | inr e ↦ inr (
        plan large to_file (need_db_handler h),
        rw (plans, e),
        e,
        (plan_stores large to_file (need_db_handler h) e).0,
        (plan_stores large to_file (need_db_handler h) e).1,
        (plan_stores large to_file (need_db_handler h) e).2,
      )
    ]

-- A list of handlers as `GenerateRequest` accepts it: it begins with the check of the authorization, and
-- nothing after that asks for one.
abbrev pub Checked : List Handler → Type 0
Checked hs =
    (rest : List Handler) × (hs ≡ secondary_authorize ∷ rest)
    × (any is_initial_authorize rest ≡ false)

plan-Checked : (large to_file db : Bool) → Checked (plan large to_file db)
plan-Checked true to_file true = (_, refl, refl)
plan-Checked true to_file false = (_, refl, refl)
plan-Checked false true true = (_, refl, refl)
plan-Checked false true false = (_, refl, refl)
plan-Checked false false true = (_, refl, refl)
plan-Checked false false false = (_, refl, refl)

transfer-Checked :
    (threshold_mb : ℕ) (h : GenericRequestHeader) (hs : List Handler)
    → transfer_handlers threshold_mb h ≡ handlers hs
    → Checked hs
transfer-Checked threshold_mb h hs e =
    let large = receive_direct_to_file threshold_mb h in
    let to_file = has_flag h.ingest_mode store_in_filesystem in
    elim (Bool-cases (large && not to_file)) [
      | inl bad ↦ absurd (ground (arith, transfer_plan threshold_mb h))
      | inr good ↦
          subst Checked
            (let p : plan large to_file (need_db_handler h) ≡ hs =
                ground (arith, transfer_plan threshold_mb h) in
              p)
            (plan-Checked large to_file (need_db_handler h))
    ]

handlers_for-Checked :
    (threshold_mb : ℕ) (h : GenericRequestHeader) (op : Opcode) (hs : List Handler)
    → handlers_for threshold_mb h op ≡ handlers hs
    → ((op ≡ authorize) × (hs ≡ receive_metadata ∷ initial_authorize ∷ []))
      ⊎ ((op ≢ authorize) × Checked hs)
unfolding handlers_for
handlers_for-Checked threshold_mb h transfer_data hs e =
    inr (λ x. cc, transfer-Checked threshold_mb h hs e)
handlers_for-Checked threshold_mb h transfer_dataset_data hs e =
    inr (λ x. cc, transfer-Checked threshold_mb h hs e)
handlers_for-Checked threshold_mb h transfer_meta_data hs e =
    inr (λ x. cc, (receive_data ∷ db_meta_write ∷ [], ground arith, refl))
handlers_for-Checked threshold_mb h authorize hs e = inl (refl, cc)
handlers_for-Checked threshold_mb h stream_info hs e =
    inr (λ x. cc, (db_stream_info ∷ [], cc, refl))
handlers_for-Checked threshold_mb h delete_stream hs e =
    inr (λ x. cc, (delete_stream_handler ∷ [], cc, refl))
handlers_for-Checked threshold_mb h last_stream hs e =
    inr (λ x. cc, (db_last_stream ∷ [], cc, refl))
handlers_for-Checked threshold_mb h get_meta hs e = inr (λ x. cc, (db_get_meta ∷ [], cc, refl))
handlers_for-Checked threshold_mb h unknown_op hs e = absurd (cc)
handlers_for-Checked threshold_mb h get_buffer_data hs e = absurd (cc)
handlers_for-Checked threshold_mb h count hs e = absurd (cc)

-- An accepted request begins with the check of its authorization, unless it asks for one; and only that
-- one reaches the initial authorization.
pub authorization_first :
    (threshold_mb : ℕ) (h : GenericRequestHeader) {hs : List Handler}
    → add_handlers_to_request threshold_mb h ≡ handlers hs
    → ((h.op_code ≡ authorize) × (hs ≡ receive_metadata ∷ initial_authorize ∷ []))
      ⊎ ((h.op_code ≢ authorize) × Checked hs)
unfolding add_handlers_to_request
authorization_first threshold_mb h {hs} e = handlers_for-Checked threshold_mb h h.op_code hs e
