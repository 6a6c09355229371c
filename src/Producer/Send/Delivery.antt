-- ===== src/Producer/Send/Delivery.antt =====
-- The producer's checks of the ingest mode against the receiver's choice of handlers
-- (producer/api/cpp/src/producer_impl.cpp, receiver/src/request_handler/request_factory.cpp).
use asapo.Base.{
  ℕ, ◌<◌, ◌≡◌, ◌≢◌, refl, ◌⊎◌, inl, inr, Bool, true, false, not, ◌&&◌, List, none, arith, ap, ◌∙◌,
}
use asapo.Common.Networking.{
  GenericRequestHeader, IngestModeFlag, has_flag, mask, transfer_meta_data_only,
  store_in_filesystem, store_in_database,
}
use asapo.Receiver.Factory.{
  Handler, handlers, refused, bad_request, need_db_handler, receive_direct_to_file,
  transfer_handlers, handlers_for, add_handlers_to_request,
}
use asapo.Receiver.Factory.Order.{any, stores_file, writes_record, transfer_stores}
use asapo.Producer.Send.{Text, MessageHeader, check_producer_request, generate_next_send_request}
use asapo.Producer.Send.Checks.{accepted, IsAcceptedMode}

module _ (threshold_mb : ℕ) (h : MessageHeader) (mode : ℕ) (stream : Text) where
  abbrev pub sent_header : GenericRequestHeader
  sent_header = generate_next_send_request h stream mode

  as_transfer :
      add_handlers_to_request threshold_mb sent_header ≡ transfer_handlers threshold_mb sent_header
  unfolding add_handlers_to_request handlers_for generate_next_send_request
  as_transfer = ground arith

  -- Data that is too large for a buffer of the receiver.
  abbrev pub is_large : Bool
  is_large = receive_direct_to_file threshold_mb sent_header

  sent_mode : sent_header.ingest_mode ≡ mode
  unfolding generate_next_send_request
  sent_mode = refl

  sent_flag : (f : IngestModeFlag) → has_flag sent_header.ingest_mode f ≡ has_flag mode f
  sent_flag f = ap (λ m. has_flag m f) sent_mode

  abbrev pub Stored : List Handler → Type 0
  Stored hs = (any stores_file hs ≡ true) ⊎ (any writes_record hs ≡ true)

  recorded :
      mode < 16
      → IsAcceptedMode mode
      → (has_flag mode store_in_filesystem ≡ true) ⊎ (need_db_handler sent_header ≡ true)
  unfolding need_db_handler has_flag mask generate_next_send_request
  recorded small m = ground arith

  meta_only :
      has_flag mode transfer_meta_data_only ≡ true
      → IsAcceptedMode mode
      → has_flag mode store_in_filesystem ≡ false
  meta_only meta m = ground arith

  large_stored :
      is_large ≡ true
      → (is_large && not (has_flag sent_header.ingest_mode store_in_filesystem)) ≡ false
      → has_flag sent_header.ingest_mode store_in_filesystem ≡ false
      → ⊥
  large_stored large stored none_flag = ground arith

  not_recorded :
      has_flag mode store_in_database ≡ false
      → mode ≢ mask transfer_meta_data_only
      → need_db_handler sent_header ≡ false
  unfolding need_db_handler generate_next_send_request
  not_recorded db other = ground arith

  -- A message that the producer accepts, with no flag but the four of the ingest modes, and whose data is
  -- not too large for a buffer of the receiver, goes through a handler that stores it in a file or one that
  -- records it in the database.
  pub delivered :
      mode < 16
      → check_producer_request h mode stream ≡ none
      → is_large ≡ false
      → (hs : List Handler) × (add_handlers_to_request threshold_mb sent_header ≡ handlers hs)
        × Stored hs
  delivered small ok fits = elim (transfer_stores threshold_mb sent_header) [
    | inl (e, large, _) ↦ absurd (let e' : is_large ≡ true = large in cc)
    | inr (hs, e, _, files, _, records) ↦ (
      hs,
      as_transfer ∙ e,
      elim (recorded small ((accepted h mode stream).0 ok).1) [
        | inl file ↦ inl (files ∙ (sent_flag store_in_filesystem ∙ file))
        | inr db ↦ inr (records ∙ db)
      ],
    )
  ]

  -- A message that the producer accepts with metadata only is refused by the receiver
  -- if its data is too large for a buffer, though no data is sent.
  large_metadata :
      check_producer_request h mode stream ≡ none
      → has_flag mode transfer_meta_data_only ≡ true
      → is_large ≡ true
      → add_handlers_to_request threshold_mb sent_header ≡ refused bad_request
  large_metadata ok meta large = elim (transfer_stores threshold_mb sent_header) [
    | inl (e, _, _) ↦ as_transfer ∙ e
    | inr (_, _, stored, _, _, _) ↦ absurd (
        let no_file = meta_only meta ((accepted h mode stream).0 ok).1 in
        let flag = sent_flag store_in_filesystem in large_stored large stored (flag ∙ no_file))
  ]

  -- A message with metadata only that the producer accepts, not for the database but with some further
  -- flag, and not too large for a buffer, is accepted by the receiver, and no handler of it stores or records
  -- anything.
  pub unrecorded :
      check_producer_request h mode stream ≡ none
      → has_flag mode transfer_meta_data_only ≡ true
      → has_flag mode store_in_database ≡ false
      → mode ≢ mask transfer_meta_data_only
      → is_large ≡ false
      → (hs : List Handler) × (add_handlers_to_request threshold_mb sent_header ≡ handlers hs)
        × (any stores_file hs ≡ false)
        × (any writes_record hs ≡ false)
  unrecorded ok meta db other fits = elim (transfer_stores threshold_mb sent_header) [
    | inl (_, large, _) ↦ absurd (let e' : is_large ≡ true = large in cc)
    | inr (hs, e, _, files, _, records) ↦ (
      hs,
      as_transfer ∙ e,
      files ∙ (sent_flag store_in_filesystem ∙ meta_only meta ((accepted h mode stream).0 ok).1),
      records ∙ not_recorded db other,
    )
  ]
