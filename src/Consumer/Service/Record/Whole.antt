-- ===== src/Consumer/Service/Record/Whole.antt =====
-- `GetRecordFromServer` from its start.
use asapo.Base.{
  ℕ, suc, ◌*◌, ◌<◌, ◌≤◌, ◌≡◌, refl, inl, inr, [], Option, none, some, Bool-cases, arith,
}
use asapo.Consumer.Service.{
  ServiceIo, Text, RequestInfo, Suffix, Reply, broker_api, is_empty, wrong_input,
}
use asapo.Consumer.Service.Timeout.{Justified}
use asapo.Consumer.Service.Record.{
  GetMessageServerOperation, op_to_uri_cmd, get_record_from_server, prepare_request_info,
}
use asapo.Consumer.Service.Record.Outcome.{Reported, get_record_lem}

module _ {W : Type 0} (io : ServiceIo W) (stream : Text) where
  -- Without an error the reply is one of the broker to a request for a record of the stream.
  abbrev pub OfStream : Reply → Type 0
  OfStream (some e, response, uri) = Unit
  OfStream (none, response, uri) =
      (r : RequestInfo) × (group_id : Text) × (suffix : Suffix) × (r.api
        ≡ broker_api stream group_id suffix)
      × Justified io r (none, response, uri)

  module _ (sleeps : (w : W) → 100 ≤ (io.sleep w).0) (timeout_ms fuel : ℕ)
      (enough : timeout_ms < 100 * fuel) (resend : Option (ℕ × ℕ)) (min_size : Option ℕ) where
    reported :
        (first_group : Text) (first : Suffix) (reply : Reply)
        → Reported io timeout_ms resend stream min_size first_group first none reply
        → OfStream reply
    unfolding prepare_request_info
    reported first_group first (some e, response, uri) h = tt
    reported first_group first (none, response, uri) (group_id, suffix, asked, a, j) = (
      prepare_request_info io timeout_ms resend stream min_size group_id suffix,
      group_id,
      suffix,
      refl,
      j,
    )

    pub get_record_from_server_lem :
        (group_id : Text) (op : GetMessageServerOperation) (uri : Text) (w : W)
        → (reply : Reply) × (w' : W) × (get_record_from_server io timeout_ms resend stream min_size
              group_id op uri
              (suc fuel)
              w
            ≡ (some reply, w'))
          × OfStream reply
    unfolding get_record_from_server
    get_record_from_server_lem group_id op uri w = elim (Bool-cases (is_empty stream)) [
      | inl e ↦ ((some wrong_input, [], uri), w, rw e refl, tt)
      | inr e ↦
          let (reply, w', p, q) =
            get_record_lem io timeout_ms resend stream min_size group_id (op_to_uri_cmd op) sleeps
              fuel 0 none group_id (op_to_uri_cmd op) [] uri (io.clear_interrupt_flag w)
              (refl, refl) (omega arith) in
          (reply, w', rw e p, reported group_id (op_to_uri_cmd op) reply q)
    ]
