-- ===== src/Consumer/Service/Message/Got.antt =====
-- What `GetMessageFromServer` returns.
use asapo.Base.{
  ℕ, suc, ◌*◌, ◌<◌, ◌≤◌, ◌≡◌, refl, sym, subst, inl, inr, Bool, true, false, [], Option, none, some,
  Bool-cases,
}
use asapo.Consumer.Service.{
  Text, Reply, by_id, ConsumerError, wrong_input, interrupted_transaction, is_empty, broker,
}
use asapo.Consumer.Service.Timeout.{Justified, service_request_lem}
use asapo.Consumer.Service.Record.{
  GetMessageServerOperation, get_next, get_last, get_id, get_last_in_group, get_record_from_server,
}
use asapo.Consumer.Service.Record.Whole.{OfStream, get_record_from_server_lem}
use asapo.Consumer.Service.Data.{MessageMeta, Consumer, DataIo, Result}
use asapo.Consumer.Service.Data.Source.{Source, Sourced}
use asapo.Consumer.Service.Data.Fetch.{retrieve_data_lem}
use asapo.Consumer.Service.Message.{
  set_broker, broker_request_with_timeout, broker_request, unless_empty,
  get_record_from_server_by_id, record_of, get_data_if_needed, parsed, after_record,
  get_message_from_server,
}

module _ {W : Type 0} (io : DataIo W) (set_from_json : Text → Option MessageMeta)
    (resend : Option (ℕ × ℕ)) (stream : Text) where
  -- The data has a source if it is asked for.
  abbrev pub Wanted : Bool → Text → Text → Type 0
  Wanted true name bytes = Source io name bytes
  Wanted false name bytes = Unit

  -- The metadata is read from a reply of the broker for the stream.
  abbrev pub Got : Bool → Option ConsumerError → MessageMeta → Text → Type 0
  Got wanted (some e) info bytes = Unit
  Got wanted none info bytes =
      (response uri : Text) × (told : MessageMeta) × OfStream io.service stream
        (none, response, uri)
      × (set_from_json response ≡ some told)
      × (info.name ≡ told.name)
      × Wanted wanted info.name bytes

  abbrev pub Ends : Bool → Result × Consumer W → Type 0
  Ends wanted x =
      (err : Option ConsumerError) × (info : MessageMeta) × (bytes : Text) × (c : Consumer W) × (x
        ≡ (some (err, info, bytes), c))
      × Got wanted err info bytes

  -- The record is there, and is one of the stream.
  abbrev Recorded : Option Reply × Consumer W → Type 0
  Recorded x =
      (reply : Reply) × (c : Consumer W) × (x ≡ (some reply, c)) × OfStream io.service stream reply

  module _ (sleeps : (w : W) → 100 ≤ (io.service.sleep w).0) (fuel : ℕ)
      (enough : io.timeout_ms < 100 * fuel) where
    of_stream :
        (group_id : Text) (id : ℕ) (min_size : Option ℕ) (reply : Reply)
        → Justified io.service
            (broker_request io set_from_json resend stream group_id (by_id id) false min_size)
            reply
        → OfStream io.service stream reply
    of_stream group_id id min_size (some e, response, uri) j = tt
    of_stream group_id id min_size (none, response, uri) j = (
      broker_request io set_from_json resend stream group_id (by_id id) false min_size,
      group_id,
      by_id id,
      refl,
      j,
    )

    set-Recorded :
        (c : Consumer W) (reply : Reply) (w : W)
        → OfStream io.service stream reply
        → Recorded (set_broker io set_from_json resend stream c (some reply, w))
    unfolding set_broker
    set-Recorded c (err, response, uri) w h = ((err, response, uri), _, refl, h)

    by_id-Recorded :
        (id : ℕ) (group_id : Text) (min_size : Option ℕ) (c : Consumer W)
        → Recorded (
            get_record_from_server_by_id io set_from_json resend stream
              (suc fuel)
              id
              group_id
              min_size
              c)
    unfolding get_record_from_server_by_id unless_empty broker_request_with_timeout
    by_id-Recorded id group_id min_size c = elim (Bool-cases (is_empty stream)) [
      | inl e ↦ ((some wrong_input, [], c.current_broker_uri), c, rw e refl, tt)
      | inr e ↦
          let (reply, w', p, q) =
            service_request_lem io.service sleeps io.timeout_ms fuel enough broker
              c.current_broker_uri
              (broker_request io set_from_json resend stream group_id (by_id id) false min_size)
              c.outside in
          rw (e, p) (set-Recorded c reply w' (of_stream group_id id min_size reply q))
    ]

    server-Recorded :
        (op : GetMessageServerOperation) (group_id : Text) (min_size : Option ℕ) (c : Consumer W)
        → Recorded (
            set_broker io set_from_json resend stream c (
              get_record_from_server io.service io.timeout_ms resend stream min_size group_id op
                c.current_broker_uri
                (suc fuel)
                c.outside))
    server-Recorded op group_id min_size c =
        let (reply, w', p, q) =
          get_record_from_server_lem io.service stream sleeps io.timeout_ms fuel enough resend
            min_size group_id op c.current_broker_uri c.outside in
        rw p (set-Recorded c reply w' q)

    record-Recorded :
        (op : GetMessageServerOperation) (id : ℕ) (group_id : Text) (min_size : Option ℕ)
        (c : Consumer W)
        → Recorded (record_of io set_from_json resend stream (suc fuel) op id group_id min_size c)
    unfolding record_of
    record-Recorded get_id id group_id min_size c = by_id-Recorded id group_id min_size c
    record-Recorded get_next id group_id min_size c = server-Recorded get_next group_id min_size c
    record-Recorded get_last id group_id min_size c = server-Recorded get_last group_id min_size c
    record-Recorded get_last_in_group id group_id min_size c =
        server-Recorded get_last_in_group group_id min_size c

    module _
        (alone : (c : Consumer W) → c.net_client ≡ none → (io.until_locked c).net_client ≡ none)
        (response uri : Text) (told : MessageMeta)
        (asked : OfStream io.service stream (none, response, uri))
        (read : set_from_json response ≡ some told) where
      fetched-Got :
          (err : Option ConsumerError) (info : MessageMeta) (bytes : Text)
          → info.name ≡ told.name
          → Sourced io told.name err bytes
          → Got true err info bytes
      fetched-Got (some e) info bytes n h = tt
      fetched-Got none info bytes n h =
          (response, uri, told, asked, read, n, subst (λ x. Source io x bytes) (sym n) h)

      data-Ends :
          (wanted : Bool) (bytes : Text) (c : Consumer W)
          → Ends wanted
              (get_data_if_needed io set_from_json resend stream wanted (suc fuel) told bytes c)
      unfolding get_data_if_needed
      data-Ends false bytes c =
          (none, told, bytes, c, refl, (response, uri, told, asked, read, refl, tt))
      data-Ends true bytes c =
          let (err, info, bytes', c', p, n, h) =
            retrieve_data_lem io sleeps fuel enough alone told bytes c in
          (err, info, bytes', c', p, fetched-Got err info bytes' n h)

    module _
        (alone : (c : Consumer W) → c.net_client ≡ none → (io.until_locked c).net_client ≡ none)
        (wanted : Bool) (info : MessageMeta) (bytes : Text) where
      parsed-Ends :
          (response uri : Text) (c : Consumer W)
          → OfStream io.service stream (none, response, uri)
          → (x : Option MessageMeta) → set_from_json response ≡ x
          → Ends wanted (parsed io set_from_json resend stream wanted (suc fuel) info bytes x c)
      unfolding parsed
      parsed-Ends response uri c h none e = (some interrupted_transaction, info, bytes, c, refl, tt)
      parsed-Ends response uri c h (some told) e =
          data-Ends alone response uri told h e wanted bytes c

      reply-Ends :
          (reply : Reply) (c : Consumer W)
          → OfStream io.service stream reply
          → Ends wanted (
              after_record io set_from_json resend stream wanted
                (suc fuel)
                info
                bytes
                (some reply, c))
      unfolding after_record
      reply-Ends (some e, response, uri) c h = (some e, info, bytes, c, refl, tt)
      reply-Ends (none, response, uri) c h = parsed-Ends response uri c h _ refl

      -- If every round takes 100 ms, and no other thread makes the net client meanwhile, the request for a
      -- message of a stream ends. If it reports no error, the metadata is for the message that a reply of
      -- the broker to a request for a record of this stream names, and the data, if it is asked for, comes
      -- from a receiver, the file of this message or the file transfer service.
      pub get_message_lem :
          (op : GetMessageServerOperation) (id : ℕ) (group_id : Text) (c : Consumer W)
          → Ends wanted (
              get_message_from_server io set_from_json resend stream wanted
                (suc fuel)
                op
                id
                group_id
                info
                bytes
                c)
      unfolding get_message_from_server
      get_message_lem op id group_id c =
          let (reply, c', p, q) = record-Recorded op id group_id none c in
          rw p (reply-Ends reply c' q)
