-- ===== src/Consumer/Service/Message.antt =====
-- consumer_impl.cpp: `GetMessageFromServer`: a record of a stream, and then the data of its message. What
-- `MessageMeta::SetFromJson` reads from a reply is a parameter.
pub mod Got
mod Tests
use asapo.Base.{ℕ, Bool, true, false, List, [], ◌∷◌, Option, none, some, ◌==◌, if◌then◌else◌, State}
use asapo.Consumer.Service.{
  Text, RequestInfo, Reply, Suffix, broker_api, by_id, other_command, broker, ConsumerError,
  wrong_input, interrupted_transaction, is_empty,
}
use asapo.Consumer.Service.Timeout.{service_request_with_timeout}
use asapo.Consumer.Service.Record.{
  GetMessageServerOperation, get_next, get_last, get_id, get_last_in_group, group_zero,
  get_record_from_server,
}
use asapo.Consumer.Service.Data.{MessageMeta, Consumer, DataIo, Result}
use asapo.Consumer.Service.Data.Transfer.{retrieve_data}

module _ {W : Type 0} (io : DataIo W) (set_from_json : Text → Option MessageMeta)
    (resend : Option (ℕ × ℕ)) (stream : Text) where
  -- The address of the broker is part of every reply.
  pub set_broker : Consumer W → Option Reply × W → Option Reply × Consumer W
  set_broker c (none, w) = (none, record c { outside = w })
  set_broker c (some (err, response, uri), w) =
      (some (err, response, uri), record c { current_broker_uri = uri; outside = w })

  pub broker_request_with_timeout : ℕ → RequestInfo → State (Consumer W) (Option Reply)
  broker_request_with_timeout fuel r c = set_broker c (
      service_request_with_timeout io.service io.timeout_ms broker c.current_broker_uri r fuel
        c.outside)

  abbrev pub broker_request : Text → Suffix → Bool → Option ℕ → RequestInfo
  broker_request group_id suffix post min_size = record {
    host = [];
    api = broker_api stream group_id suffix;
    min_size = min_size;
    resend = none;
    cookie = [];
    size_only = false;
    post = post;
  }

  -- A stream needs a name.
  pub unless_empty : ℕ → RequestInfo → State (Consumer W) (Option Reply)
  unless_empty fuel r c =
      if is_empty stream
      then (some (some wrong_input, [], c.current_broker_uri), c)
      else broker_request_with_timeout fuel r c

  pub get_record_from_server_by_id : ℕ → ℕ → Text → Option ℕ → State (Consumer W) (Option Reply)
  get_record_from_server_by_id fuel id group_id min_size =
      unless_empty fuel (broker_request group_id (by_id id) false min_size)

  -- `GetRecordFromServerById` or `GetRecordFromServer`.
  pub record_of :
      ℕ → GetMessageServerOperation → ℕ → Text → Option ℕ → State (Consumer W) (Option Reply)
  record_of fuel get_id id group_id min_size c =
      get_record_from_server_by_id fuel id group_id min_size c
  record_of fuel op id group_id min_size c = set_broker c (
      get_record_from_server io.service io.timeout_ms resend stream min_size group_id op
        c.current_broker_uri fuel c.outside)

  -- By whether the caller has asked for the data.
  pub get_data_if_needed : Bool → ℕ → MessageMeta → Text → State (Consumer W) Result
  get_data_if_needed true fuel info bytes c = retrieve_data io fuel info bytes c
  get_data_if_needed false fuel info bytes c = (some (none, info, bytes), c)

  pub parsed : Bool → ℕ → MessageMeta → Text → Option MessageMeta → State (Consumer W) Result
  parsed wanted fuel info bytes none c = (some (some interrupted_transaction, info, bytes), c)
  parsed wanted fuel info bytes (some info') c = get_data_if_needed wanted fuel info' bytes c

  pub after_record : Bool → ℕ → MessageMeta → Text → Option Reply × Consumer W → Result × Consumer W
  after_record wanted fuel info bytes (none, c) = (none, c)
  after_record wanted fuel info bytes (some (some e, response, uri), c) =
      (some (some e, info, bytes), c)
  after_record wanted fuel info bytes (some (none, response, uri), c) =
      parsed wanted fuel info bytes (set_from_json response) c

  pub get_message_from_server :
      Bool
      → ℕ
      → GetMessageServerOperation
      → ℕ
      → Text
      → MessageMeta
      → Text
      → State (Consumer W) Result
  get_message_from_server wanted fuel op id group_id info bytes c =
      after_record wanted fuel info bytes (record_of fuel op id group_id none c)

  pub get_by_id : Bool → ℕ → ℕ → MessageMeta → Text → State (Consumer W) Result
  get_by_id wanted fuel id info bytes c =
      if id == 0
      then (some (some wrong_input, info, bytes), c)
      else get_message_from_server wanted fuel get_id id group_zero info bytes c
