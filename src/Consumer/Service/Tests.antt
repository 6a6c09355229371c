-- ===== src/Consumer/Service/Tests.antt =====
-- The theorems about the requests of the consumer, with a broker that has no data at first and then has
-- the message 5. The world counts the milliseconds.
use asapo.Base.{ℕ, ◌+◌, ◌≡◌, refl, true, false, [], ◌∷◌, Option, none, some, arith}
use asapo.Consumer.Service.{
  Text, HttpError, HttpCode, ok, conflict, ConsumerError, no_data, JsonParser, get_record_by_id,
  RequestInfo, Api, discovery, broker_api, transfer, folder_token, broker, next, by_id, ServiceIo,
  Reply, contains, starts_with,
}
use asapo.Consumer.Service.Timeout.{service_request_with_timeout, Justified, service_request_lem}
use asapo.Consumer.Service.Record.{get_record, prepare_request_info}
use asapo.Consumer.Service.Record.Told.{Told}
use asapo.Common.Encoding.{c_string}
use asapo.Consumer.Service.Record.Outcome.{Reported, get_record_lem}
use asapo.Consumer.Service.Data.{MessageMeta, undefined, Consumer, DataIo, other_net_error}
use asapo.Consumer.Service.Data.Transfer.{retrieve_data}
use asapo.Consumer.Service.Data.Source.{Fetched}
use asapo.Consumer.Service.Data.Fetch.{retrieve_data_lem}

abbrev answer : Api → ℕ → Option HttpError × HttpCode × Text
answer (discovery service) w = (none, ok, 7 ∷ [])
answer (broker_api stream group_id (by_id i)) w = (none, ok, i ∷ [])
answer (broker_api stream group_id suffix) w = (none, conflict, get_record_by_id)
answer (transfer name) w = (none, ok, 1 ∷ 2 ∷ [])
answer folder_token w = (none, ok, 9 ∷ [])

-- The values of "id" and "id_max".
abbrev number : Text → ℕ
number (c ∷ d ∷ []) = 5
number name = 6

abbrev parser : JsonParser
parser = record { get_uint64 = λ s name. some (number name); get_string = λ s name. some [] }

abbrev service : ServiceIo ℕ
service = record {
  json = parser;
  endpoint = 8 ∷ [];
  request = λ r w. (answer r.api w, w + 1);
  interrupted = λ w. false;
  clear_interrupt_flag = λ w. w;
  sleep = λ w. (100, w + 100);
}

abbrev meta_request : RequestInfo
meta_request = record {
  host = [];
  api = broker_api (1 ∷ []) (2 ∷ []) (by_id 3);
  min_size = none;
  resend = none;
  cookie = [];
  size_only = false;
  post = false;
}

service_request_lem_example :
    (reply : Reply) × (w' : ℕ) × (service_request_with_timeout service 250 broker [] meta_request 4
        0
      ≡ (some reply, w'))
    × Justified service meta_request reply
service_request_lem_example =
    service_request_lem service (λ w. omega arith) 250 3 (omega arith) broker [] meta_request 0

abbrev saved : ConsumerError
saved = no_data (some (record { id = 5; id_max = 6; next_stream = [] }))

names_message : contains get_record_by_id (c_string get_record_by_id) ≡ true
unfolding contains starts_with c_string
names_message = refl

abbrev first_request : RequestInfo
first_request = prepare_request_info service 250 none (1 ∷ []) none (2 ∷ []) next

-- The first reply has named the message 5.
first_reply : Told service first_request 5
unfolding prepare_request_info
first_reply = (conflict, get_record_by_id, 7 ∷ [], (names_message, refl), (8, refl, refl))

get_record_lem_example :
    (reply : Reply) × (w' : ℕ) × (get_record service 250 none
        (1 ∷ [])
        none
        3
        100
        (some saved)
        (b'0' ∷ [])
        (by_id 5)
        []
        (7 ∷ [])
        9
      ≡ (some reply, w'))
    × Reported service 250 none (1 ∷ []) none (2 ∷ []) next (some saved) reply
get_record_lem_example =
    get_record_lem service 250 none (1 ∷ []) none (2 ∷ []) next (λ w. omega arith) 2 100
      (some saved) (b'0' ∷ []) (by_id 5) [] (7 ∷ []) 9 (5, refl, refl, refl, refl, first_reply)
      (omega arith)

abbrev message : MessageMeta
message = record { name = 3 ∷ []; size = 0; buf_id = 4 }

abbrev new_consumer : Consumer ℕ
new_consumer = record {
  net_client = none;
  current_connection_type = undefined;
  should_try_rdma_first = true;
  folder_token_ = [];
  current_fts_uri = [];
  current_broker_uri = [];
  outside = 0;
}

abbrev io : DataIo ℕ
io = record {
  service = service;
  timeout_ms = 250;
  source_path = [];
  has_filesystem = false;
  get_data = λ client info bytes w. ((some other_net_error, bytes), w + 1);
  read_file = λ name w. ((false, 0, []), w + 1);
  until_locked = λ c. c;
}

retrieve_data_lem_example : Fetched io (3 ∷ []) (retrieve_data io 4 message [] new_consumer)
retrieve_data_lem_example =
    retrieve_data_lem io (λ w. omega arith) 3 (omega arith) (λ c e. e) message [] new_consumer
