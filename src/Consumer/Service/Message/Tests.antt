-- ===== src/Consumer/Service/Message/Tests.antt =====
-- A message that the broker has, and whose data comes from the file transfer service.
use asapo.Base.{ℕ, true, false, [], ◌∷◌, Option, none, some, arith}
use asapo.Consumer.Service.{
  Text, HttpError, HttpCode, ok, Api, discovery, broker_api, transfer, folder_token, ServiceIo,
}
use asapo.Consumer.Service.Record.{get_next}
use asapo.Consumer.Service.Data.{MessageMeta, undefined, Consumer, DataIo, other_net_error}
use asapo.Consumer.Service.Message.{get_message_from_server}
use asapo.Consumer.Service.Message.Got.{Ends, get_message_lem}

abbrev answer : Api → Option HttpError × HttpCode × Text
answer (discovery service) = (none, ok, 7 ∷ [])
answer (broker_api stream group_id suffix) = (none, ok, 3 ∷ [])
answer (transfer name) = (none, ok, 1 ∷ 2 ∷ [])
answer folder_token = (none, ok, 9 ∷ [])

abbrev service : ServiceIo ℕ
service = record {
  json = record { get_uint64 = λ s name. some 2; get_string = λ s name. some [] };
  endpoint = 8 ∷ [];
  request = λ r w. (answer r.api, w);
  interrupted = λ w. false;
  clear_interrupt_flag = λ w. w;
  sleep = λ w. (100, w);
}

abbrev io : DataIo ℕ
io = record {
  service = service;
  timeout_ms = 50;
  source_path = [];
  has_filesystem = false;
  get_data = λ client info bytes w. ((some other_net_error, bytes), w);
  read_file = λ name w. ((false, 0, []), w);
  until_locked = λ c. c;
}

abbrev no_message : MessageMeta
no_message = record { name = []; size = 0; buf_id = 0 }

abbrev new_consumer : Consumer ℕ
new_consumer = record {
  net_client = none;
  current_connection_type = undefined;
  should_try_rdma_first = true;
  folder_token_ = [];
  current_fts_uri = [];
  current_broker_uri = [];
  outside = 0;
}

abbrev read_meta : Text → Option MessageMeta
read_meta s = some (record { name = s; size = 0; buf_id = 4 })

get_message_lem_example : Ends io read_meta none (5 ∷ []) true (
    get_message_from_server io read_meta none
      (5 ∷ [])
      true
      2
      get_next
      0
      (6 ∷ [])
      no_message
      []
      new_consumer)
get_message_lem_example =
    get_message_lem io read_meta none (5 ∷ []) (λ w. omega arith) 1 (omega arith) (λ c e. e) true
      no_message [] get_next 0 (6 ∷ []) new_consumer
