-- ===== src/Producer/Tcp/Tests.antt =====
-- The theorems about sending a request, with a concrete world: the first connection is refused, the next
-- is accepted, and every request is answered with success. The state counts the calls.
use asapo.Base.{
  ℕ, ◌+◌, ◌⊎◌, inr, refl, true, false, if◌then◌else◌, [], ◌∷◌, Option, none, some, ◌==◌,
}
use asapo.Common.Networking.{transfer_data, no_error}
use asapo.Producer.Request.{ProducerRequest}
use asapo.Producer.Tcp.{process_request_unlocked}
use asapo.Producer.Tcp.Connection.{Io, RequestHandlerTcp}
use asapo.Producer.Tcp.Send.{Unreadable, Ends, process_request-Ends}

abbrev demo : Io ℕ
demo = record {
  header_size = 2120;
  connect = λ uri n. (if n == 0 then none else some 7, n + 1);
  send = λ sd payload size n. (true, n + 1);
  send_file = λ sd path size n. (true, n + 1);
  receive = λ sd n. (some (record { error_code = no_error; message = 3 }), n + 1);
  close_socket = λ sd n. n + 1;
  file_size = λ path n. (if path == 1 then some 100 else none, n + 1);
  now = λ n. (n, n);
  rotated_uri_list = λ thread_id n. (1 ∷ 2 ∷ [], n);
  update_frequency = λ n. 1000;
  max_connections = λ n. 4;
}

abbrev file_request : ℕ → ProducerRequest
file_request path = record {
  header = record {
    op_code = transfer_data;
    data_id = 1;
    data_size = 0;
    meta_size = 0;
    ingest_mode = 13;
    dataset_id = 0;
    dataset_size = 0;
    message = 0;
    stream = 0;
  };
  has_data = false;
  original_filepath = some path;
  has_callback = true;
  source_credentials_size = 20;
}

abbrev handler : Option ℕ → RequestHandlerTcp
handler sd = record {
  sd = sd;
  receivers_list = 1 ∷ 2 ∷ [];
  last_receivers_uri_update = 0;
  thread_id = 0;
  connected_receiver_uri = none;
}

process_request-Ends_example :
    let result = (process_request_unlocked demo (handler none) (file_request 1) 0).0 in
    Unreadable demo (file_request 1) (handler none) result ⊎ Ends demo (file_request 1) result
process_request-Ends_example =
    process_request-Ends demo (handler none) (file_request 1) 0 (inr refl)
