-- ===== src/Receiver/Connection/Tests.antt =====
-- A connection on which two requests come.
use asapo.Base.{ℕ, zero, suc, ◌+◌, ◌≡◌, ◌↔◌, true, Option, none, some}
use asapo.Common.Networking.{GenericRequestHeader, stream_info}
use asapo.Receiver.Connection.{ConnectionIo, listen}
use asapo.Receiver.Connection.Listen.{Ends, listen_lem}

abbrev header : GenericRequestHeader
header = record {
  op_code = stream_info;
  data_id = 1;
  data_size = 0;
  meta_size = 0;
  ingest_mode = 0;
  dataset_id = 0;
  dataset_size = 0;
  message = 0;
  stream = 0;
}

-- The world is the number of requests that are still to come.
abbrev next_header : ℕ → Option GenericRequestHeader × ℕ
next_header zero = (none, 0)
next_header (suc n) = (some header, n)

abbrev io : ConnectionIo ℕ
io = record {
  threshold_mb = 1;
  receive_header = next_header;
  step = λ h handler r w. ((none, r), w);
  send_response = λ response w. (true, w);
  count_request = λ size w. w;
  close_socket = λ w. w + 10;
  send_statistics = λ w. w;
}

listen_lem_example : (listen io 5 2 ≡ some 10) ↔ Ends io 5 2 10
listen_lem_example = listen_lem io 5 2 10
