-- ===== src/Receiver/DataServer/Tests.antt =====
-- The theorems about the data server at a concrete cache. The world counts what is sent.
use asapo.Base.{arith, ℕ, ◌≡◌, ◌+◌, [], ◌∷◌, true, some}
use asapo.Common.Networking.{get_buffer_data}
use asapo.Receiver.Cache.{DataCache}
use asapo.Receiver.Cache.Locks.{Numbered}
use asapo.Receiver.DataServer.{ReceiverDataServerRequest, RdsIo, process_request_unlocked}
use asapo.Receiver.DataServer.Serve.{Answered, serves}

abbrev cache : DataCache
cache = record {
  cache_size = 100;
  keep_dist = 10;
  counter = 11;
  cur_pointer = 30;
  metas =
      record { id = 77; addr = 40; size = 50; lock = 1; handle = 1 }
      ∷ record { id = 78; addr = 0; size = 30; lock = 0; handle = 2 }
      ∷ [];
  next_handle = 3;
}

abbrev counting : RdsIo ℕ
counting = record {
  send_header = λ _ w. (true, w + 1);
  send_bytes = λ _ size w. (true, w + size);
  close_socket = λ w. w;
  count = λ _ w. w;
}

abbrev request : ReceiverDataServerRequest
request = record { op_code = get_buffer_data; data_id = 77; data_size = 50; api_version = 2 }

handles-Numbered : Numbered 0 cache.metas 3
handles-Numbered = ground arith

serves_example :
    (w' : ℕ) × (process_request_unlocked counting 3 request (some cache) 0 ≡ some (some cache, w'))
    × Answered counting 3 request cache 0 w'
serves_example = serves counting 3 request cache 0 handles-Numbered
