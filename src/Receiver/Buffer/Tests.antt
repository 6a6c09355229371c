-- ===== src/Receiver/Buffer/Tests.antt =====
-- A request in a small cache, and the one after it.
use asapo.Base.{ℕ, ◌+◌, ◌≡◌, refl, true, [], none, some, length, arith, add64, sub64}
use asapo.Common.Networking.{GenericRequestHeader, transfer_data, has_flag}
use asapo.Receiver.Cache.{
  DataCache, get_free_slot_and_lock, intersects, scan, any_locked, clean_old_slots, allocate_slot,
  check_allocation_size, get_next_id, add_slot,
}
use asapo.Receiver.Cache.Alloc.{evicted}
use asapo.Receiver.Buffer.{
  DataBuffer, BufferIo, get_slot_id, need_receive_data, receive_process_request,
}
use asapo.Receiver.Buffer.Dangling.{received, buffer, transferred, dangling}

abbrev cache : DataCache
cache = record {
  cache_size = 10;
  keep_dist = 2;
  counter = 5;
  cur_pointer = 0;
  metas = [];
  next_handle = 0;
}

abbrev header : GenericRequestHeader
header = record {
  op_code = transfer_data;
  data_id = 1;
  data_size = 6;
  meta_size = 0;
  ingest_mode = 13;
  dataset_id = 0;
  dataset_size = 0;
  message = 0;
  stream = 0;
}

abbrev io : BufferIo ℕ
io = record {
  allocate = λ size w. (true, w);
  receive = λ at size w. (true, w + 1);
  meanwhile = λ w. [];
}

abbrev empty : DataBuffer
empty = record { cache = none; data_ptr = none; slot_meta = none; data_buffer = none }

first_slot : (get_free_slot_and_lock cache 6 1).0 ≡ some (0, 0)
unfolding get_free_slot_and_lock check_allocation_size add_slot allocate_slot clean_old_slots scan
    any_locked intersects get_next_id sub64 add64
first_slot = refl

second_slot : (get_free_slot_and_lock (received cache 6 1) 7 2).0 ≡ some (0, 1)
unfolding get_free_slot_and_lock check_allocation_size add_slot allocate_slot clean_old_slots scan
    any_locked intersects get_next_id sub64 add64
second_slot = refl

only_slot : evicted (received cache 6 1) 7 ≡ length (received cache 6 1).metas
unfolding scan intersects sub64 add64
only_slot = refl

is_transferred : need_receive_data header ≡ true
unfolding need_receive_data has_flag
is_transferred = refl

dangling_example :
    (receive_process_request io header 1 (record empty { cache = some cache }) 0
      ≡ some ((none, buffer empty cache 6 1), (transferred io header cache 0).1))
    × (get_slot_id
          (buffer empty cache 6 1).slot_meta
          (get_free_slot_and_lock (received cache 6 1) 7 2).1.metas
        ≡ none)
dangling_example =
    dangling io header 1 empty cache 0 7 2 (0, 0) (0, 1) (omega arith) first_slot is_transferred
      refl refl second_slot only_slot
