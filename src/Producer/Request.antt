-- ===== src/Producer/Request.antt =====
-- producer/api/cpp/src/producer_request.cpp: what the transport reads of a request. Paths, messages and
-- data are numbers; `original_filepath` is `none` where it is empty.
use asapo.Base.{ℕ, Bool, true, not, ◌||◌, Option, none, ltb, if◌then◌else◌}
use asapo.Common.Networking.{
  transfer_data, transfer_dataset_data, GenericRequestHeader, has_flag, transfer_data_flag,
}

pub record ProducerRequest : Type 0 where
  pub header : GenericRequestHeader
  pub has_data : Bool
  pub original_filepath : Option ℕ
  pub has_callback : Bool
  pub source_credentials_size : ℕ

unfoldable pub need_send : ProducerRequest → Bool
unfolding has_flag
need_send r = elim r.header.op_code [
  | transfer_data ↦ has_flag r.header.ingest_mode transfer_data_flag
  | transfer_dataset_data ↦ has_flag r.header.ingest_mode transfer_data_flag
  | _ ↦ true
]

unfoldable pub need_send_meta_data : ProducerRequest → Bool
need_send_meta_data r = ltb 0 r.header.meta_size

-- The path, where the data comes from a file.
unfoldable pub data_from_file : ProducerRequest → Option ℕ
data_from_file r = if r.has_data || not (need_send r) then none else r.original_filepath
