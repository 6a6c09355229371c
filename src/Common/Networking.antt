-- ===== src/Common/Networking.antt =====
-- common/cpp/include/asapo/common/networking.h, and the ingest flags of data_structs.h.
use asapo.Base.{ℕ, ◌/◌, ◌%◌, Bool, ◌==◌}

pub data Opcode : Type 0 where
  unknown_op transfer_data transfer_dataset_data stream_info last_stream get_buffer_data : Opcode
  authorize transfer_meta_data delete_stream get_meta count : Opcode

pub data NetworkErrorCode : Type 0 where
  no_error reauthorize warning wrong_request not_supported no_data : NetworkErrorCode
  authorization_error internal_server_error : NetworkErrorCode

-- The fields that the modelled code reads: `custom_data[kPosIngestMode]` is `ingest_mode`, and
-- `custom_data[kPosDataSetId]` is `dataset_id`, and the next one `dataset_size`. Texts are numbers.
pub record GenericRequestHeader : Type 0 where
  pub op_code : Opcode
  pub data_id : ℕ
  pub data_size : ℕ
  pub meta_size : ℕ
  pub ingest_mode : ℕ
  pub dataset_id : ℕ
  pub dataset_size : ℕ
  pub message : ℕ
  pub stream : ℕ

pub data IngestModeFlag : Type 0 where
  transfer_data_flag transfer_meta_data_only store_in_filesystem store_in_database
        write_raw_data_to_offline :
      IngestModeFlag

unfoldable pub mask : IngestModeFlag → ℕ
mask transfer_data_flag = 1
mask transfer_meta_data_only = 2
mask store_in_filesystem = 4
mask store_in_database = 8
mask write_raw_data_to_offline = 16

-- `mode & flag`, of one bit.
unfoldable pub has_flag : ℕ → IngestModeFlag → Bool
unfolding mask
has_flag mode flag = mode / mask flag % 2 == 1
