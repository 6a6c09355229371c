-- ===== src/Receiver/FilePath/Tests.antt =====
-- A raw file that is stored in the online folder.
use asapo.Base.{ℕ, suc, ◌≡◌, refl, false, [], ◌∷◌, none}
use asapo.Receiver.Authorization.{raw}
use asapo.Common.Encoding.{c_string}
use asapo.Common.Networking.{has_flag, mask}
use asapo.Receiver.FilePath.{
  FileRequest, FileIo, get_file_name, write_file, receive_file, in_folder, get_root_folder,
  replace_separators, contains_dots, check_file_name_is_absolute,
  check_file_folder_corresponds_to_request_source_type, folder_result, file_folder, put_front,
  get_string_from_source_type, is_offline, is_processed, get_root_folder_from_request, is_empty,
  unless_error,
}
use asapo.Receiver.FilePath.Inside.{Processed, stored_inside}

-- raw\a
abbrev request : FileRequest
request = record {
  message = b'r' ∷ b'a' ∷ b'w' ∷ b'\\' ∷ b'a' ∷ 0 ∷ b'x' ∷ [];
  ingest_mode = 13;
  data_size = 5;
  source_type = raw;
  offline_path = b'/' ∷ b'o' ∷ [];
  online_path = b'/' ∷ b'n' ∷ [];
}

-- Each counts its calls.
abbrev io : FileIo ℕ
io = record {
  write_data_to_file = λ root name size overwrite n. (none, suc n);
  receive_data_to_file = λ root name size overwrite n. (none, suc n);
}

-- The file is written.
written : write_file io request false 0 ≡ (none, 1)
unfolding write_file in_folder get_root_folder get_file_name replace_separators contains_dots
    check_file_name_is_absolute check_file_folder_corresponds_to_request_source_type folder_result
    file_folder put_front get_string_from_source_type is_offline is_processed
    get_root_folder_from_request is_empty unless_error has_flag mask c_string
written = refl

stored_inside_example :
    Processed request
      (λ root. io.write_data_to_file root (get_file_name request) 5 false)
      (write_file io request false 0)
      0
    × Processed request
        (λ root. io.receive_data_to_file root (get_file_name request) 5 false)
        (receive_file io request false 0)
        0
stored_inside_example = stored_inside io request false 0
