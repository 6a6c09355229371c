-- ===== src/Receiver/FilePath.antt =====
-- receiver/src/request_handler/file_processors: the checks of the name of a file, the folder that it goes to,
-- and the two processors, which write the received data or receive it into the file. A text is the list of
-- its bytes.
pub mod Inside
mod Tests
use asapo.Base.{
  ℕ, Bool, true, false, ◌&&◌, ◌||◌, List, [], ◌∷◌, Option, none, some, ◌⊎◌, inl, inr, ◌==◌,
  if◌then◌else◌, State, Text, same_text,
}
use asapo.Common.Encoding.{c_string}
use asapo.Common.Networking.{has_flag, write_raw_data_to_offline}
use asapo.Receiver.Request.{ReceiverError, bad_request}
use asapo.Receiver.Authorization.{SourceType, processed, raw}

-- What the processors read of a request: the message and the ingest mode of its header, the size of the data,
-- and what the authorization has set.
pub record FileRequest : Type 0 where
  pub message : Text
  pub ingest_mode : ℕ
  pub data_size : ℕ
  pub source_type : SourceType
  pub offline_path : Text
  pub online_path : Text

-- The calls of the io: to write the data of the request, or to receive it into the file; both with the root
-- folder, the name, the size and the leave to overwrite.
pub record FileIo (W : Type 0) : Type 0 where
  pub write_data_to_file : Text → Text → ℕ → Bool → State W (Option ReceiverError)
  pub receive_data_to_file : Text → Text → ℕ → Bool → State W (Option ReceiverError)

pub is_empty : Text → Bool
is_empty [] = true
is_empty (x ∷ xs) = false

pub replace_separators : Text → Text
replace_separators [] = []
replace_separators (c ∷ cs) = (if c == b'\\' then b'/' else c) ∷ replace_separators cs

-- `Request::GetFileName`; the message ends at its first zero byte.
pub get_file_name : FileRequest → Text
unfolding replace_separators
get_file_name r = replace_separators (c_string r.message)

-- `fname.find("..")`
pub contains_dots : Text → Bool
contains_dots [] = false
contains_dots (a ∷ []) = false
contains_dots (a ∷ b ∷ rest) = (a == b'.' && b == b'.') || contains_dots (b ∷ rest)

pub check_file_name_is_absolute : Text → Option ReceiverError
unfolding contains_dots
check_file_name_is_absolute fname = if contains_dots fname then some bad_request else none

pub put_front : ℕ → Option Text → Option Text
put_front c none = none
put_front c (some cs) = some (c ∷ cs)

-- The text before the first separator, if there is one.
pub file_folder : Text → Option Text
unfolding put_front
file_folder [] = none
file_folder (c ∷ cs) = let rest = file_folder cs in if c == b'/' then some [] else put_front c rest

-- "raw" and "processed"
pub get_string_from_source_type : SourceType → Text
get_string_from_source_type raw = b'r' ∷ b'a' ∷ b'w' ∷ []
get_string_from_source_type processed =
    b'p' ∷ b'r' ∷ b'o' ∷ b'c' ∷ b'e' ∷ b's' ∷ b's' ∷ b'e' ∷ b'd' ∷ []

folder_result : Text → Option Text → Option ReceiverError
folder_result by_type none = some bad_request
folder_result by_type (some folder) = if same_text folder by_type then none else some bad_request

pub check_file_folder_corresponds_to_request_source_type : FileRequest → Text → Option ReceiverError
unfolding folder_result file_folder get_string_from_source_type
check_file_folder_corresponds_to_request_source_type r fname =
    folder_result (get_string_from_source_type r.source_type) (file_folder fname)

is_processed : SourceType → Bool
is_processed processed = true
is_processed raw = false

pub is_offline : FileRequest → Bool
unfolding is_processed
is_offline r = is_processed r.source_type || has_flag r.ingest_mode write_raw_data_to_offline

pub get_root_folder_from_request : FileRequest → ReceiverError ⊎ Text
unfolding is_offline is_empty
get_root_folder_from_request r =
    if is_offline r
    then inr r.offline_path
    else if is_empty r.online_path
    then inl bad_request
    else inr r.online_path

unless_error : Option ReceiverError → ReceiverError ⊎ Text → ReceiverError ⊎ Text
unless_error (some e) next = inl e
unless_error none next = next

pub get_root_folder : FileRequest → ReceiverError ⊎ Text
unfolding get_file_name check_file_name_is_absolute unless_error
    check_file_folder_corresponds_to_request_source_type get_root_folder_from_request
get_root_folder r =
    let fname = get_file_name r in
    unless_error (check_file_name_is_absolute fname) (
      unless_error (check_file_folder_corresponds_to_request_source_type r fname)
        (get_root_folder_from_request r))

-- What is done with the root folder, if there is one.
in_folder :
    {W : Type 0}
    → (Text → State W (Option ReceiverError))
    → ReceiverError ⊎ Text
    → State W (Option ReceiverError)
in_folder store (inl e) w = (some e, w)
in_folder store (inr root) w = store root w

module _ {W : Type 0} (io : FileIo W) where
  -- `WriteFileProcessor::ProcessFile`
  pub write_file : FileRequest → Bool → State W (Option ReceiverError)
  unfolding in_folder get_root_folder get_file_name
  write_file r overwrite w =
      if r.data_size == 0
      then (some bad_request, w)
      else in_folder (λ root. io.write_data_to_file root (get_file_name r) r.data_size overwrite)
          (get_root_folder r) w

  -- `ReceiveFileProcessor::ProcessFile`
  pub receive_file : FileRequest → Bool → State W (Option ReceiverError)
  unfolding in_folder get_root_folder get_file_name
  receive_file r overwrite w =
      in_folder (λ root. io.receive_data_to_file root (get_file_name r) r.data_size overwrite)
        (get_root_folder r) w
