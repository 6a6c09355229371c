-- ===== src/Producer/EventMonitor/Detector.antt =====
-- producer/event_monitor_producer/src/folder_event_detector.cpp, on the watch of folders, and the loop of main_eventmon.cpp
-- that sends the files. Logs are left out, and so is the callback that removes a file after it is sent.
pub mod Rounds
pub mod Files
pub mod Run
mod Tests
use asapo.Base.{
  ℕ, ◌+◌, ◌/◌, ◌%◌, Bool, true, false, not, ◌&&◌, ◌||◌, List, [], ◌∷◌, ◌++◌, Option, none, some,
  ◌⊎◌, inl, inr, length, ltb, ◌==◌, if◌then◌else◌, Text, add64, sub64,
}
use asapo.Producer.EventMonitor.{
  EventMonitorError, no_new_event, SystemFolderWatch, WatchIo, Watched, Listed, has_prefix, below,
  start_folder_monitor,
}
use asapo.Producer.EventMonitor.Events.{get_file_list}
use mathlib.Core.List.{reverse}

pub data DatasetMode : Type 0 where
  no_datasets batch multi_source : DatasetMode

pub record EventMonConfig : Type 0 where
  pub root_monitored_folder : Text
  pub monitored_subfolders : List Text
  pub ignored_extensions : List Text
  pub whitelisted_extensions : List Text
  pub dataset_mode : DatasetMode
  pub dataset_batch_size : ℕ
  pub dataset_multisource_nsources : ℕ
  pub dataset_multisource_sourceid : ℕ

pub data ConfigError : Type 0 where
  wrong_batch_size wrong_number_of_sources : ConfigError

pub check_mode : DatasetMode → EventMonConfig → Option ConfigError
check_mode no_datasets config = none
check_mode batch config = if ltb config.dataset_batch_size 1 then some wrong_batch_size else none
check_mode multi_source config =
    if ltb config.dataset_multisource_nsources 1 then some wrong_number_of_sources else none

pub check_datasets : EventMonConfig → Option ConfigError
unfolding check_mode
check_datasets config = check_mode config.dataset_mode config

pub record MessageHeader : Type 0 where
  pub message_id : ℕ
  pub data_size : ℕ
  pub file_name : Text
  pub dataset_substream : ℕ
  pub dataset_size : ℕ

-- The place of the message in its dataset and of the dataset, by the number of the message.
pub in_mode : DatasetMode → EventMonConfig → MessageHeader → MessageHeader
in_mode no_datasets config h = h
in_mode batch config h = record h {
  dataset_size = config.dataset_batch_size;
  dataset_substream = add64 (sub64 h.message_id 1 % config.dataset_batch_size) 1;
  message_id = add64 (sub64 h.message_id 1 / config.dataset_batch_size) 1;
}
in_mode multi_source config h = record h {
  dataset_size = config.dataset_multisource_nsources;
  dataset_substream = config.dataset_multisource_sourceid;
}

pub handle_datasets : EventMonConfig → MessageHeader → MessageHeader
unfolding in_mode
handle_datasets config h = in_mode config.dataset_mode config h

-- `not_started` is the error of a detector that does not monitor yet.
pub data DetectorError : Type 0 where
  not_started : DetectorError
  monitor_error : EventMonitorError → DetectorError

pub record FolderEventDetector : Type 0 where
  pub system_folder_watch : SystemFolderWatch
  pub monitoring_started : Bool
  pub events_buffer : List MessageHeader

ends_with : Text → Text → Bool
unfolding has_prefix
ends_with value ending =
    if ltb (length value) (length ending)
    then false
    else has_prefix (reverse ending) (reverse value)

pub file_in_list : List Text → Text → Bool
unfolding ends_with
file_in_list [] file = false
file_in_list (ext ∷ list) file = ends_with file ext || file_in_list list file

is_none : List Text → Bool
is_none [] = true
is_none (x ∷ xs) = false

file_in_white_list : EventMonConfig → Text → Bool
unfolding is_none file_in_list
file_in_white_list config file =
    is_none config.whitelisted_extensions || file_in_list config.whitelisted_extensions file

-- A file that is not ignored, and that is in the white list.
pub is_monitored : EventMonConfig → Text → Bool
unfolding file_in_list file_in_white_list
is_monitored config file =
    not (file_in_list config.ignored_extensions file) && file_in_white_list config file

pub to_header : Text → MessageHeader
to_header file = record {
  message_id = 0;
  data_size = 0;
  file_name = file;
  dataset_substream = 0;
  dataset_size = 0;
}

pub add_events : EventMonConfig → List Text → List MessageHeader → List MessageHeader
unfolding is_monitored to_header
add_events config [] events = events
add_events config (file ∷ files) events =
    add_events config files
      (if is_monitored config file then events ++ (to_header file ∷ []) else events)

buffer_is_empty : FolderEventDetector → Bool
buffer_is_empty d = elim d.events_buffer [ [] ↦ true | _ ∷ _ ↦ false ]

take_header :
    List MessageHeader → FolderEventDetector → (DetectorError ⊎ MessageHeader) × FolderEventDetector
take_header [] d = (inl (monitor_error no_new_event), d)
take_header (h ∷ hs) d = (inr h, record d { events_buffer = hs })

pub get_header_from_buffer :
    FolderEventDetector → (DetectorError ⊎ MessageHeader) × FolderEventDetector
unfolding take_header
get_header_from_buffer d = take_header d.events_buffer d

module _ {W : Type 0} (io : WatchIo W) (config : EventMonConfig) where
  buffer_updated : FolderEventDetector → Listed W → Option DetectorError × (FolderEventDetector × W)
  unfolding add_events
  buffer_updated d ((some e, files), (s, w)) =
      (some (monitor_error e), (record d { system_folder_watch = s }, w))
  buffer_updated d ((none, []), (s, w)) =
      (some (monitor_error no_new_event), (record d { system_folder_watch = s }, w))
  buffer_updated d ((none, file ∷ files), (s, w)) = (
    none,
    (
      record d {
        system_folder_watch = s;
        events_buffer = add_events config (file ∷ files) d.events_buffer;
      },
      w,
    ),
  )

  pub update_events_buffer :
      FolderEventDetector × W → Option DetectorError × (FolderEventDetector × W)
  unfolding buffer_updated
  update_events_buffer (d, w) = buffer_updated d (get_file_list io (d.system_folder_watch, w))

  after_update :
      Option DetectorError × (FolderEventDetector × W)
      → (DetectorError ⊎ MessageHeader) × (FolderEventDetector × W)
  unfolding get_header_from_buffer
  after_update (some e, s) = (inl e, s)
  after_update (none, (d, w)) = let (h, d') = get_header_from_buffer d in (h, (d', w))

  pub get_next_event :
      FolderEventDetector × W → (DetectorError ⊎ MessageHeader) × (FolderEventDetector × W)
  unfolding after_update update_events_buffer buffer_is_empty
  get_next_event (d, w) =
      if d.monitoring_started
      then after_update (if buffer_is_empty d then update_events_buffer (d, w) else (none, (d, w)))
      else (inl not_started, (d, w))

  watch_started : FolderEventDetector → Watched W → Option DetectorError × (FolderEventDetector × W)
  watch_started d (some e, (s, w)) =
      (some (monitor_error e), (record d { system_folder_watch = s }, w))
  watch_started d (none, (s, w)) =
      (none, (record d { system_folder_watch = s; monitoring_started = true }, w))

  pub start_monitoring : FolderEventDetector × W → Option DetectorError × (FolderEventDetector × W)
  unfolding watch_started start_folder_monitor
  start_monitoring (d, w) =
      if d.monitoring_started
      then (none, (d, w))
      else watch_started d (
          start_folder_monitor io config.root_monitored_folder config.monitored_subfolders
            (d.system_folder_watch, w))

  -- The number of the messages sent, after one round of the loop.
  next_number : DetectorError ⊎ MessageHeader → ℕ → ℕ
  next_number (inl e) i = i
  next_number (inr h) i = add64 i 1

  -- The calls of `SendFile`, each with its header and path, that one round puts before the later ones.
  sends :
      DetectorError ⊎ MessageHeader
      → ℕ
      → List (MessageHeader × Text) × (ℕ × (FolderEventDetector × W))
      → List (MessageHeader × Text) × (ℕ × (FolderEventDetector × W))
  unfolding handle_datasets below
  sends (inl e) i r = r
  sends (inr h) i (calls, r) = (
    (
      handle_datasets config (record h { message_id = i }),
      below config.root_monitored_folder h.file_name,
    )
        ∷ calls,
    r,
  )

  -- The loop of `main`, with what it reads of the signal in each round.
  pub send_events :
      List Bool
      → ℕ
      → FolderEventDetector × W
      → List (MessageHeader × Text) × (ℕ × (FolderEventDetector × W))
  unfolding get_next_event next_number sends
  send_events [] i s = ([], (i, s))
  send_events (stop ∷ signals) i s =
      let (next, s') = get_next_event s in
      let rest = send_events signals (next_number next i) s' in
      if stop then ([], (i, s')) else sends next (next_number next i) rest
