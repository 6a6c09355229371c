-- ===== src/Producer/EventMonitor/Detector/Tests.antt =====
-- Two new files and an ignored one, which are sent in batches of two.
use asapo.Base.{
  ℕ, zero, suc, ◌≡◌, refl, Bool, true, false, List, [], ◌∷◌, Option, none, some, inr, arith, Text,
  add64, sub64,
}
use asapo.Producer.EventMonitor.{InotifyEvent, new_file, WatchIo}
use asapo.Producer.EventMonitor.Events.{get_file_list}
use asapo.Producer.EventMonitor.Detector.{
  batch, EventMonConfig, check_datasets, FolderEventDetector, send_events,
}
use asapo.Producer.EventMonitor.Detector.Files.{Sends}
use asapo.Producer.EventMonitor.Detector.Run.{Numbered, send_events_lem}

abbrev new : Text → InotifyEvent
new name = record { descriptor = 1; kind = new_file; name = name }

abbrev events : ℕ → Option (List InotifyEvent)
events zero = some (new (b'x' ∷ []) ∷ new (b'.' ∷ b't' ∷ []) ∷ new (b'y' ∷ []) ∷ [])
events (suc n) = some []

abbrev io : WatchIo ℕ
io = record {
  init = λ w. (true, w);
  add_watch = λ folder w. (some w, suc w);
  delete_watch = λ id w. w;
  get_sub_directories = λ folder w. (inr [], w);
  files_in_folder = λ folder w. (inr [], w);
  read = λ w. (events w, suc w);
}

abbrev config : EventMonConfig
config = record {
  root_monitored_folder = b'/' ∷ [];
  monitored_subfolders = [];
  ignored_extensions = (b'.' ∷ b't' ∷ []) ∷ [];
  whitelisted_extensions = [];
  dataset_mode = batch;
  dataset_batch_size = 2;
  dataset_multisource_nsources = 1;
  dataset_multisource_sourceid = 1;
}

abbrev detector : FolderEventDetector
detector = record {
  system_folder_watch = record {
    root_folder = b'/' ∷ [];
    watched_folders_paths = (1, b'a' ∷ []) ∷ [];
    processed_filenames = [] ∷ [];
    processed_filenames_counter = 0;
  };
  monitoring_started = true;
  events_buffer = [];
}

abbrev signals : List Bool
signals = false ∷ false ∷ false ∷ []

config_is_good : check_datasets config ≡ none
unfolding check_datasets
config_is_good = refl

-- The two files are the first and the second message of the first batch.
two_files :
    (send_events io config signals 0 (detector, 0)).0
    ≡ (
      record {
        message_id = 1;
        data_size = 0;
        file_name = b'a' ∷ b'/' ∷ b'x' ∷ [];
        dataset_substream = 1;
        dataset_size = 2;
      },
      b'/' ∷ b'/' ∷ b'a' ∷ b'/' ∷ b'x' ∷ [],
    )
      ∷ (
        record {
          message_id = 1;
          data_size = 0;
          file_name = b'a' ∷ b'/' ∷ b'y' ∷ [];
          dataset_substream = 2;
          dataset_size = 2;
        },
        b'/' ∷ b'/' ∷ b'a' ∷ b'/' ∷ b'y' ∷ [],
      )
      ∷ []
unfolding send_events get_file_list add64 sub64
two_files = refl

send_events_lem_example :
    Sends io config 3 []
      (detector.system_folder_watch, 0)
      (send_events io config signals 0 (detector, 0))
    × Numbered io config 0 (send_events io config signals 0 (detector, 0))
send_events_lem_example =
    send_events_lem io config signals 0 detector 0 config_is_good refl (refl, (refl, (refl, tt)))
      (omega arith)
