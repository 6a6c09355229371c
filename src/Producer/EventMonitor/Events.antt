-- ===== src/Producer/EventMonitor/Events.antt =====
-- The events of producer/event_monitor_producer/src/system_folder_watch_linux.cpp: what each does to the folders that
-- are watched, and the files that it makes known.
pub mod Moved
use asapo.Base.{
  Bool, true, false, ◌||◌, List, [], ◌∷◌, ◌++◌, Option, none, some, ◌⊎◌, inl, inr, if◌then◌else◌,
  Text,
}
use asapo.Producer.EventMonitor.{
  WatchIo, EventMonitorError, system_error, EventKind, new_file, other_file, new_directory,
  directory_deleted, directory_moved, other_directory, InotifyEvent, SystemFolderWatch, Watched,
  Listed, add_folder_and_subfolders_to_watch, below, find_path, note_file, remove_folder_from_watch,
  remove_folder_with_subfolders_from_watch, unprocessed,
}

module _ {W : Type 0} (io : WatchIo W) where
  -- The full and the relative path of what an event names, if its folder is watched.
  pub find_event_paths : InotifyEvent → SystemFolderWatch → Option (Text × Text)
  unfolding find_path below
  find_event_paths event s = elim (find_path event.descriptor s.watched_folders_paths) [
    | none ↦ none
    | some folder ↦ some (below (below s.root_folder folder) event.name, below folder event.name)
  ]

  pub process_file_event : InotifyEvent → List Text → SystemFolderWatch × W → Listed W
  unfolding find_event_paths note_file
  process_file_event event files (s, w) = elim (find_event_paths event s) [
    | none ↦ ((some system_error, files), (s, w))
    | some (full, fname) ↦ ((none, files ++ (fname ∷ [])), (note_file fname s, w))
  ]

  existing_added :
      Text → List Text → SystemFolderWatch → (EventMonitorError ⊎ List Text) × W → Listed W
  unfolding unprocessed
  existing_added rel_path files s (inl e, w) = ((some e, files), (s, w))
  existing_added rel_path files s (inr found, w) =
      ((none, files ++ unprocessed rel_path s.processed_filenames found), (s, w))

  -- `AddExistingFilesToEvents` after the new folder is watched.
  existing_after : Text → Text → List Text → Watched W → Listed W
  unfolding existing_added
  existing_after full rel_path files (some e, s) = ((some e, files), s)
  existing_after full rel_path files (none, (s, w)) =
      existing_added rel_path files s (io.files_in_folder full w)

  pub process_new_directory_in_folder_event :
      InotifyEvent → List Text → SystemFolderWatch × W → Listed W
  unfolding find_event_paths add_folder_and_subfolders_to_watch existing_after
  process_new_directory_in_folder_event event files (s, w) = elim (find_event_paths event s) [
    | none ↦ ((some system_error, files), (s, w))
    | some (full, rel_path) ↦
        existing_after full rel_path files (add_folder_and_subfolders_to_watch io full (s, w))
  ]

  removed_from : Bool → InotifyEvent → List Text → SystemFolderWatch × W → Option Text → Listed W
  unfolding below remove_folder_with_subfolders_from_watch remove_folder_from_watch
  removed_from by_move event files s none = ((some system_error, files), s)
  removed_from true event files s (some folder) =
      ((none, files), remove_folder_with_subfolders_from_watch io (below folder event.name) s)
  removed_from false event files s (some folder) =
      ((none, files), remove_folder_from_watch io event.descriptor s)

  pub process_delete_directory_in_folder_event :
      Bool → InotifyEvent → List Text → SystemFolderWatch × W → Listed W
  unfolding find_path removed_from
  process_delete_directory_in_folder_event by_move event files (s, w) =
      removed_from by_move event files (s, w) (find_path event.descriptor s.watched_folders_paths)

  process_kind : EventKind → InotifyEvent → List Text → SystemFolderWatch × W → Listed W
  unfolding process_file_event process_new_directory_in_folder_event
      process_delete_directory_in_folder_event
  process_kind new_file event files s = process_file_event event files s
  process_kind other_file event files s = ((none, files), s)
  process_kind new_directory event files s = process_new_directory_in_folder_event event files s
  process_kind directory_deleted event files s =
      process_delete_directory_in_folder_event false event files s
  process_kind directory_moved event files s =
      process_delete_directory_in_folder_event true event files s
  process_kind other_directory event files s = ((none, files), s)

  pub process_inotify_event : InotifyEvent → List Text → SystemFolderWatch × W → Listed W
  unfolding process_kind
  process_inotify_event event files s = process_kind event.kind event files s

  -- The loop of `ProcessInotifyEvents`: whether some event had no error, and the files.
  counted :
      Bool
      → (Bool × List Text) × (SystemFolderWatch × W)
      → (Bool × List Text) × (SystemFolderWatch × W)
  counted good ((rest, files), s) = ((good || rest, files), s)

  is_good : Option EventMonitorError → Bool
  is_good none = true
  is_good (some e) = false

  pub process_all :
      List InotifyEvent
      → List Text
      → SystemFolderWatch × W
      → (Bool × List Text) × (SystemFolderWatch × W)
  unfolding process_inotify_event counted is_good
  process_all [] files s = ((false, files), s)
  process_all (x ∷ xs) files s =
      let ((err, files'), s') = process_inotify_event x files s in
      counted (is_good err) (process_all xs files' s')

  -- Without an event that had no error, there is an error and no file.
  pub process_inotify_events : List InotifyEvent → SystemFolderWatch × W → Listed W
  unfolding process_all
  process_inotify_events events s =
      let ((good, files), s') = process_all events [] s in
      if good then ((none, files), s') else ((some system_error, []), s')

  events_read : SystemFolderWatch → Option (List InotifyEvent) × W → Listed W
  unfolding process_inotify_events
  events_read s (none, w) = ((some system_error, []), (s, w))
  events_read s (some events, w) = process_inotify_events events (s, w)

  unfoldable pub get_file_list : SystemFolderWatch × W → Listed W
  unfolding events_read
  get_file_list (s, w) = events_read s (io.read w)
