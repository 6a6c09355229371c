-- ===== src/Producer/EventMonitor.antt =====
-- producer/event_monitor_producer/src/system_folder_watch_linux.cpp: the folders that are watched and the files
-- that events make known. The calls of inotify and of the io are the functions of a record; logs are left
-- out.
pub mod Events
pub mod Detector
mod Tests
use asapo.Base.{
  ℕ, zero, suc, ◌+◌, Bool, true, false, not, ◌&&◌, ◌||◌, List, [], ◌∷◌, ◌++◌, Option, none, some,
  ◌⊎◌, inl, inr, length, drop, ltb, ◌==◌, if◌then◌else◌, Text, same_text,
}

-- `io_failure` stands for the errors of the io.
pub data EventMonitorError : Type 0 where
  no_new_event system_error io_failure : EventMonitorError

-- What an event of inotify is, from its mask. A directory that goes is deleted, or moved away.
pub data EventKind : Type 0 where
  new_file other_file new_directory directory_deleted directory_moved other_directory : EventKind

pub record InotifyEvent : Type 0 where
  pub descriptor : ℕ
  pub kind : EventKind
  pub name : Text

-- `watched_folders_paths` is ordered by the descriptors. `processed_filenames` holds as many names as
-- kProcessedFilenamesBufLen, and the counter is the place of the next.
pub record SystemFolderWatch : Type 0 where
  pub root_folder : Text
  pub watched_folders_paths : List (ℕ × Text)
  pub processed_filenames : List Text
  pub processed_filenames_counter : ℕ

pub record WatchIo (W : Type 0) : Type 0 where
  pub init : W → Bool × W
  pub add_watch : Text → W → Option ℕ × W
  pub delete_watch : ℕ → W → W
  pub get_sub_directories : Text → W → (EventMonitorError ⊎ List Text) × W
  pub files_in_folder : Text → W → (EventMonitorError ⊎ List Text) × W
  pub read : W → Option (List InotifyEvent) × W

-- `watched_folders_paths_[id] = path`
pub set_path : ℕ → Text → List (ℕ × Text) → List (ℕ × Text)
set_path id path [] = (id, path) ∷ []
set_path id path ((k, p) ∷ rest) =
    let later = set_path id path rest in
    if k == id
    then (id, path) ∷ rest
    else if ltb id k
    then (id, path) ∷ (k, p) ∷ rest
    else (k, p) ∷ later

pub find_path : ℕ → List (ℕ × Text) → Option Text
find_path id [] = none
find_path id ((k, p) ∷ rest) = let later = find_path id rest in if k == id then some p else later

-- `processed_filenames_[i] = fname`
pub put_at : ℕ → Text → List Text → List Text
put_at i fname [] = []
put_at zero fname (x ∷ xs) = fname ∷ xs
put_at (suc i) fname (x ∷ xs) = x ∷ put_at i fname xs

pub is_in : Text → List Text → Bool
is_in fname [] = false
is_in fname (x ∷ xs) = same_text fname x || is_in fname xs

-- The path begins with this text.
pub has_prefix : Text → Text → Bool
has_prefix [] ys = true
has_prefix (x ∷ xs) [] = false
has_prefix (x ∷ xs) (y ∷ ys) = x == y && has_prefix xs ys

pub below : Text → Text → Text
below folder name = folder ++ (b'/' ∷ name)

-- `ProcessFileEvent` once the name of the file is known.
pub note_file : Text → SystemFolderWatch → SystemFolderWatch
unfolding put_at
note_file fname s =
    let next = s.processed_filenames_counter + 1 in
    record s {
      processed_filenames = put_at s.processed_filenames_counter fname s.processed_filenames;
      processed_filenames_counter = if next == length s.processed_filenames then 0 else next;
    }

-- The files of a new folder that are not among those processed last.
pub unprocessed : Text → List Text → List Text → List Text
unfolding is_in below
unprocessed rel_path processed [] = []
unprocessed rel_path processed (f ∷ fs) =
    let rest = unprocessed rel_path processed fs in
    if is_in (below rel_path f) processed then rest else below rel_path f ∷ rest

-- An error, the state of the watch, and the world.
abbrev pub Watched : Type 0 → Type 0
Watched W = Option EventMonitorError × (SystemFolderWatch × W)

-- An error, the files, the state of the watch, and the world.
abbrev pub Listed : Type 0 → Type 0
Listed W = (Option EventMonitorError × List Text) × (SystemFolderWatch × W)

module _ {W : Type 0} (io : WatchIo W) where
  watch_added : SystemFolderWatch → Text → Option ℕ × W → Watched W
  unfolding set_path
  watch_added s folder (none, w) = (some system_error, (s, w))
  watch_added s folder (some id, w) = (
    none,
    (
      record s {
        watched_folders_paths =
            set_path id (drop (length s.root_folder + 1) folder) s.watched_folders_paths;
      },
      w,
    ),
  )

  pub add_folder_to_watch : Text → SystemFolderWatch × W → Watched W
  unfolding watch_added
  add_folder_to_watch folder (s, w) = watch_added s folder (io.add_watch folder w)

  unless_error : (SystemFolderWatch × W → Watched W) → Watched W → Watched W
  unless_error next (some e, s) = (some e, s)
  unless_error next (none, s) = next s

  pub add_folders : List Text → SystemFolderWatch × W → Watched W
  unfolding add_folder_to_watch unless_error
  add_folders [] s = (none, s)
  add_folders (x ∷ xs) s = unless_error (add_folders xs) (add_folder_to_watch x s)

  add_subfolders : SystemFolderWatch → (EventMonitorError ⊎ List Text) × W → Watched W
  unfolding add_folders
  add_subfolders s (inl e, w) = (some e, (s, w))
  add_subfolders s (inr subdirs, w) = add_folders subdirs (s, w)

  pub add_folder_and_subfolders_to_watch : Text → SystemFolderWatch × W → Watched W
  unfolding add_folder_to_watch unless_error add_subfolders
  add_folder_and_subfolders_to_watch folder s =
      unless_error (λ (s', w). add_subfolders s' (io.get_sub_directories folder w))
        (add_folder_to_watch folder s)

  add_monitored : Text → List Text → SystemFolderWatch × W → Watched W
  unfolding add_folder_and_subfolders_to_watch unless_error below
  add_monitored root [] s = (none, s)
  add_monitored root (x ∷ xs) s =
      unless_error (add_monitored root xs) (add_folder_and_subfolders_to_watch (below root x) s)

  -- Every error is reported as one of the system.
  as_system_error : Watched W → Watched W
  as_system_error (none, s) = (none, s)
  as_system_error (some e, s) = (some system_error, s)

  pub start_folder_monitor : Text → List Text → SystemFolderWatch × W → Watched W
  unfolding add_monitored as_system_error
  start_folder_monitor root monitored_folders (s, w) =
      let (ok, w') = io.init w in
      if ok
      then as_system_error
          (add_monitored root monitored_folders (record s { root_folder = root }, w'))
      else (some system_error, (s, w'))

  -- The folders whose paths begin with this text are watched no longer.
  pub remove_prefixed : Text → List (ℕ × Text) → W → List (ℕ × Text) × W
  unfolding has_prefix
  remove_prefixed path [] w = ([], w)
  remove_prefixed path ((id, p) ∷ rest) w =
      let gone = has_prefix path p in
      let (kept, w') = remove_prefixed path rest (if gone then io.delete_watch id w else w) in
      (if gone then kept else (id, p) ∷ kept, w')

  pub remove_folder_with_subfolders_from_watch :
      Text → SystemFolderWatch × W → SystemFolderWatch × W
  unfolding remove_prefixed
  remove_folder_with_subfolders_from_watch path (s, w) =
      let (kept, w') = remove_prefixed path s.watched_folders_paths w in
      (record s { watched_folders_paths = kept }, w')

  pub without_id : ℕ → List (ℕ × Text) → List (ℕ × Text)
  without_id id [] = []
  without_id id ((k, p) ∷ rest) =
      let later = without_id id rest in if k == id then rest else (k, p) ∷ later

  pub remove_folder_from_watch : ℕ → SystemFolderWatch × W → SystemFolderWatch × W
  unfolding without_id
  remove_folder_from_watch id (s, w) = (
    record s { watched_folders_paths = without_id id s.watched_folders_paths },
    io.delete_watch id w,
  )
