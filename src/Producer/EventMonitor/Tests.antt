-- ===== src/Producer/EventMonitor/Tests.antt =====
-- A folder "a/b" is moved away, and "a/bc" is watched no longer.
use asapo.Base.{ℕ, ◌≡◌, refl, suc, true, false, not, ◌&&◌, [], ◌∷◌, ◌++◌, none, some, inr, Text}
use asapo.Producer.EventMonitor.{
  InotifyEvent, directory_moved, SystemFolderWatch, WatchIo, has_prefix, below, find_path,
}
use asapo.Producer.EventMonitor.Events.{process_inotify_event}
use asapo.Producer.EventMonitor.Events.Moved.{watches, moved_away}

abbrev io : WatchIo ℕ
io = record {
  init = λ w. (true, w);
  add_watch = λ folder w. (some w, suc w);
  delete_watch = λ id w. w;
  get_sub_directories = λ folder w. (inr [], w);
  files_in_folder = λ folder w. (inr [], w);
  read = λ w. (some [], w);
}

abbrev a : Text
a = b'a' ∷ []

abbrev a_bc : Text
a_bc = b'a' ∷ b'/' ∷ b'b' ∷ b'c' ∷ []

abbrev watch : SystemFolderWatch
watch = record {
  root_folder = b'/' ∷ [];
  watched_folders_paths = (1, a) ∷ (2, a_bc) ∷ [];
  processed_filenames = [];
  processed_filenames_counter = 0;
}

abbrev event : InotifyEvent
event = record { descriptor = 1; kind = directory_moved; name = b'b' ∷ [] }

a_is_found : find_path 1 watch.watched_folders_paths ≡ some a
unfolding find_path
a_is_found = refl

moved_away_example :
    (s' : SystemFolderWatch × ℕ) × ((process_inotify_event io event [] (watch, 3)
        ≡ ((none, []), s'))
      × ((watches a s'.0.watched_folders_paths
            ≡ watches a watch.watched_folders_paths && not (has_prefix (below a (b'b' ∷ [])) a))
          × (watches (below a (b'b' ∷ []) ++ (b'c' ∷ [])) s'.0.watched_folders_paths ≡ false)))
moved_away_example = moved_away io event [] watch 3 a a (b'c' ∷ []) refl a_is_found
