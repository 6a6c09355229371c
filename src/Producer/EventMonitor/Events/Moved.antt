-- ===== src/Producer/EventMonitor/Events/Moved.antt =====
-- A folder that is moved away (producer/event_monitor_producer/src/system_folder_watch_linux.cpp).
use asapo.Base.{
  ℕ, ◌≡◌, refl, ap, sym, ◌∙◌, ◌⊎◌, inl, inr, Bool, true, false, not, ◌&&◌, ◌||◌, List, [], ◌∷◌,
  ◌++◌, none, some, ==_refl, Bool-cases, arith, Text, same_text, same_text→≡,
}
use asapo.Producer.EventMonitor.{
  InotifyEvent, directory_moved, SystemFolderWatch, WatchIo, find_path, has_prefix, below,
  remove_prefixed, remove_folder_with_subfolders_from_watch,
}
use asapo.Producer.EventMonitor.Events.{
  removed_from, process_delete_directory_in_folder_event, process_kind, process_inotify_event,
}

-- Whether a folder of this path is watched.
abbrev pub watches : Text → List (ℕ × Text) → Bool
watches path [] = false
watches path ((id, p) ∷ rest) = same_text p path || watches path rest

has_prefix-append : (xs ys : Text) → has_prefix xs (xs ++ ys) ≡ true
unfolding has_prefix
has_prefix-append [] ys = refl
has_prefix-append (x ∷ xs) ys = rw (==_refl x) (has_prefix-append xs ys)

never : (a : Bool) → a && false ≡ false
never false = refl
never true = refl

stays : (s h p : Bool) → (s ≡ false) ⊎ (false ≡ p) → s || (h && not p) ≡ (s || h) && not p
stays false h p e = refl
stays true h p (inl e) = absurd (ground arith)
stays true h false (inr e) = refl
stays true h true (inr e) = absurd (ground arith)

goes : (s h p : Bool) → (s ≡ false) ⊎ (true ≡ p) → h && not p ≡ (s || h) && not p
goes false h p e = refl
goes true h p (inl e) = absurd (ground arith)
goes true h false (inr e) = absurd (ground arith)
goes true false true (inr e) = refl
goes true true true (inr e) = refl

agrees :
    (f : Text → Bool) (p path : Text) (b : Bool)
    → f p ≡ b
    → (same_text p path ≡ false) ⊎ (b ≡ f path)
agrees f p path b e = elim (Bool-cases (same_text p path)) [
  | inl s ↦ inr (sym e ∙ ap f (same_text→≡ p path s))
  | inr s ↦ inl s
]

module _ {W : Type 0} (io : WatchIo W) where
  watches-remove_prefixed :
      (prefix path : Text) (folders : List (ℕ × Text)) (w : W)
      → watches path (remove_prefixed io prefix folders w).0
        ≡ watches path folders && not (has_prefix prefix path)
  unfolding remove_prefixed
  watches-remove_prefixed prefix path [] w = refl
  watches-remove_prefixed prefix path ((id, p) ∷ rest) w = elim (Bool-cases (has_prefix prefix p)) [
    | inl e ↦
        rw (e, watches-remove_prefixed prefix path rest (io.delete_watch id w))
          (goes (same_text p path) (watches path rest) (has_prefix prefix path)
            (agrees (has_prefix prefix) p path true e))
    | inr e ↦
        rw (e, watches-remove_prefixed prefix path rest w)
          (stays (same_text p path) (watches path rest) (has_prefix prefix path)
            (agrees (has_prefix prefix) p path false e))
  ]

  -- After the event that a folder is moved away from a folder that is watched, exactly those folders are
  -- watched that were before and whose paths do not begin with its path below the root. So not only its
  -- subfolders are watched no longer, but also the folders beside it whose names begin with its name.
  pub moved_away :
      (event : InotifyEvent) (files : List Text) (s : SystemFolderWatch) (w : W)
      (folder path rest : Text)
      → event.kind ≡ directory_moved
      → find_path event.descriptor s.watched_folders_paths ≡ some folder
      → (s' : SystemFolderWatch × W) × ((process_inotify_event io event files (s, w)
            ≡ ((none, files), s'))
          × ((watches path s'.0.watched_folders_paths
                ≡ watches path s.watched_folders_paths
                  && not (has_prefix (below folder event.name) path))
              × (watches (below folder event.name ++ rest) s'.0.watched_folders_paths ≡ false)))
  unfolding process_inotify_event process_kind process_delete_directory_in_folder_event removed_from
      remove_folder_with_subfolders_from_watch
  moved_away event files s w folder path rest moved found =
      let gone = below folder event.name in
      let left = watches-remove_prefixed gone in
      let all = s.watched_folders_paths in
      (
        remove_folder_with_subfolders_from_watch io gone (s, w),
        (
          ap (λ k. process_kind io k event files (s, w)) moved
              ∙ ap (removed_from io true event files (s, w)) found,
          (
            left path all w,
            left (gone ++ rest) all w
                ∙ ap (λ b. watches (gone ++ rest) all && not b) (has_prefix-append gone rest)
                ∙ never (watches (gone ++ rest) all),
          ),
        ),
      )
