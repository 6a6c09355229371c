-- ===== src/Producer/EventMonitor/Detector/Rounds.antt =====
-- One round of the loop of main_eventmon.cpp, on the detector of folder_event_detector.cpp (both in
-- producer/event_monitor_producer/src).
use asapo.Base.{
  ◌≡◌, refl, ap, sym, ◌∙◌, ◌⊎◌, inl, inr, Bool, true, false, List, [], ◌∷◌, ◌++◌, append_assoc,
  append-nil, map, none, some, length, if◌then◌else◌, arith, Bool-cases, Text,
}
use asapo.Producer.EventMonitor.{SystemFolderWatch, WatchIo, Listed}
use asapo.Producer.EventMonitor.Events.{get_file_list}
use asapo.Producer.EventMonitor.Detector.{
  EventMonConfig, MessageHeader, DetectorError, FolderEventDetector, is_monitored, to_header,
  add_events, get_header_from_buffer, buffer_updated, after_update, get_next_event,
}

abbrev pub file_names : List MessageHeader → List Text
file_names hs = map (λ h. h.file_name) hs

-- The files that the detector is to make known.
unfoldable pub monitored : EventMonConfig → List Text → List Text
monitored config [] = []
monitored config (f ∷ fs) =
    let rest = monitored config fs in if is_monitored config f then f ∷ rest else rest

pub monitored-append :
    (config : EventMonConfig) (xs ys : List Text)
    → monitored config (xs ++ ys) ≡ monitored config xs ++ monitored config ys
unfolding monitored
monitored-append config [] ys = refl
monitored-append config (x ∷ xs) ys = ground (arith, monitored-append config xs ys)

file_names-append :
    (xs ys : List MessageHeader) → file_names (xs ++ ys) ≡ file_names xs ++ file_names ys
file_names-append [] ys = refl
file_names-append (x ∷ xs) ys = ap (◌∷◌ x.file_name) (file_names-append xs ys)

file_names-add_events :
    (config : EventMonConfig) (files : List Text) (b : List MessageHeader)
    → file_names (add_events config files b) ≡ file_names b ++ monitored config files
unfolding add_events monitored to_header
file_names-add_events config [] b = sym (append-nil _)
file_names-add_events config (f ∷ fs) b = elim (Bool-cases (is_monitored config f)) [
  | inl e ↦ rw e (
      file_names-add_events config fs (b ++ (to_header f ∷ []))
      ∙ ap (λ ns. ns ++ monitored config fs) (file_names-append b (to_header f ∷ []))
      ∙ append_assoc (file_names b) (f ∷ []) (monitored config fs))
  | inr e ↦ rw e (file_names-add_events config fs b)
]

abbrev pub good : {W : Type 0} → Listed W → List Text
good ((none, files), s) = files
good ((some e, files), s) = []

abbrev pub out : DetectorError ⊎ MessageHeader → List Text
out (inl e) = []
out (inr h) = h.file_name ∷ []

abbrev pub detector : SystemFolderWatch → Bool → List MessageHeader → FolderEventDetector
detector s on b = record { system_folder_watch = s; monitoring_started = on; events_buffer = b }

abbrev pub Next : Type 0 → Type 0
Next W = (DetectorError ⊎ MessageHeader) × (FolderEventDetector × W)

abbrev pub state : {W : Type 0} → FolderEventDetector × W → SystemFolderWatch × W
state (d, w) = (d.system_folder_watch, w)

module _ {W : Type 0} (io : WatchIo W) (config : EventMonConfig) where
  -- A round takes a header from the buffer, or finds it empty and makes a request.
  abbrev pub Took : FolderEventDetector × W → Next W → Type 0
  Took s r =
      (state r.1 ≡ state s)
      × ((out r.0 ++ file_names r.1.0.events_buffer ≡ file_names s.0.events_buffer)
          × (length (out r.0) ≡ 1))

  abbrev pub Asked : List MessageHeader → Listed W → Next W → Type 0
  Asked b l r =
      (state r.1 ≡ l.1)
      × ((file_names b ≡ [])
          × (out r.0 ++ file_names r.1.0.events_buffer ≡ monitored config (good l)))

  abbrev pub Round : FolderEventDetector × W → Next W → Type 0
  Round s r =
      (r.1.0.monitoring_started ≡ true)
      × (Took s r ⊎ Asked s.0.events_buffer (get_file_list io (state s)) r)

  taken-names :
      (s : SystemFolderWatch) (w : W) (hs : List MessageHeader)
      → let r = get_header_from_buffer (detector s true hs) in
        (r.1.system_folder_watch ≡ s)
        × ((r.1.monitoring_started ≡ true)
            × (out r.0 ++ file_names r.1.events_buffer ≡ file_names hs))
  unfolding get_header_from_buffer
  taken-names s w [] = (refl, (refl, refl))
  taken-names s w (h ∷ hs) = (refl, (refl, refl))

  Asked-buffer_updated :
      (s : SystemFolderWatch) (l : Listed W)
      → let r = after_update io config (buffer_updated io config (detector s true []) l) in
        (r.1.0.monitoring_started ≡ true) × Asked [] l r
  unfolding after_update buffer_updated monitored
  Asked-buffer_updated s ((some e, files), s') = (refl, (refl, (refl, refl)))
  Asked-buffer_updated s ((none, []), s') = (refl, (refl, (refl, refl)))
  Asked-buffer_updated s ((none, f ∷ fs), (s', w')) =
      let b = add_events config (f ∷ fs) [] in
      let (same, (on, names)) = taken-names s' w' b in
      (on, (ap (λ x. (x, w')) same, (refl, names ∙ file_names-add_events config (f ∷ fs) [])))

  Round-get_next_event :
      (s : SystemFolderWatch) (on : Bool) (b : List MessageHeader) (w : W)
      → on ≡ true
      → Round (detector s on b, w) (get_next_event io config (detector s on b, w))
  unfolding get_next_event
  Round-get_next_event s false b w e = cc
  Round-get_next_event s true (h ∷ b) w e = (refl, inl (refl, (refl, refl)))
  Round-get_next_event s true [] w e =
      let (on, asked) = Asked-buffer_updated s (get_file_list io (s, w)) in (on, inr asked)

  pub get_next_event-Round :
      (d : FolderEventDetector) (w : W)
      → d.monitoring_started ≡ true
      → Round (d, w) (get_next_event io config (d, w))
  get_next_event-Round d w on =
      Round-get_next_event d.system_folder_watch d.monitoring_started d.events_buffer w on
