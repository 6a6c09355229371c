-- ===== src/Producer/EventMonitor/Detector/Run.antt =====
-- The messages that the event monitor sends, with their numbers and paths (main_eventmon.cpp and folder_event_detector.cpp in
-- producer/event_monitor_producer/src) of the files that its watch lists.
use asapo.Base.{
  ℕ, zero, suc, ◌+◌, ◌-◌, ◌*◌, ◌/◌, ◌%◌, ◌^◌, ◌≤◌, ◌<◌, ◌≡◌, refl, ap, sym, ◌∙◌, ◌⊎◌, inl, inr,
  Bool, true, false, List, [], ◌∷◌, map, none, length, All, arith, Text, add64, add64_exact,
  sub64_exact,
}
use asapo.Producer.EventMonitor.{WatchIo, below}
use asapo.Producer.EventMonitor.Detector.{
  DatasetMode, no_datasets, batch, multi_source, EventMonConfig, check_mode, check_datasets,
  MessageHeader, in_mode, handle_datasets, DetectorError, FolderEventDetector, get_next_event,
  next_number, sends, send_events,
}
use native.Mathlib.Nat.{div-le_self, div-add-mod}
use asapo.Producer.EventMonitor.Detector.Rounds.{file_names}
use asapo.Producer.EventMonitor.Detector.Files.{
  sent_names, file_name-in_mode, SentCalls, Sends, send_events-Sends,
}

-- The number of a message, from its header.
abbrev pub position_in : DatasetMode → MessageHeader → ℕ
position_in no_datasets h = h.message_id
position_in batch h = (h.message_id - 1) * h.dataset_size + h.dataset_substream
position_in multi_source h = h.message_id

abbrev pub up : ℕ → ℕ → List ℕ
up i zero = []
up i (suc n) = suc i ∷ up (suc i) n

batch_place : (y s : ℕ) → y + 1 < 2 ^ 64 → (add64 (y / s) 1 - 1) * s + add64 (y % s) 1 ≡ y + 1
batch_place y s h =
    let q : y / s ≤ y = div-le_self y s in
    let e : s * (y / s) + y % s ≡ y = div-add-mod y s in
    rw (add64_exact (y / s) 1 (omega arith))
      (rw (add64_exact (y % s) 1 (omega arith)) (grind arith))

position-in_mode :
    (m : DatasetMode) (config : EventMonConfig) (h : MessageHeader)
    → check_mode m config ≡ none
    → 0 < h.message_id
    → h.message_id < 2 ^ 64
    → position_in m (in_mode m config h) ≡ h.message_id
unfolding check_mode in_mode
position-in_mode no_datasets config h ok pos small = refl
position-in_mode multi_source config h ok pos small = refl
position-in_mode batch config h ok pos small =
    rw (sub64_exact h.message_id 1 small pos)
      (batch_place (h.message_id - 1) config.dataset_batch_size (omega arith) ∙ omega arith)

module _ {W : Type 0} (io : WatchIo W) (config : EventMonConfig) where
  abbrev pub position : MessageHeader × Text → ℕ
  position c = position_in config.dataset_mode c.0

  abbrev pub path : Text → Text
  path name = below config.root_monitored_folder name

  -- The messages are numbered from the one after this, and each has the path of its file.
  abbrev pub Numbered : ℕ → SentCalls io config → Type 0
  Numbered i r =
      (map position r.0 ≡ up i (length r.0))
      × ((map (λ c. c.1) r.0 ≡ map path (sent_names r.0)) × (r.1.0 ≡ i + length r.0))

  Numbered-sends :
      (next : DetectorError ⊎ MessageHeader) (i : ℕ) (r : SentCalls io config)
      → check_datasets config ≡ none
      → i + 1 < 2 ^ 64
      → Numbered (next_number io config next i) r
      → Numbered i (sends io config next (next_number io config next i) r)
  unfolding sends next_number handle_datasets check_datasets
  Numbered-sends (inl e) i r ok small h = h
  Numbered-sends (inr h) i r ok small (positions, (paths, last)) =
      let e : add64 i 1 ≡ suc i = add64_exact i 1 small ∙ omega arith in
      let h' = record h { message_id = add64 i 1 } in
      let at : position_in config.dataset_mode (in_mode config.dataset_mode config h') ≡ add64 i 1 =
        position-in_mode config.dataset_mode config h' ok (omega arith) (omega arith) in
      (
        ap (λ (x : ℕ). x ∷ map position r.0) (at ∙ e)
            ∙ ap (λ (x : List ℕ). suc i ∷ x) (positions ∙ ap (λ x. up x (length r.0)) e),
        (
          ap (λ x. path h.file_name ∷ x) paths
              ∙ ap (λ x. path x ∷ map path (sent_names r.0))
                  (sym (file_name-in_mode config.dataset_mode config h')),
          omega arith,
        ),
      )

  next_number-le :
      (next : DetectorError ⊎ MessageHeader) (i : ℕ)
      → i + 1 < 2 ^ 64
      → next_number io config next i ≤ i + 1
  unfolding next_number
  next_number-le (inl e) i small = omega arith
  next_number-le (inr h) i small = omega (arith, add64_exact i 1 small)

  send_events-Numbered :
      (signals : List Bool) (i : ℕ) (d : FolderEventDetector) (w : W)
      → check_datasets config ≡ none
      → i + length signals < 2 ^ 64
      → All (λ b. b ≡ false) signals
      → Numbered i (send_events io config signals i (d, w))
  unfolding send_events
  send_events-Numbered [] i d w ok small running = (refl, (refl, omega arith))
  send_events-Numbered (stop ∷ signals) i d w ok small (running, later) =
      let (next, (d', w')) = get_next_event io config (d, w) in
      rw running (
        Numbered-sends next i _ ok (omega arith) (
          send_events-Numbered signals (next_number io config next i) d' w' ok
            (omega (arith, next_number-le next i (omega arith))) later))

  -- With a configuration that is checked, once the folders are monitored and while no signal is read, the
  -- loop sends the files that the watch lists without an error and that are not ignored but in the
  -- white list, each once and in the order in which they are listed, those in the buffer first; what is not sent is in
  -- the buffer. Before the watch is asked for the last time, all files known then are sent, and every
  -- round sends a file or asks the watch. The path is that of the file below the root folder, and the
  -- number of a message, also if it is split into the number of a batch and the place in it, counts up.
  pub send_events_lem :
      (signals : List Bool) (i : ℕ) (d : FolderEventDetector) (w : W)
      → check_datasets config ≡ none
      → d.monitoring_started ≡ true
      → All (λ b. b ≡ false) signals
      → i + length signals < 2 ^ 64
      → Sends io config
          (length signals)
          (file_names d.events_buffer)
          (d.system_folder_watch, w)
          (send_events io config signals i (d, w))
        × Numbered i (send_events io config signals i (d, w))
  send_events_lem signals i d w ok on running small = (
    send_events-Sends io config signals i d w on running,
    send_events-Numbered signals i d w ok small running,
  )
