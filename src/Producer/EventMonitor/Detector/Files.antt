-- ===== src/Producer/EventMonitor/Detector/Files.antt =====
-- The files that the event monitor sends (main_eventmon.cpp and folder_event_detector.cpp in
-- producer/event_monitor_producer/src) of those that its watch lists.
use asapo.Base.{
  ℕ, zero, suc, ◌+◌, ◌≤◌, ◌≡◌, refl, ap, sym, ◌∙◌, subst, ◌⊎◌, inl, inr, Bool, true, false, List,
  [], ◌∷◌, ◌++◌, append_assoc, append-nil, map, length, length-append, All, arith, Text,
}
use asapo.Producer.EventMonitor.{SystemFolderWatch, WatchIo}
use asapo.Producer.EventMonitor.Events.{get_file_list}
use asapo.Producer.EventMonitor.Detector.{
  DatasetMode, no_datasets, batch, multi_source, EventMonConfig, MessageHeader, in_mode,
  handle_datasets, DetectorError, FolderEventDetector, get_next_event, next_number, sends,
  send_events,
}
use asapo.Producer.EventMonitor.Detector.Rounds.{
  file_names, monitored, monitored-append, good, out, state, get_next_event-Round,
}

abbrev pub sent_names : List (MessageHeader × Text) → List Text
sent_names calls = map (λ c. c.0.file_name) calls

pub file_name-in_mode :
    (m : DatasetMode) (config : EventMonConfig) (h : MessageHeader)
    → (in_mode m config h).file_name ≡ h.file_name
unfolding in_mode
file_name-in_mode no_datasets config h = refl
file_name-in_mode batch config h = refl
file_name-in_mode multi_source config h = refl

module _ {W : Type 0} (io : WatchIo W) (config : EventMonConfig) where
  -- The files that the first requests to the watch list, those without an error.
  pub listed : ℕ → SystemFolderWatch × W → List Text
  listed zero s = []
  listed (suc n) s = good (get_file_list io s) ++ listed n (get_file_list io s).1

  -- The state of the watch after this many requests.
  pub asked : ℕ → SystemFolderWatch × W → SystemFolderWatch × W
  asked zero s = s
  asked (suc n) s = asked n (get_file_list io s).1

  -- How many files are known before the last request.
  abbrev pub known_before : ℕ → ℕ → SystemFolderWatch × W → ℕ
  known_before b zero s = 0
  known_before b (suc n) s = b + length (monitored config (listed n s))

  abbrev pub SentCalls : Type 0
  SentCalls = List (MessageHeader × Text) × (ℕ × (FolderEventDetector × W))

  -- What is sent after some rounds, from these names in the buffer and this state of the watch.
  abbrev pub Sends : ℕ → List Text → SystemFolderWatch × W → SentCalls → Type 0
  Sends rounds b s r =
      (n : ℕ) × ((sent_names r.0 ++ file_names r.1.1.0.events_buffer
          ≡ b ++ monitored config (listed n s))
        × ((state r.1.1 ≡ asked n s)
            × ((known_before (length b) n s ≤ length r.0) × (rounds ≤ length r.0 + n))))

  sends-names :
      (next : DetectorError ⊎ MessageHeader) (i : ℕ) (r : SentCalls)
      → (sent_names (sends io config next i r).0 ≡ out next ++ sent_names r.0)
        × (((sends io config next i r).1 ≡ r.1)
            × (length (sends io config next i r).0 ≡ length (out next) + length r.0))
  unfolding sends handle_datasets
  sends-names (inl e) i r = (refl, (refl, omega arith))
  sends-names (inr h) i r = (
    ap (λ (x : Text). x ∷ sent_names r.0)
        (file_name-in_mode config.dataset_mode config (record h { message_id = i })),
    (refl, omega arith),
  )

  all_names :
      (next : DetectorError ⊎ MessageHeader) (i : ℕ) (r : SentCalls) (b' m : List Text)
      → sent_names r.0 ++ file_names r.1.1.0.events_buffer ≡ b' ++ m
      → let r' = sends io config next i r in
        sent_names r'.0 ++ file_names r'.1.1.0.events_buffer ≡ (out next ++ b') ++ m
  all_names next i r b' m e =
      let (names, (same, count)) = sends-names next i r in
      ap (λ x. x ++ file_names (sends io config next i r).1.1.0.events_buffer) names
      ∙ ap
          (λ (x : ℕ × (FolderEventDetector × W)).
            (out next ++ sent_names r.0) ++ file_names x.1.0.events_buffer)
          same
      ∙ append_assoc (out next) (sent_names r.0) (file_names r.1.1.0.events_buffer)
      ∙ ap (λ x. out next ++ x) e
      ∙ sym (append_assoc (out next) b' m)

  known_before-add :
      (k b n : ℕ) (s : SystemFolderWatch × W) → known_before (k + b) n s ≤ k + known_before b n s
  known_before-add k b zero s = omega arith
  known_before-add k b (suc n) s = omega arith

  Sends-took :
      (rounds i : ℕ) (b' : List Text) (s : SystemFolderWatch × W) (r : SentCalls)
      (next : DetectorError ⊎ MessageHeader)
      → length (out next) ≡ 1
      → Sends rounds b' s r
      → Sends (suc rounds) (out next ++ b') s (sends io config next i r)
  Sends-took rounds i b' s r next one (n, (names, (same, (known, enough)))) =
      let (_, (left, count)) = sends-names next i r in
      let e : length (out next ++ b') ≡ length (out next) + length b' =
        length-append (out next) b' in
      (
        n,
        (
          all_names next i r b' (monitored config (listed n s)) names,
          (
            ap (λ (x : ℕ × (FolderEventDetector × W)). state x.1) left ∙ same,
            (
              rw e (omega (arith, known_before-add (length (out next)) (length b') n s)),
              omega arith,
            ),
          ),
        ),
      )

  known_before-asked :
      (next : DetectorError ⊎ MessageHeader) (b' : List Text) (n : ℕ) (s : SystemFolderWatch × W)
      → out next ++ b' ≡ monitored config (good (get_file_list io s))
      → length (monitored config (listed n s))
        ≤ length (out next) + known_before (length b') n (get_file_list io s).1
  unfolding listed monitored
  known_before-asked next b' zero s names = omega arith
  known_before-asked next b' (suc n) s names =
      rw (monitored-append config (good (get_file_list io s)) (listed n (get_file_list io s).1)) (
        rw (← names) (
          omega (
            arith,
            length-append (out next ++ b') (monitored config (listed n (get_file_list io s).1)),
            length-append (out next) b',
          )))

  Sends-asked :
      (rounds i : ℕ) (b' : List Text) (s : SystemFolderWatch × W) (r : SentCalls)
      (next : DetectorError ⊎ MessageHeader)
      → out next ++ b' ≡ monitored config (good (get_file_list io s))
      → Sends rounds b' (get_file_list io s).1 r
      → Sends (suc rounds) [] s (sends io config next i r)
  unfolding listed asked
  Sends-asked rounds i b' s r next new (n, (names, (same, (known, enough)))) =
      let (_, (left, count)) = sends-names next i r in
      (
        suc n,
        (
          all_names next i r b' (monitored config (listed n (get_file_list io s).1)) names
              ∙ ap (λ x. x ++ monitored config (listed n (get_file_list io s).1)) new
              ∙ sym (
                  monitored-append config (good (get_file_list io s))
                    (listed n (get_file_list io s).1)),
          (
            ap (λ (x : ℕ × (FolderEventDetector × W)). state x.1) left ∙ same,
            (omega (arith, known_before-asked next b' n s new), omega arith),
          ),
        ),
      )

  pub send_events-Sends :
      (signals : List Bool) (i : ℕ) (d : FolderEventDetector) (w : W)
      → d.monitoring_started ≡ true
      → All (λ b. b ≡ false) signals
      → Sends
          (length signals)
          (file_names d.events_buffer)
          (d.system_folder_watch, w)
          (send_events io config signals i (d, w))
  unfolding send_events listed asked monitored
  send_events-Sends [] i d w on running =
      (0, (sym (append-nil _), (refl, (omega arith, omega arith))))
  send_events-Sends (stop ∷ signals) i d w on (running, later) =
      let (next, (d', w')) = get_next_event io config (d, w) in
      let (on', how) = get_next_event-Round io config d w on in
      let i' = next_number io config next i in
      let ih = send_events-Sends signals i' d' w' on' later in
      let r = send_events io config signals i' (d', w') in
      rw running (elim how [
        | inl (same, (names, one)) ↦
            subst
              (λ b.
                Sends (suc (length signals)) b (d.system_folder_watch, w)
                  (sends io config next i' r))
              names
              (Sends-took (length signals) i' (file_names d'.events_buffer)
                (d.system_folder_watch, w) r next one
                (subst (λ s. Sends (length signals) (file_names d'.events_buffer) s r) same ih))
        | inr (same, (empty, new)) ↦
            subst
              (λ b.
                Sends (suc (length signals)) b (d.system_folder_watch, w)
                  (sends io config next i' r))
              (sym empty)
              (Sends-asked (length signals) i' (file_names d'.events_buffer)
                (d.system_folder_watch, w) r next new
                (subst (λ s. Sends (length signals) (file_names d'.events_buffer) s r) same ih))
      ])
