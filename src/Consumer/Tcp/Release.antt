-- ===== src/Consumer/Tcp/Release.antt =====
-- Which connections a call of the client leaves in use
-- (consumer/api/cpp/src/tcp_consumer_client.cpp).
use asapo.Base.{
  ℕ, ◌≡◌, ◌≢◌, ◌⊎◌, inl, inr, Bool, true, false, [], ◌∷◌, Option, none, some, arith, ◌==◌, ==_refl,
  ap, ◌∙◌, Option-cases, Bool-cases,
}
use asapo.Common.Networking.{NetworkErrorCode, no_error, not_supported, no_data}
use asapo.Consumer.Tcp.{
  find_free, find_connection, ClientIo, ClientError, rds_error, Shared, get_free_connection,
  reconnect, send_get_data_request, resend, reconnect_and_resend, handle_code, receive_responce,
  receive_data, send_or_reconnect, receive_all, query_and_receive, get_data,
}
use asapo.Consumer.Tcp.Pool.{used, find_free-used, find_connection-used, used-append, used-release}

-- The codes on which `ReceiveResponce` does not release the connection.
abbrev pub keeps_connection : NetworkErrorCode → Bool
keeps_connection no_error = false
keeps_connection not_supported = false
keeps_connection no_data = false
keeps_connection _ = true

other_socket : (sd x : ℕ) → (sd == x) ≡ false → ◌≢◌ {A = ClientError ⊎ ℕ} (inr sd) (inr x)
other_socket sd x h = λ e. ground arith

module _ {W : Type 0} (io : ClientIo W) where
  abbrev pub Kept : ClientError ⊎ ℕ → Type 0
  Kept result =
      (code : NetworkErrorCode) × (result ≡ inl (rds_error code)) × (keeps_connection code ≡ true)

  get_free-used :
      (source x : ℕ) (s : Shared W)
      → let (connection, s') = get_free_connection io source s in
        used x s'.0 ≡ true
        → (used x s.0 ≡ true) ⊎ ((reused : Bool) × (connection ≡ some (x, reused)))
  unfolding get_free_connection
  get_free-used source x (pool, w) h = elim (Option-cases (find_free source pool)) [
    | inr ((sd, pool'), e) ↦
        (let u : used x pool' ≡ true = ground arith in
          let found = find_free-used source x sd pool pool' e u in
          elim found [ inl t ↦ inl t | inr q ↦ inr (true, ground arith) ])
    | inl e ↦ elim (Option-cases (io.connect source w).0) [
      | inl f ↦ inl (ground arith)
      | inr (sd, f) ↦
          (let app = used-append x pool (record { uri = source; sd = sd; in_use = true } ∷ []) in
            let either : (used x pool ≡ true) ⊎ (sd ≡ x) = ground arith in
            elim either [ inl t ↦ inl t | inr q ↦ inr (false, ground arith) ])
    ]
  ]

  -- A failed request has released its connection.
  send-used :
      (sd x : ℕ) (s : Shared W)
      → let (err, s') = send_get_data_request io sd s in
        used x s'.0 ≡ true → (used x s.0 ≡ true) × ((err ≡ none) ⊎ ((sd == x) ≡ false))
  unfolding send_get_data_request
  send-used sd x s h = let r = used-release x sd s.0 in ground arith

  reconnect-used :
      (sd x : ℕ) (s : Shared W) → used x (reconnect io sd s).1.0 ≡ true → used x s.0 ≡ true
  unfolding reconnect
  reconnect-used sd x (pool, w) h = elim (Option-cases (find_connection sd pool)) [
    | inl e ↦ ground arith
    | inr ((uri, pool'), e) ↦ find_connection-used x sd uri pool pool' e (ground arith)
  ]

  resend-used :
      (r : ClientError ⊎ ℕ) (x : ℕ) (s : Shared W)
      → used x (resend io r s).1.0 ≡ true
      → used x s.0 ≡ true
  unfolding resend
  resend-used (inl e) x s h = h
  resend-used (inr sd) x s h = (send-used sd x s h).0

  -- After a reconnection the connection that had failed is not in use.
  send_or_reconnect-used :
      (sd x : ℕ) (reused : Bool) (s : Shared W)
      → let (sent, s') = send_or_reconnect io sd reused s in
        used x s'.0 ≡ true → (used x s.0 ≡ true) × ((sent ≡ inr sd) ⊎ ((sd == x) ≡ false))
  unfolding send_or_reconnect reconnect_and_resend
  send_or_reconnect-used sd x reused s h =
      let (err, s1) = send_get_data_request io sd s in
      elim (Option-cases err) [
        | inl e ↦
            (let u : used x s1.0 ≡ true = ground arith in
              let sent = send-used sd x s u in ground arith)
        | inr (er, e) ↦
            (let u : used x s1.0 ≡ true = elim (Bool-cases reused) [
              | inl t ↦
                  (let (r, s2) = reconnect io sd s1 in
                    let u2 : used x (resend io r s2).1.0 ≡ true = ground arith in
                    reconnect-used sd x s1 (resend-used r x s2 u2))
              | inr t ↦ ground arith
            ] in
              let sent = send-used sd x s u in ground arith)
      ]

  code-used :
      (sd x : ℕ) (code : NetworkErrorCode) (s : Shared W)
      → let (err, s') = handle_code io sd code s in
        used x s'.0 ≡ true
        → (used x s.0 ≡ true)
          × ((sd == x) ≡ false
              ⊎ ((err ≡ none) ⊎ ((err ≡ some (rds_error code)) × (keeps_connection code ≡ true))))
  unfolding handle_code
  code-used sd x code s h = let r = used-release x sd s.0 in ground arith

  responce-used :
      (sd x : ℕ) (s : Shared W)
      → let (err, s') = receive_responce io sd s in
        used x s'.0 ≡ true
        → (used x s.0 ≡ true)
          × ((sd == x) ≡ false
              ⊎ ((err ≡ none)
                  ⊎ ((code : NetworkErrorCode) × (err ≡ some (rds_error code))
                      × (keeps_connection code ≡ true))))
  unfolding receive_responce
  responce-used sd x s h =
      let (response, w1) = io.receive_code sd s.1 in
      elim (Option-cases response) [
        | inl e ↦
            (let r = used-release x sd s.0 in
              let gone : (used x s.0 ≡ true) × ((sd == x) ≡ false) = ground arith in
              (gone.0, inl gone.1))
        | inr (code, e) ↦
            (let same : receive_responce io sd s ≡ handle_code io sd code (s.0, w1) =
                ground arith in
              let u : used x (handle_code io sd code (s.0, w1)).1.0 ≡ true = cc in
              let (before, after) = code-used sd x code (s.0, w1) u in
              (
                before,
                elim after [
                  | inl other ↦ inl other
                  | inr (inl ok) ↦ inr (inl (cc))
                  | inr (inr (failed, keeps)) ↦ inr (inr (code, (cc), keeps))
                ],
              ))
      ]

  data-used :
      (sd size x : ℕ) (s : Shared W)
      → used x (receive_data io sd size s).1.0 ≡ true
      → (used x s.0 ≡ true) × ((sd == x) ≡ false)
  unfolding receive_data
  data-used sd size x s h = let r = used-release x sd s.0 in ground arith

  receive_all-used :
      (size x : ℕ) (sent : ClientError ⊎ ℕ) (s : Shared W)
      → let (result, s') = receive_all io size sent s in
        used x s'.0 ≡ true → (used x s.0 ≡ true) × ((sent ≢ inr x) ⊎ Kept result)
  unfolding receive_all
  receive_all-used size x (inl e) s h = (h, inl (λ e'. cc))
  receive_all-used size x (inr sd) s h =
      let (err, s1) = receive_responce io sd s in
      elim (Option-cases err) [
        | inl e ↦
            (let same : receive_all io size (inr sd) s ≡ receive_data io sd size s1 =
                ground arith in
              let u : used x (receive_data io sd size s1).1.0 ≡ true = cc in
              let (before, other) = data-used sd size x s1 u in
              ((responce-used sd x s before).0, inl (other_socket sd x other)))
        | inr (er, e) ↦
            (let same : receive_all io size (inr sd) s ≡ (inl er, s1) = ground arith in
              let u : used x s1.0 ≡ true = cc in
              let (before, after) = responce-used sd x s u in
              (
                before,
                elim after [
                  | inl other ↦ inl (other_socket sd x other)
                  | inr (inl ok) ↦ absurd (cc)
                  | inr (inr (code, failed, keeps)) ↦ inr (code, ground arith, keeps)
                ],
              ))
      ]

  query-used :
      (size x : ℕ) (connection : Option (ℕ × Bool)) (s : Shared W)
      → let (result, s') = query_and_receive io size connection s in
        used x s'.0 ≡ true
        → (used x s.0 ≡ true) × ((reused : Bool) → connection ≡ some (x, reused) → Kept result)
  unfolding query_and_receive
  query-used size x none s h = (h, λ reused e. absurd (cc))
  query-used size x (some (sd, reused)) s h =
      let (sent, s1) = send_or_reconnect io sd reused s in
      let (before, kept) = receive_all-used size x sent s1 h in
      let (first, which) = send_or_reconnect-used sd x reused s before in
      (first, λ reused' e. chosen sent which kept (let p : sd ≡ x = cc in p))
    where
      chosen :
          {sd x : ℕ} {K : Type 0} (sent : ClientError ⊎ ℕ)
          → (sent ≡ inr sd) ⊎ ((sd == x) ≡ false)
          → (sent ≢ inr x) ⊎ K
          → sd ≡ x
          → K
      chosen sent (inl p) (inl q) e = absurd (q (p ∙ ap inr e))
      chosen {x = x} sent (inr p) (inl q) e = absurd (let r = ==_refl x in cc)
      chosen sent p (inr k) e = k

  -- A connection that is in use after `GetData` was in use before, or the receiver answered with one of
  -- the codes on which the connection is kept, and `GetData` returned it as an error.
  pub get_data-used :
      (source size x : ℕ) (s : Shared W)
      → used x (get_data io source size s).1.0 ≡ true
      → (used x s.0 ≡ true) ⊎ Kept (get_data io source size s).0
  unfolding get_data
  get_data-used source size x s h =
      let (connection, s1) = get_free_connection io source s in
      let (before, kept) = query-used size x connection s1 h in
      elim (get_free-used source x s before) [
        | inl old ↦ inl old
        | inr (reused, e) ↦ inr (kept reused e)
      ]
