-- ===== src/Receiver/Authorization/Secondary.antt =====
-- What a connection may do once it is authorized
-- (receiver/src/request_handler/request_handler_secondary_authorization.cpp).
use asapo.Base.{
  ℕ, ◌≡◌, ◌≢◌, refl, ap, sym, ◌∙◌, ◌⊎◌, inl, inr, true, false, Option, none, some, arith, State,
}
use asapo.Receiver.Request.{ReceiverError, authorization_failure, re_authorization_failure}
use asapo.Receiver.Authorization.{
  AuthorizationData, ServerResponse, PostResult, ok, response_or_error, check_access_type,
  http_error, unauthorized, other_code, updated, update_data, need_reauthorize, check_version,
  check_request, invalidate_auth_cache, after_reauthorization, authorize, reauthorize_if_needed,
  secondary_process_request,
}

module _ {W : Type 0} (post : ℕ → State W PostResult) (service_version interval now : ℕ) where
  update_succeeds :
      (d : AuthorizationData) (answer : PostResult)
      → (update_data now d (response_or_error answer)).0 ≡ none
      → (r : ServerResponse) × (answer ≡ ok (some r))
        × (check_access_type r.source_type r.access_types ≡ true)
        × (update_data now d (response_or_error answer) ≡ (none, updated d r now))
  unfolding update_data response_or_error
  update_succeeds d (ok (some r)) h = (r, refl, ground arith, ground arith)
  update_succeeds d (ok none) h = absurd (cc)
  update_succeeds d http_error h = absurd (cc)
  update_succeeds d unauthorized h = absurd (cc)
  update_succeeds d other_code h = absurd (cc)

  after_succeeds :
      (old : ℕ) (p : Option ReceiverError × AuthorizationData)
      → (after_reauthorization old p).0 ≡ none
      → (p.0 ≡ none) × (p.1.beamtime_id ≡ old) × (after_reauthorization old p ≡ p)
  unfolding after_reauthorization
  after_succeeds old p h = ground arith

  checked :
      (client : ℕ) (d : AuthorizationData)
      → check_request client service_version d ≡ none
      → d.source_credentials ≢ 0
  unfolding check_request
  checked client d h = λ e. ground arith

  let_through :
      (client : ℕ) (d : AuthorizationData) (w : W)
      → ((secondary_process_request post service_version interval now client d w).0.0 ≡ none)
        ⊎ ((secondary_process_request post service_version interval now client d w).0.0
            ≡ some re_authorization_failure)
      → (check_request client service_version d ≡ none)
        × (secondary_process_request post service_version interval now client d w
            ≡ reauthorize_if_needed post service_version interval now d w)
  unfolding secondary_process_request check_request check_version
  let_through client d w h = ground arith

  reauthorized :
      (d : AuthorizationData) (w : W)
      → ((need_reauthorize interval now d ≡ false)
          × (reauthorize_if_needed post service_version interval now d w ≡ ((none, d), w)))
        ⊎ (let (answer, w') = post d.source_credentials w in
            reauthorize_if_needed post service_version interval now d w ≡ (
              after_reauthorization d.beamtime_id (update_data now d (response_or_error answer)),
              w',
            ))
  unfolding reauthorize_if_needed authorize
  reauthorized d w = ground arith

  updated_beamtime :
      (d : AuthorizationData) (r : ServerResponse) → (updated d r now).beamtime_id ≡ r.beamtime_id
  unfolding updated
  updated_beamtime d r = refl

  -- A request is let through only with credentials, and either within the interval since the last check,
  -- with the data unchanged, or after the server has now confirmed the same beamtime with an access
  -- type that fits the kind of source.
  pub authorized :
      (client : ℕ) (d : AuthorizationData) (w : W)
      → (secondary_process_request post service_version interval now client d w).0.0 ≡ none
      → let (answer, w') = post d.source_credentials w in
        let result = secondary_process_request post service_version interval now client d w in
        (d.source_credentials ≢ 0)
        × (((need_reauthorize interval now d ≡ false) × (result ≡ ((none, d), w)))
            ⊎ ((r : ServerResponse) × (answer ≡ ok (some r))
                × (check_access_type r.source_type r.access_types ≡ true)
                × (r.beamtime_id ≡ d.beamtime_id)
                × (result ≡ ((none, updated d r now), w'))))
  authorized client d w h =
      let (passed, same) = let_through client d w (inl h) in
      elim (reauthorized d w) [
        | inl (fresh, kept) ↦ (checked client d passed, inl (fresh, same ∙ kept))
        | inr renewed ↦
            (let (answer, w') = post d.source_credentials w in
              let p = update_data now d (response_or_error answer) in
              let (updates, beamtime, after) = after_succeeds d.beamtime_id p (cc) in
              let (r, answered, access, equal) = update_succeeds d answer updates in
              let written = updated_beamtime d r in
              let confirmed : r.beamtime_id ≡ d.beamtime_id =
                sym written
                ∙ (sym
                      (ap (λ (x : Option ReceiverError × AuthorizationData). x.1.beamtime_id) equal)
                    ∙ beamtime) in
              (checked client d passed, inr (r, answered, access, confirmed, (cc))))
      ]

  after_fails :
      (old : ℕ) (p : Option ReceiverError × AuthorizationData)
      → p.0 ≢ some re_authorization_failure
      → (after_reauthorization old p).0 ≡ some re_authorization_failure
      → (after_reauthorization old p).1.source_credentials ≡ 0
  unfolding after_reauthorization invalidate_auth_cache
  after_fails old p q h = ground arith

  update_never :
      (d : AuthorizationData) (answer : PostResult)
      → (update_data now d (response_or_error answer)).0 ≢ some re_authorization_failure
  unfolding update_data response_or_error
  update_never d answer = λ e. ground arith

  refused :
      (client now' : ℕ) (d d' : AuthorizationData) (w : W)
      → check_request client service_version d ≡ none
      → d'.source_credentials ≡ 0
      → secondary_process_request post service_version interval now' client d' w
        ≡ ((some authorization_failure, d'), w)
  unfolding secondary_process_request check_request
  refused client now' d d' w passed empty = ground arith

  -- After a failed renewal the next request of the connection that is not an authorization is refused,
  -- whenever it comes, and changes nothing.
  revoked :
      (client now' : ℕ) (d : AuthorizationData) (w : W)
      → (secondary_process_request post service_version interval now client d w).0.0
        ≡ some re_authorization_failure
      → let ((_, d'), w') =
          secondary_process_request post service_version interval now client d w in
        secondary_process_request post service_version interval now' client d' w'
        ≡ ((some authorization_failure, d'), w')
  unfolding check_request
  revoked client now' d w h =
      let (passed, same) = let_through client d w (inr h) in
      let ((_, d'), w') = secondary_process_request post service_version interval now client d w in
      refused client now' d d' w' passed (elim (reauthorized d w) [
        | inl (_, kept) ↦ absurd (cc)
        | inr renewed ↦
            (let (answer, _) = post d.source_credentials w in
              let p = update_data now d (response_or_error answer) in
              let empty = after_fails d.beamtime_id p (update_never d answer) (cc) in cc)
      ])
