-- ===== src/Receiver/Authorization/Tests.antt =====
-- The theorems about the secondary authorization at concrete data. The world counts the calls.
use asapo.Base.{ℕ, ◌≡◌, ◌≢◌, refl, ◌⊎◌, ◌+◌, [], ◌∷◌, true, false, none, some, State, sub64}
use asapo.Receiver.Request.{re_authorization_failure}
use asapo.Receiver.Authorization.{
  AuthorizationData, ServerResponse, PostResult, unauthorized, ok, raw, writeraw, response_or_error,
  allows, check_access_type, updated, update_data, need_reauthorize, check_version, check_request,
  after_reauthorization, authorize, reauthorize_if_needed, secondary_process_request,
}
use asapo.Receiver.Authorization.Secondary.{authorized}

abbrev data_of_beamtime : AuthorizationData
data_of_beamtime = record {
  beamtime_id = 11;
  data_source = 12;
  beamline = 13;
  offline_path = 14;
  online_path = 15;
  source_type = raw;
  last_update = 1000;
  source_credentials = 5;
}

abbrev confirmation : ServerResponse
confirmation = record {
  beamtime_id = 11;
  data_source = 12;
  beamline = 13;
  offline_path = 14;
  online_path = 15;
  source_type = raw;
  access_types = writeraw ∷ [];
}

abbrev gives : PostResult → ℕ → State ℕ PostResult
gives answer _ w = (answer, w + 1)

lets_through :
    (secondary_process_request
      (gives (ok (some confirmation)))
      3
      1000
      5000
      2
      data_of_beamtime
      0).0.0
    ≡ none
unfolding secondary_process_request check_request check_version reauthorize_if_needed
    need_reauthorize authorize update_data response_or_error check_access_type allows updated
    after_reauthorization sub64
lets_through = refl

authorized_example :
    let (answer, w') = gives (ok (some confirmation)) 5 0 in
    let result =
      secondary_process_request (gives (ok (some confirmation))) 3 1000 5000 2 data_of_beamtime 0 in
    (data_of_beamtime.source_credentials ≢ 0)
    × (((need_reauthorize 1000 5000 data_of_beamtime ≡ false)
          × (result ≡ ((none, data_of_beamtime), 0)))
        ⊎ ((r : ServerResponse) × (answer ≡ ok (some r))
            × (check_access_type r.source_type r.access_types ≡ true)
            × (r.beamtime_id ≡ data_of_beamtime.beamtime_id)
            × (result ≡ ((none, updated data_of_beamtime r 5000), w'))))
authorized_example =
    authorized (gives (ok (some confirmation))) 3 1000 5000 2 data_of_beamtime 0 lets_through

fails_to_renew :
    (secondary_process_request (gives unauthorized) 3 1000 5000 2 data_of_beamtime 0).0.0
    ≡ some re_authorization_failure
unfolding secondary_process_request check_request check_version reauthorize_if_needed
    need_reauthorize authorize update_data response_or_error after_reauthorization sub64
fails_to_renew = refl
