-- ===== src/Receiver/Authorization.antt =====
-- receiver/src/request_handler: authorization_client.cpp and request_handler_authorize.cpp with the handlers
-- of the initial and the secondary authorization. The handlers of a connection share one
-- `AuthorizationData`. The call of the authorization server, with the parsing of its answer, is a
-- function of the state `W` of the world. Texts are numbers, the empty one is 0; times are milliseconds.
pub mod Secondary
mod Tests
use asapo.Base.{
  ℕ, ◌⊎◌, inl, inr, Bool, true, false, not, ◌&&◌, List, [], ◌∷◌, Option, none, some, ltb, leb, ◌==◌,
  sub64, if◌then◌else◌, State, ◌||◌,
}
use asapo.Receiver.Request.{
  ReceiverError, internal_error, authorization_failure, re_authorization_failure,
  unsupported_client,
}

pub data SourceType : Type 0 where
  processed raw : SourceType

pub record AuthorizationData : Type 0 where
  pub beamtime_id : ℕ
  pub data_source : ℕ
  pub beamline : ℕ
  pub offline_path : ℕ
  pub online_path : ℕ
  pub source_type : SourceType
  pub last_update : ℕ
  pub source_credentials : ℕ

pub data AccessType : Type 0 where
  read write writeraw : AccessType

-- What `ParseServerResponse` finds in the answer.
pub record ServerResponse : Type 0 where
  pub beamtime_id : ℕ
  pub data_source : ℕ
  pub beamline : ℕ
  pub offline_path : ℕ
  pub online_path : ℕ
  pub source_type : SourceType
  pub access_types : List AccessType

-- What the HTTP client gives: an error, a code other than OK, or OK with an answer that may not parse.
pub data PostResult : Type 0 where
  http_error unauthorized other_code : PostResult
  ok : Option ServerResponse → PostResult

-- `DoServerRequest` and the parsing, with their errors.
pub response_or_error : PostResult → ReceiverError ⊎ ServerResponse
response_or_error http_error = inl internal_error
response_or_error unauthorized = inl authorization_failure
response_or_error other_code = inl internal_error
response_or_error (ok none) = inl internal_error
response_or_error (ok (some r)) = inr r

pub allows : SourceType → AccessType → Bool
allows processed write = true
allows raw writeraw = true
allows _ _ = false

-- `CheckAccessType`.
pub check_access_type : SourceType → List AccessType → Bool
unfolding allows
check_access_type t [] = false
check_access_type t (a ∷ rest) = allows t a || check_access_type t rest

-- The fields that `ParseServerResponse` writes, and the time.
pub updated : AuthorizationData → ServerResponse → ℕ → AuthorizationData
updated d r now = record {
  beamtime_id = r.beamtime_id;
  data_source = r.data_source;
  beamline = r.beamline;
  offline_path = r.offline_path;
  online_path = r.online_path;
  source_type = r.source_type;
  last_update = now;
  source_credentials = d.source_credentials;
}

-- `UpdateDataFromServerResponse`, which puts the old data back on an error.
pub update_data :
    ℕ
    → AuthorizationData
    → ReceiverError ⊎ ServerResponse
    → Option ReceiverError × AuthorizationData
unfolding check_access_type
update_data now d (inl e) = (some e, d)
update_data now d (inr r) =
    if check_access_type r.source_type r.access_types
    then (none, updated d r now)
    else (some authorization_failure, d)

pub need_reauthorize : ℕ → ℕ → AuthorizationData → Bool
need_reauthorize interval now d = leb interval (sub64 now d.last_update)

pub check_version : ℕ → ℕ → Option ReceiverError
check_version client service = if ltb service client then some unsupported_client else none

pub check_request : ℕ → ℕ → AuthorizationData → Option ReceiverError
unfolding check_version
check_request client service d = elim (check_version client service) [
  | some e ↦ some e
  | none ↦ if d.source_credentials == 0 then some authorization_failure else none
]

pub invalidate_auth_cache : AuthorizationData → AuthorizationData
invalidate_auth_cache d = record d { source_credentials = 0 }

-- `ProcessReAuthorization` after `Authorize`.
pub after_reauthorization :
    ℕ → Option ReceiverError × AuthorizationData → Option ReceiverError × AuthorizationData
unfolding invalidate_auth_cache
after_reauthorization old_beamtime (some authorization_failure, d) =
    (some re_authorization_failure, invalidate_auth_cache d)
after_reauthorization old_beamtime (some e, d) = (some e, d)
after_reauthorization old_beamtime (none, d) =
    if old_beamtime == d.beamtime_id
    then (none, d)
    else (some re_authorization_failure, invalidate_auth_cache d)

module _ {W : Type 0} (post : ℕ → State W PostResult) (service_version interval now : ℕ) where
  pub authorize : AuthorizationData → State W (Option ReceiverError × AuthorizationData)
  unfolding response_or_error update_data
  authorize d w =
      let (answer, w') = post d.source_credentials w in
      (update_data now d (response_or_error answer), w')

  pub reauthorize_if_needed : AuthorizationData → State W (Option ReceiverError × AuthorizationData)
  unfolding after_reauthorization need_reauthorize
  reauthorize_if_needed d w = elim (need_reauthorize interval now d) [
    | false ↦ ((none, d), w)
    | true ↦ let (result, w') = authorize d w in (after_reauthorization d.beamtime_id result, w')
  ]

  -- `RequestHandlerSecondaryAuthorization::ProcessRequest`; on success the request's fields are those of
  -- the data.
  pub secondary_process_request :
      ℕ → AuthorizationData → State W (Option ReceiverError × AuthorizationData)
  unfolding check_request
  secondary_process_request client d w = elim (check_request client service_version d) [
    | some e ↦ ((some e, d), w)
    | none ↦ reauthorize_if_needed d w
  ]

  -- `RequestHandlerInitialAuthorization::ProcessRequest`; the credentials are the request's metadata.
  pub initial_process_request :
      ℕ → ℕ → AuthorizationData → State W (Option ReceiverError × AuthorizationData)
  unfolding check_version
  initial_process_request client metadata d w = elim (check_version client service_version) [
    | some e ↦ ((some e, d), w)
    | none ↦
        if not (d.source_credentials == 0)
        then ((some authorization_failure, d), w)
        else authorize (record d { source_credentials = metadata }) w
  ]
