-- ===== src/Consumer/Service/Record/Told.antt =====
-- The replies of the broker that name the message to ask for (consumer_impl.cpp).
use asapo.Base.{
  ℕ, ◌≡◌, refl, ap, ◌∙◌, subst, inl, inr, Bool, true, false, [], ◌∷◌, Option, none, some, leb,
  if◌then◌else◌, Bool-cases, Option-cases, arith,
}
use asapo.Common.Encoding.{c_string}
use asapo.Consumer.Service.{
  ServiceIo, RequestInfo, broker, Reply, Text, HttpError, transfer_error, connection_error,
  HttpCode, ok, no_content, partial_content, bad_request, unauthorized, conflict,
  internal_server_error, service_unavailable, not_found, unsupported_media_type, other_code,
  ConsumerError, ConsumerErrorData, PartialErrorData, wrong_input, interrupted_transaction,
  unavailable_service, unsupported_client, local_io_error, simple_error, no_data, end_of_stream,
  stream_finished, partial_data, contains, get_record_by_id, id_name, underscore_id_name, is_empty,
  get_no_data_response_from_json, get_partial_data_response_from_json,
  consumer_error_from_partial_data_response, no_data_error, consumer_error_from_no_data_response,
  consumer_error_from_http_code, process_request_responce, process_request,
  process_discover_service_result, discover_service,
}
use asapo.Consumer.Service.Timeout.{Answers, request_to_service, service_round}

-- The error names the identifier of the message to ask for.
abbrev pub Names : ConsumerError → ℕ → Type 0
Names (no_data (some d)) i = d.id ≡ i
Names (partial_data (some d)) i = d.id ≡ i
Names err i = ⊥

abbrev pub NamesIfAny : Option ConsumerError → ℕ → Type 0
NamesIfAny none i = ⊥
NamesIfAny (some err) i = Names err i

module _ {W : Type 0} (io : ServiceIo W) where
  -- The text of a reply with this code names the identifier: as "id" where it also has the words
  -- "get_record_by_id", or as "_id" for partial content.
  abbrev pub NamedIn : HttpCode → Text → ℕ → Type 0
  NamedIn conflict s i =
      (contains get_record_by_id (c_string s) ≡ true)
      × (io.json.get_uint64 (c_string s) id_name ≡ some i)
  NamedIn partial_content s i = io.json.get_uint64 (c_string s) underscore_id_name ≡ some i
  NamedIn code s i = ⊥

  -- A reply to the request names the identifier.
  abbrev pub Told : RequestInfo → ℕ → Type 0
  Told r i =
      (code : HttpCode) × (response : Text) × (uri : Text) × NamedIn code response i
      × Answers io r code response uri

  no_data_id :
      (s : Text) (d : ConsumerErrorData)
      → get_no_data_response_from_json io.json s ≡ some d
      → io.json.get_uint64 s id_name ≡ some d.id
  unfolding get_no_data_response_from_json
  no_data_id s d e = ground arith

  partial_data_id :
      (s : Text) (d : PartialErrorData)
      → get_partial_data_response_from_json io.json s ≡ some d
      → io.json.get_uint64 s underscore_id_name ≡ some d.id
  unfolding get_partial_data_response_from_json
  partial_data_id s d e = ground arith

  no_data-NamedIn :
      (s : Text) (d : ConsumerErrorData) (i : ℕ)
      → contains get_record_by_id (c_string s) ≡ true
      → get_no_data_response_from_json io.json (c_string s) ≡ some d
      → Names (no_data_error io.json d) i
      → NamedIn conflict s i
  unfolding no_data_error
  no_data-NamedIn s d i c e n =
      let told = no_data_id (c_string s) d e in
      (c, told ∙ ap some (same (leb d.id_max d.id) (is_empty d.next_stream) n))
    where
      same :
          (late last : Bool)
          → Names
              (if late
                then (if last then end_of_stream (some d) else stream_finished (some d))
                else no_data (some d))
              i
          → d.id ≡ i
      same true true n = absurd n
      same true false n = absurd n
      same false last n = n

  conflict-NamedIn :
      (s : Text) (i : ℕ)
      → Names (consumer_error_from_no_data_response io.json (c_string s)) i
      → NamedIn conflict s i
  unfolding consumer_error_from_no_data_response
  conflict-NamedIn s i n = elim (Bool-cases (contains get_record_by_id (c_string s))) [
    | inr c ↦ absurd (rw c at n)
    | inl c ↦ elim (Option-cases (get_no_data_response_from_json io.json (c_string s))) [
      | inl e ↦ absurd (rw (c, e) at n)
      | inr (d, e) ↦ no_data-NamedIn s d i c e (rw (c, e) at n)
    ]
  ]

  abbrev partial_error : Option PartialErrorData → ConsumerError
  partial_error none = interrupted_transaction
  partial_error (some d) = partial_data (some d)

  partial-NamedIn :
      (s : Text) (i : ℕ)
      → Names (consumer_error_from_partial_data_response io.json (c_string s)) i
      → NamedIn partial_content s i
  unfolding consumer_error_from_partial_data_response
  partial-NamedIn s i n =
      elim (Option-cases (get_partial_data_response_from_json io.json (c_string s))) [
        | inl e ↦ absurd (subst (λ x. Names (partial_error x) i) e n)
        | inr (d, e) ↦
            let m : d.id ≡ i = subst (λ x. Names (partial_error x) i) e n in
            partial_data_id (c_string s) d e ∙ ap some m
      ]

  reply-NamedIn :
      (err : Option HttpError) (code : HttpCode) (s : Text) (i : ℕ)
      → NamesIfAny (process_request_responce io.json err code s) i
      → (err ≡ none) × NamedIn code s i
  unfolding process_request_responce consumer_error_from_http_code
  reply-NamedIn (some transfer_error) code s i n = absurd n
  reply-NamedIn (some connection_error) code s i n = absurd n
  reply-NamedIn none ok s i n = absurd n
  reply-NamedIn none no_content s i n = absurd n
  reply-NamedIn none partial_content s i n = (refl, partial-NamedIn s i n)
  reply-NamedIn none bad_request s i n = absurd n
  reply-NamedIn none unauthorized s i n = absurd n
  reply-NamedIn none conflict s i n = (refl, conflict-NamedIn s i n)
  reply-NamedIn none internal_server_error s i n = absurd n
  reply-NamedIn none service_unavailable s i n = absurd n
  reply-NamedIn none not_found s i n = absurd n
  reply-NamedIn none unsupported_media_type s i n = absurd n
  reply-NamedIn none (other_code c) s i n = absurd n

  -- The service could not be found: no identifier is named.
  undiscovered :
      (err : Option ConsumerError) (uri : Text) (i : ℕ)
      → NamesIfAny (process_discover_service_result io err uri).0 i
      → ⊥
  unfolding process_discover_service_result
  undiscovered none [] i n = n
  undiscovered none (c ∷ uri) i n = n
  undiscovered (some unsupported_client) uri i n = n
  undiscovered (some wrong_input) uri i n = n
  undiscovered (some interrupted_transaction) uri i n = n
  undiscovered (some unavailable_service) uri i n = n
  undiscovered (some local_io_error) uri i n = n
  undiscovered (some simple_error) uri i n = n
  undiscovered (some (no_data d)) uri i n = n
  undiscovered (some (end_of_stream d)) uri i n = n
  undiscovered (some (stream_finished d)) uri i n = n
  undiscovered (some (partial_data d)) uri i n = n

  request-Told :
      (r : RequestInfo) (response : Text) (x : Option ConsumerError × Text) (w : W) (i : ℕ)
      → (x.0 ≡ none → is_empty x.1 ≡ false)
      → (NamesIfAny x.0 i → ⊥)
      → NamesIfAny ((request_to_service io r response x w).0.1.0) i
      → Told r i
  unfolding request_to_service process_request
  request-Told r response (some e, uri) w i h g n = absurd (g n)
  request-Told r response (none, uri) w i h g n =
      let ((err, code, s), w') = io.request (record r { host = uri }) w in
      let (e, m) = reply-NamedIn err code s i n in (code, s, uri, m, (w, ground arith, h refl))

  has_address :
      (err : Option ConsumerError) (uri : Text)
      → let x = process_discover_service_result io err uri in x.0 ≡ none → is_empty x.1 ≡ false
  unfolding process_discover_service_result
  has_address err uri h = ground arith

  -- An identifier that the error of a round names is one that a reply of the broker to the request names.
  pub round-Told :
      (r : RequestInfo) (reply : Reply) (w : W) (i : ℕ)
      → NamesIfAny ((service_round io broker r reply w).0.1.0) i
      → Told r i
  unfolding service_round discover_service
  round-Told r (err, response, []) w i n =
      request-Told r response _ _ i (has_address _ _) (undiscovered _ _ i) n
  round-Told r (err, response, c ∷ uri) w i n =
      request-Told r response (none, c ∷ uri) w i (λ e. refl) (λ m. m) n
