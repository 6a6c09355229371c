-- ===== src/Consumer/Service/Record.antt =====
-- consumer_impl.cpp: `GetRecordFromServer`, which asks the broker for a message until the timeout.
pub mod Told
pub mod Steps
pub mod Outcome
pub mod Whole
use asapo.Base.{
  ℕ, zero, suc, ◌+◌, ◌*◌, ◌<◌, ◌≤◌, ◌≡◌, refl, ◌⊎◌, inl, inr, Bool, true, false, ◌&&◌, [], ◌∷◌,
  Option, none, some, leb, if◌then◌else◌, State, Bool-cases, arith, dec_lt,
}
use asapo.Consumer.Service.{
  ServiceIo, RequestInfo, broker_api, Suffix, next, groupedlast, last, error_command, by_id, broker,
  Reply, Text, ConsumerError, wrong_input, interrupted_transaction, no_data, stream_finished,
  partial_data, is_empty,
}
use asapo.Consumer.Service.Timeout.{service_round, Justified}

pub data GetMessageServerOperation : Type 0 where
  get_next get_last get_id get_last_in_group : GetMessageServerOperation

pub op_to_uri_cmd : GetMessageServerOperation → Suffix
op_to_uri_cmd get_next = next
op_to_uri_cmd get_last_in_group = groupedlast
op_to_uri_cmd get_last = last
op_to_uri_cmd get_id = error_command

abbrev pub is_next : Suffix → Bool
is_next next = true
is_next s = false

-- The group "0".
abbrev pub group_zero : Text
group_zero = b'0' ∷ []

-- The error, whether the request is switched, its group and its last part.
pub record Switched : Type 0 where
  pub err : ConsumerError
  pub switched : Bool
  pub group_id : Text
  pub suffix : Suffix

pub switch_to_get_by_id_if_partial_data : ConsumerError → Text → Suffix → Switched
switch_to_get_by_id_if_partial_data (partial_data none) group_id suffix = record {
  err = interrupted_transaction;
  switched = false;
  group_id = group_id;
  suffix = suffix;
}
switch_to_get_by_id_if_partial_data (partial_data (some d)) group_id suffix = record {
  err = partial_data (some d);
  switched = true;
  group_id = group_zero;
  suffix = by_id d.id;
}
switch_to_get_by_id_if_partial_data err group_id suffix = record {
  err = err;
  switched = false;
  group_id = group_id;
  suffix = suffix;
}

pub switch_to_get_by_id_if_no_data : ConsumerError → Text → Suffix → Switched
switch_to_get_by_id_if_no_data (no_data none) group_id suffix = record {
  err = interrupted_transaction;
  switched = false;
  group_id = group_id;
  suffix = suffix;
}
switch_to_get_by_id_if_no_data (no_data (some d)) group_id suffix = record {
  err = no_data (some d);
  switched = true;
  group_id = group_zero;
  suffix = by_id d.id;
}
switch_to_get_by_id_if_no_data err group_id suffix = record {
  err = err;
  switched = false;
  group_id = group_id;
  suffix = suffix;
}

-- The `||` of the two.
pub switch_to_get_by_id : ConsumerError → Text → Suffix → Switched
unfolding switch_to_get_by_id_if_no_data switch_to_get_by_id_if_partial_data
switch_to_get_by_id err group_id suffix =
    let s = switch_to_get_by_id_if_no_data err group_id suffix in
    if s.switched then s else switch_to_get_by_id_if_partial_data s.err s.group_id s.suffix

-- What a round is followed by: a return, or a further round with the saved error, the group and the
-- last part. `err` is the error of the round; a saved one is returned before it.
pub data Step : Type 0 where
  returns : Option ConsumerError → Step
  tries_again : Option ConsumerError → Text → Suffix → ConsumerError → Step

abbrev pub keep : Option ConsumerError → ConsumerError → Bool → Text → Suffix → Step
keep saved interrupted_transaction switched group_id suffix = returns (some interrupted_transaction)
keep saved err true group_id suffix = tries_again (some err) group_id suffix err
keep saved err false group_id suffix = tries_again saved group_id suffix err

abbrev pub is_stream_finished : ConsumerError → Bool
is_stream_finished (stream_finished d) = true
is_stream_finished err = false

pub after_round : Option ConsumerError → Option ConsumerError → Text → Suffix → Step
unfolding switch_to_get_by_id
after_round none saved group_id suffix = returns none
after_round (some err) saved group_id suffix =
    let s = switch_to_get_by_id err group_id suffix in
    if is_stream_finished err
    then returns (some err)
    else if is_next suffix
    then keep saved s.err s.switched s.group_id s.suffix
    else tries_again saved group_id suffix err

abbrev pub or_error : Option ConsumerError → ConsumerError → ConsumerError
or_error (some saved) err = saved
or_error none err = err

module _ {W : Type 0} (io : ServiceIo W) (timeout_ms : ℕ) (resend : Option (ℕ × ℕ)) (stream : Text)
    (min_size : Option ℕ) where
  unfoldable pub prepare_request_info : Text → Suffix → RequestInfo
  prepare_request_info group_id suffix = record {
    host = [];
    api = broker_api stream group_id suffix;
    min_size = min_size;
    resend = if is_next suffix then resend else none;
    cookie = [];
    size_only = false;
    post = false;
  }

  -- The loop, with the saved error, the group, the last part, the reply so far and the address.
  pub get_record :
      ℕ → ℕ → Option ConsumerError → Text → Suffix → Text → Text → State W (Option Reply)
  unfolding prepare_request_info after_round
  get_record zero elapsed_ms saved group_id suffix response uri w = (none, w)
  get_record (suc fuel) elapsed_ms saved group_id suffix response uri w =
      let ((_, (err, response', uri')), w') =
        service_round io broker (prepare_request_info group_id suffix) (none, response, uri) w in
      if io.interrupted w
      then (some (some interrupted_transaction, response, uri), w)
      else elim (after_round err saved group_id suffix) [
        | returns e ↦ (some (e, response', uri'), w')
        | tries_again saved' group_id' suffix' e ↦
            let (spent, w'') = io.sleep w' in
            let rest =
              get_record fuel (elapsed_ms + spent) saved' group_id' suffix' response' uri' w'' in
            if leb timeout_ms elapsed_ms
            then (some (some (or_error saved' e), response', uri'), w')
            else rest
      ]

  pub get_record_from_server : Text → GetMessageServerOperation → Text → ℕ → State W (Option Reply)
  unfolding get_record op_to_uri_cmd
  get_record_from_server group_id op uri fuel w =
      if is_empty stream
      then (some (some wrong_input, [], uri), w)
      else get_record fuel 0 none group_id (op_to_uri_cmd op) [] uri (io.clear_interrupt_flag w)

  module _ (fuel elapsed_ms : ℕ) (saved : Option ConsumerError) (group_id : Text) (suffix : Suffix)
      (response uri : Text) (w : W) where
    -- The round and the world after it.
    abbrev pub this : Reply × W
    this =
        let r = prepare_request_info group_id suffix in
        let ((_, reply), w') = service_round io broker r (none, response, uri) w in (reply, w')

    abbrev pub loop : Option Reply × W
    loop = get_record (suc fuel) elapsed_ms saved group_id suffix response uri w

    pub interrupts :
        io.interrupted w ≡ true → loop ≡ (some (some interrupted_transaction, response, uri), w)
    unfolding get_record
    interrupts e = ground arith

    pub ends :
        (e : Option ConsumerError)
        → io.interrupted w ≡ false
        → after_round (this.0.0) saved group_id suffix ≡ returns e
        → loop ≡ (some (e, this.0.1, this.0.2), this.1)
    unfolding get_record
    ends e i d = ground arith

    pub times_out :
        (saved' : Option ConsumerError) (group_id' : Text) (suffix' : Suffix) (e : ConsumerError)
        → io.interrupted w ≡ false
        → after_round (this.0.0) saved group_id suffix ≡ tries_again saved' group_id' suffix' e
        → timeout_ms ≤ elapsed_ms
        → loop ≡ (some (some (or_error saved' e), this.0.1, this.0.2), this.1)
    unfolding get_record
    times_out saved' group_id' suffix' e i d h = ground arith

    pub goes_on :
        (saved' : Option ConsumerError) (group_id' : Text) (suffix' : Suffix) (e : ConsumerError)
        → io.interrupted w ≡ false
        → after_round (this.0.0) saved group_id suffix ≡ tries_again saved' group_id' suffix' e
        → elapsed_ms < timeout_ms
        → loop ≡ (
            let (spent, w'') = io.sleep (this.1) in
            get_record fuel (elapsed_ms + spent) saved' group_id' suffix' (this.0.1) (this.0.2) w'')
    unfolding get_record
    goes_on saved' group_id' suffix' e i d h = ground arith
