-- ===== src/Receiver/Connection.antt =====
-- receiver/src/connection.cpp, with GetNextRequest of request_handler/requests_dispatcher.cpp and GenerateRequest of
-- request_handler/request_factory.cpp: the requests of a producer's connection, one after the other. The
-- handlers and the IO library are functions over the state `W` of the world.
pub mod Listen
mod Tests
use asapo.Base.{ℕ, zero, suc, Bool, true, false, List, map, Option, none, some, State}
use asapo.Common.Networking.{GenericRequestHeader}
use asapo.Receiver.Factory.{Handler, Generated, handlers, refused, add_handlers_to_request}
use asapo.Receiver.Request.{ReceiverError, Request, Step, GenericNetworkResponse, process_request}

-- What a connection uses, for its socket; `step` is a handler's `ProcessRequest` for a header, and
-- `count_request` adds a request with so much data to the statistics.
pub record ConnectionIo (W : Type 0) : Type 0 where
  pub threshold_mb : ℕ
  pub receive_header : State W (Option GenericRequestHeader)
  pub step : GenericRequestHeader → Handler → Step W
  pub send_response : GenericNetworkResponse → State W Bool
  pub count_request : ℕ → W → W
  pub close_socket : W → W
  pub send_statistics : W → W

abbrev pub new_request : Request
new_request = record { response_message = none; already_processed = false }

module _ {W : Type 0} (io : ConnectionIo W) where
  -- The end of a round: whether there is a next one.
  pub after_request : ℕ → Option ReceiverError × W → Bool × W
  after_request data_size (some e, w) = (false, w)
  after_request data_size (none, w) = (true, io.count_request data_size w)

  -- A refused request gets no response.
  pub serve : GenericRequestHeader → Generated → State W Bool
  unfolding process_request after_request
  serve h (refused e) w = (false, w)
  serve h (handlers hs) w =
      after_request h.data_size
        (process_request io.send_response (map (io.step h) hs) new_request w)

  pub after_header : Option GenericRequestHeader × W → Bool × W
  unfolding serve add_handlers_to_request
  after_header (none, w) = (false, w)
  after_header (some h, w) = serve h (add_handlers_to_request io.threshold_mb h) w

  pub listen_round : State W Bool
  unfolding after_header
  listen_round w = after_header (io.receive_header w)

  -- `none` while the producer keeps the connection.
  pub listen : ℕ → W → Option W
  listen zero w = none
  listen (suc fuel) w =
      let (go_on, w') = listen_round w in
      let rest = listen fuel w' in
      elim go_on [ true ↦ rest | false ↦ some (io.send_statistics (io.close_socket w')) ]
