-- ===== src/Producer/Tcp/Counter.antt =====
-- The counter of connections that the handlers of a pool share
-- (producer/api/cpp/src/request_handler_tcp.cpp).
use asapo.Base.{ℕ, suc, ◌-◌, ◌≡◌, inl, inr, true, if◌then◌else◌, none, some, arith}
use asapo.Producer.Request.{ProducerRequest}
use asapo.Producer.Tcp.{
  Outcome, answered, put_back, process_sized, process_request_unlocked,
  update_data_size_from_file_if_needed, tear_down_processing_request_locked,
}
use asapo.Producer.Tcp.Connection.{Io, RequestHandlerTcp, connected}
use asapo.Producer.Tcp.Send.{Ends, HasReceivers, process_readable-Ends}

module _ {W : Type 0} (io : Io W) where
  Ends-connected :
      (r : ProducerRequest) (o : Outcome) (h : RequestHandlerTcp)
      → Ends io r (o, h)
      → connected h ≡ o.success
  unfolding connected put_back answered
  Ends-connected r o h (inl (e, gone)) = ground arith
  Ends-connected r o h (inr (err, response, e, s, c)) = ground arith

  -- Unless its file cannot be read, a request leaves the counter as it is if the handler is connected
  -- afterwards, and gives back the handler's place if it is not.
  tear_down_lem :
      (h : RequestHandlerTcp) (r r' : ProducerRequest) (n : ℕ) (w : W)
      → HasReceivers io h
      → (update_data_size_from_file_if_needed io r w).0 ≡ some r'
      → let (o, h') = (process_request_unlocked io h r w).0 in
        tear_down_processing_request_locked n o.success ≡ (if connected h' then n else n - 1)
  unfolding tear_down_processing_request_locked
  tear_down_lem h r r' n w c readable =
      let (o, h') = (process_request_unlocked io h r w).0 in
      ground (arith, Ends-connected r o h' (process_readable-Ends io h r r' w c readable))

  -- A request whose file cannot be read takes a place off the counter, though the handler keeps its
  -- connection.
  unreadable_counter :
      (h : RequestHandlerTcp) (r : ProducerRequest) (n sd : ℕ) (w : W)
      → h.sd ≡ some sd
      → (update_data_size_from_file_if_needed io r w).0 ≡ none
      → let (o, h') = (process_request_unlocked io h r w).0 in
        (tear_down_processing_request_locked (suc n) o.success ≡ n) × (connected h' ≡ true)
  unfolding process_request_unlocked process_sized tear_down_processing_request_locked connected
      answered
  unreadable_counter h r n sd w c unreadable = ground arith
