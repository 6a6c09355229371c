-- ===== src/Consumer/Tcp/Lost.antt =====
-- What becomes of the pool when a used connection fails
-- (consumer/api/cpp/src/tcp_consumer_client.cpp).
use asapo.Base.{ℕ, ◌≡◌, refl, inr, true, false, ◌+◌, List, length, some, arith}
use asapo.Common.Networking.{no_error}
use asapo.Consumer.Tcp.{
  TcpConnectionInfo, find_free, find_connection, release_connection, ClientIo, get_free_connection,
  reconnect, send_get_data_request, resend, reconnect_and_resend, handle_code, receive_responce,
  receive_data, send_or_reconnect, receive_all, query_and_receive, get_data,
}
use asapo.Consumer.Tcp.Pool.{length-find_free, length-release, length-find_connection}

module _ {W : Type 0} (io : ClientIo W) where
  reconnected :
      (source size sd new_sd uri bytes : ℕ) (pool pool1 pool2 : List TcpConnectionInfo)
      (w w1 w2 w3 w4 w5 w6 : W)
      → find_free source pool ≡ some (sd, pool1)
      → io.send_request sd w ≡ (false, w1)
      → find_connection sd (release_connection sd pool1) ≡ some (uri, pool2)
      → io.connect uri (io.close_socket sd w1) ≡ (some new_sd, w2)
      → io.send_request new_sd w2 ≡ (true, w3)
      → io.receive_code new_sd w3 ≡ (some no_error, w4)
      → io.allocate size w4 ≡ (true, w5)
      → io.receive_bytes new_sd size w5 ≡ (some bytes, w6)
      → get_data io source size (pool, w) ≡ (inr bytes, (release_connection new_sd pool2, w6))
  unfolding get_data get_free_connection query_and_receive send_or_reconnect send_get_data_request
      receive_all receive_responce handle_code receive_data reconnect reconnect_and_resend resend
  reconnected source size sd new_sd uri bytes pool pool1 pool2 w w1 w2 w3 w4 w5 w6 free fails found
        connects sends answers allocates receives =
      ground arith

  -- If the request fails on a connection of the pool, and succeeds on a new one to the same receiver,
  -- `GetData` returns the data, and the pool has one connection less than before; nothing is done
  -- with the new connection's socket once the data is received.
  pub lost_connection :
      (source size sd new_sd uri bytes : ℕ) (pool pool1 pool2 : List TcpConnectionInfo)
      (w w1 w2 w3 w4 w5 w6 : W)
      → find_free source pool ≡ some (sd, pool1)
      → io.send_request sd w ≡ (false, w1)
      → find_connection sd (release_connection sd pool1) ≡ some (uri, pool2)
      → io.connect uri (io.close_socket sd w1) ≡ (some new_sd, w2)
      → io.send_request new_sd w2 ≡ (true, w3)
      → io.receive_code new_sd w3 ≡ (some no_error, w4)
      → io.allocate size w4 ≡ (true, w5)
      → io.receive_bytes new_sd size w5 ≡ (some bytes, w6)
      → let (result, (pool', w')) = get_data io source size (pool, w) in
        (result ≡ inr bytes) × (length pool' + 1 ≡ length pool) × (w' ≡ w6)
  lost_connection source size sd new_sd uri bytes pool pool1 pool2 w w1 w2 w3 w4 w5 w6 free fails
        found connects sends answers allocates receives =
      let run =
        reconnected source size sd new_sd uri bytes pool pool1 pool2 w w1 w2 w3 w4 w5 w6 free fails
          found connects sends answers allocates receives in
      let same = length-find_free source sd pool pool1 free in
      let released = length-release sd pool1 in
      let less = length-find_connection sd uri (release_connection sd pool1) pool2 found in
      let released' = length-release new_sd pool2 in rw (run) (refl, ground arith, refl)
