-- ===== src/Consumer/Tcp/Tests.antt =====
-- The theorems about the consumer's connections at concrete calls. The world is the next descriptor.
use asapo.Base.{
  ℕ, ◌≡◌, refl, ◌⊎◌, inr, Bool, true, false, ◌+◌, List, [], ◌∷◌, length, some, not, ◌==◌,
}
use asapo.Common.Networking.{NetworkErrorCode, no_error}
use asapo.Consumer.Tcp.{
  TcpConnectionInfo, find_free, find_connection, release_connection, ClientIo, get_data,
  get_free_connection, query_and_receive, send_or_reconnect, send_get_data_request, receive_all,
  receive_responce, handle_code, receive_data,
}
use asapo.Consumer.Tcp.Pool.{used}
use asapo.Consumer.Tcp.Release.{Kept, get_data-used}
use asapo.Consumer.Tcp.Lost.{lost_connection}

-- Socket 7 is broken; the receiver answers with the code.
abbrev answers : NetworkErrorCode → ClientIo ℕ
answers code = record {
  connect = λ _ w. (some w, w + 1);
  send_request = λ sd w. (not (sd == 7), w);
  receive_code = λ _ w. (some code, w);
  allocate = λ _ w. (true, w);
  receive_bytes = λ _ size w. (some size, w);
  close_socket = λ _ w. w;
}

abbrev connection : ℕ → Bool → TcpConnectionInfo
connection sd in_use = record { uri = 1; sd = sd; in_use = in_use }

abbrev busy : List TcpConnectionInfo
busy = connection 3 true ∷ []

abbrev stale : List TcpConnectionInfo
stale = connection 7 false ∷ busy

stays : used 3 (get_data (answers no_error) 1 100 (busy, 9)).1.0 ≡ true
unfolding get_data get_free_connection query_and_receive send_or_reconnect send_get_data_request
    receive_all receive_responce handle_code receive_data find_free release_connection
stays = refl

get_data-used_example :
    (used 3 busy ≡ true) ⊎ Kept (answers no_error) (get_data (answers no_error) 1 100 (busy, 9)).0
get_data-used_example = get_data-used (answers no_error) 1 100 3 (busy, 9) stays

stale_free : find_free 1 stale ≡ some (7, connection 7 true ∷ busy)
unfolding find_free
stale_free = refl

stale_found : find_connection 7 (release_connection 7 (connection 7 true ∷ busy)) ≡ some (1, busy)
unfolding find_connection release_connection
stale_found = refl

lost_connection_example :
    let (result, (pool', w')) = get_data (answers no_error) 1 100 (stale, 9) in
    (result ≡ inr 100) × (length pool' + 1 ≡ length stale) × (w' ≡ 10)
lost_connection_example =
    lost_connection (answers no_error) 1 100 7 9 1 100 stale (connection 7 true ∷ busy) busy 9 9 10
      10 10 10 10 stale_free refl stale_found refl refl refl refl refl
