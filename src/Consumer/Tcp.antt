-- ===== src/Consumer/Tcp.antt =====
-- consumer/api/cpp/src/tcp_connection_pool.cpp and tcp_consumer_client.cpp: the consumer takes a
-- connection to a receiver from a pool and asks it for data of its cache. The calls of the IO library are
-- functions over the state `W` of the world outside. A socket descriptor is a number, and `none` where
-- the code has an error and the descriptor -1.
mod Pool
pub mod Release
pub mod Lost
mod Tests
use asapo.Base.{
  ℕ, ◌⊎◌, inl, inr, Bool, true, false, not, ◌&&◌, List, [], ◌∷◌, ◌++◌, map, Option, none, some,
  ◌==◌, if◌then◌else◌, State, ◌>>=◌, ◌>>◌, pure, effect,
}
use asapo.Common.Networking.{
  NetworkErrorCode, no_error, reauthorize, warning, wrong_request, not_supported, no_data,
  authorization_error, internal_server_error,
}

pub record TcpConnectionInfo : Type 0 where
  pub uri : ℕ
  pub sd : ℕ
  pub in_use : Bool

-- The loop of `GetFreeConnection`: the first free connection to the source, marked as used.
pub find_free : ℕ → List TcpConnectionInfo → Option (ℕ × List TcpConnectionInfo)
find_free source [] = none
find_free source (c ∷ cs) =
    let rest = find_free source cs in
    if source == c.uri && not c.in_use
    then some (c.sd, record c { in_use = true } ∷ cs)
    else elim rest [ none ↦ none | some (sd, cs') ↦ some (sd, c ∷ cs') ]

pub release_connection : ℕ → List TcpConnectionInfo → List TcpConnectionInfo
release_connection sd cs = map (λ c. if sd == c.sd then record c { in_use = false } else c) cs

-- The loop of `Reconnect` up to the first connection with the descriptor: its address, and the pool
-- without it.
pub find_connection : ℕ → List TcpConnectionInfo → Option (ℕ × List TcpConnectionInfo)
find_connection sd [] = none
find_connection sd (c ∷ cs) =
    let rest = find_connection sd cs in
    if c.sd == sd
    then some (c.uri, cs)
    else elim rest [ none ↦ none | some (uri, cs') ↦ some (uri, c ∷ cs') ]

-- `IO`, as the client uses it; `allocate` says whether there is memory for so many bytes.
pub record ClientIo (W : Type 0) : Type 0 where
  pub connect : ℕ → State W (Option ℕ)
  pub send_request : ℕ → State W Bool
  pub receive_code : ℕ → State W (Option NetworkErrorCode)
  pub allocate : ℕ → State W Bool
  pub receive_bytes : ℕ → ℕ → State W (Option ℕ)
  pub close_socket : ℕ → W → W

pub data ClientError : Type 0 where
  io_error connect_error no_such_connection memory_allocation_error : ClientError
  rds_error : NetworkErrorCode → ClientError

-- The pool and the world.
abbrev pub Shared : Type 0 → Type 0
Shared W = List TcpConnectionInfo × W

abbrev pub world : {W A : Type 0} → State W A → State (Shared W) A
world f (pool, w) = let (a, w') = f w in (a, (pool, w'))

module _ {W : Type 0} (io : ClientIo W) where
  abbrev pub release : ℕ → State (Shared W) (Unit {0})
  release sd = effect (λ (pool, w). (release_connection sd pool, w))

  abbrev pub close : ℕ → State (Shared W) (Unit {0})
  close sd = effect (λ (pool, w). (pool, io.close_socket sd w))

  -- The descriptor, and whether its connection is a used one.
  pub get_free_connection : ℕ → State (Shared W) (Option (ℕ × Bool))
  get_free_connection source (pool, w) = elim (find_free source pool) [
    | some (sd, pool') ↦ (some (sd, true), (pool', w))
    | none ↦
        let (connected, w') = io.connect source w in
        elim connected [
          | none ↦ (none, (pool, w'))
          | some sd ↦
              (some (sd, false), (pool ++ record { uri = source; sd = sd; in_use = true } ∷ [], w'))
        ]
  ]

  -- The code tests the pointer `err`, which is never null: the connection is erased on success, too.
  pub reconnect : ℕ → State (Shared W) (ClientError ⊎ ℕ)
  reconnect sd (pool, w) = elim (find_connection sd pool) [
    | none ↦ (inl no_such_connection, (pool, w))
    | some (uri, pool') ↦
        let (connected, w') = io.connect uri w in
        (elim connected [ none ↦ inl connect_error | some new_sd ↦ inr new_sd ], (pool', w'))
  ]

  pub send_get_data_request : ℕ → State (Shared W) (Option ClientError)
  send_get_data_request sd = do
    sent ← world (io.send_request sd)
    elim sent [ true ↦ pure none | false ↦ do release sd; close sd; pure (some io_error) ]

  pub resend : ClientError ⊎ ℕ → State (Shared W) (ClientError ⊎ ℕ)
  resend (inl e) = pure (inl e)
  resend (inr sd) = do
    err ← send_get_data_request sd
    pure (elim err [ none ↦ inr sd | some e ↦ inl e ])

  pub reconnect_and_resend : ℕ → State (Shared W) (ClientError ⊎ ℕ)
  reconnect_and_resend sd = do reconnected ← reconnect sd; resend reconnected

  -- The `switch` of `ReceiveResponce`.
  pub handle_code : ℕ → NetworkErrorCode → State (Shared W) (Option ClientError)
  handle_code sd no_error = pure none
  handle_code sd not_supported = do close sd; release sd; pure (some (rds_error not_supported))
  handle_code sd wrong_request = do close sd; pure (some (rds_error wrong_request))
  handle_code sd no_data = do release sd; pure (some (rds_error no_data))
  handle_code sd code = pure (some (rds_error code))

  pub receive_responce : ℕ → State (Shared W) (Option ClientError)
  receive_responce sd = do
    response ← world (io.receive_code sd)
    elim response [
      | none ↦ do close sd; release sd; pure (some io_error)
      | some code ↦ handle_code sd code
    ]

  pub receive_data : ℕ → ℕ → State (Shared W) (ClientError ⊎ ℕ)
  receive_data sd size = do
    allocated ← world (io.allocate size)
    elim allocated [
      | false ↦ do release sd; pure (inl memory_allocation_error)
      | true ↦ do
        received ← world (io.receive_bytes sd size)
        release sd
        elim received [ some bytes ↦ pure (inr bytes) | none ↦ do close sd; pure (inl io_error) ]
    ]

  -- The descriptor on which the request was sent.
  pub send_or_reconnect : ℕ → Bool → State (Shared W) (ClientError ⊎ ℕ)
  send_or_reconnect sd try_reconnect = do
    err ← send_get_data_request sd
    elim err [
      | none ↦ pure (inr sd)
      | some e ↦ if try_reconnect then reconnect_and_resend sd else pure (inl e)
    ]

  -- `GetData` once the request is sent.
  pub receive_all : ℕ → ClientError ⊎ ℕ → State (Shared W) (ClientError ⊎ ℕ)
  receive_all size (inl e) = pure (inl e)
  receive_all size (inr sd) = do
    err ← receive_responce sd
    elim err [ none ↦ receive_data sd size | some e ↦ pure (inl e) ]

  pub query_and_receive : ℕ → Option (ℕ × Bool) → State (Shared W) (ClientError ⊎ ℕ)
  query_and_receive size none = pure (inl connect_error)
  query_and_receive size (some (sd, reused)) = do
    sent ← send_or_reconnect sd reused
    receive_all size sent

  pub get_data : ℕ → ℕ → State (Shared W) (ClientError ⊎ ℕ)
  get_data source size = do
    connection ← get_free_connection source
    query_and_receive size connection
