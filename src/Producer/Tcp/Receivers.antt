-- ===== src/Producer/Tcp/Receivers.antt =====
-- producer/api/cpp/src/request_handler_tcp.cpp: the list of receivers of a handler, and when it
-- changes its receiver.
use asapo.Base.{
  ℕ, Bool, true, false, not, ◌||◌, List, [], ◌∷◌, none, some, ltb, ◌==◌, if◌then◌else◌, sub64,
  State, ◌>>=◌, ◌>>◌, pure, effect,
}
use asapo.Producer.Tcp.Connection.{Io, RequestHandlerTcp}

pub lists_differ : List ℕ → List ℕ → Bool
lists_differ [] [] = false
lists_differ [] (_ ∷ _) = true
lists_differ (_ ∷ _) [] = true
lists_differ (x ∷ xs) (y ∷ ys) = not (x == y) || lists_differ xs ys

module _ {W : Type 0} (io : Io W) where
  unfoldable pub update_receivers_list : RequestHandlerTcp → State W (Bool × RequestHandlerTcp)
  unfolding lists_differ
  update_receivers_list h = do
    uris ← io.rotated_uri_list h.thread_id
    now ← io.now
    let h' = record h { last_receivers_uri_update = now }
    pure (
        if lists_differ uris h.receivers_list
        then (true, record h' { receivers_list = uris })
        else (false, h'))

  pub time_to_update_receiver_list : RequestHandlerTcp → State W Bool
  time_to_update_receiver_list h w =
      let (now, w') = io.now w in
      (ltb (io.update_frequency w) (sub64 now h.last_receivers_uri_update), w')

  unfoldable pub need_rebalance : RequestHandlerTcp → State W (Bool × RequestHandlerTcp)
  unfolding time_to_update_receiver_list update_receivers_list
  need_rebalance h = elim h.sd [
    | none ↦ pure (false, h)
    | some _ ↦ do
      due ← time_to_update_receiver_list h
      elim due [ true ↦ update_receivers_list h | false ↦ pure (false, h) ]
  ]

  unfoldable pub close_connection_to_perform_rebalance :
      RequestHandlerTcp → State W RequestHandlerTcp
  close_connection_to_perform_rebalance h = elim h.sd [
    | none ↦ pure h
    | some sd ↦ do effect (io.close_socket sd); pure (record h { sd = none })
  ]

  unfoldable pub rebalance_if_needed : RequestHandlerTcp → State W RequestHandlerTcp
  unfolding need_rebalance close_connection_to_perform_rebalance
  rebalance_if_needed h = do
    (rebalance, h') ← need_rebalance h
    elim rebalance [ true ↦ close_connection_to_perform_rebalance h' | false ↦ pure h' ]
