-- ===== src/Consumer/Service/Data/Source.antt =====
-- Where the data of a message comes from, and that a net client that reports no error gives it.
use asapo.Base.{ℕ, ◌≡◌, refl, sym, subst, ◌⊎◌, true, false, Option, none, some, if_both, arith}
use asapo.Consumer.Service.{Text, ConsumerError}
use asapo.Consumer.Service.Timeout.{Justified}
use asapo.Consumer.Service.Data.{
  MessageMeta, Consumer, DataIo, Result, NetClient, asapo_tcp, tcp_client, fabric_client, NetError,
  ask_client, use_tcp, after_rdma, with_lock, with_client, create_net_client_and_try_to_get_file,
  try_get_data_from_buffer, full_name, is_connected,
}
use asapo.Consumer.Service.Data.Transfer.{create_file_transfer_request}

no_error : (x : Option NetError × Text) → x.0 ≡ none → x ≡ (none, x.1)
no_error (none, bytes) e = refl
no_error (some err, bytes) e = absurd (ground arith)

module _ {W : Type 0} (io : DataIo W) where
  abbrev pub named : Text → MessageMeta
  named name = record { name = name; size = 0; buf_id = 0 }

  abbrev pub FromReceiver : Text → Type 0
  FromReceiver bytes =
      (client : NetClient) × (info : MessageMeta) × (before : Text) × (w : W) × ((io.get_data client
          info before w).0
        ≡ (none, bytes))

  abbrev pub FromFile : Text → Text → Type 0
  FromFile name bytes =
      (size : ℕ) × (w : W) × ((io.read_file (full_name io.source_path name) w).0
        ≡ (true, size, bytes))

  abbrev pub FromService : Text → Text → Type 0
  FromService name bytes =
      (token uri : Text) × Justified io.service
        (create_file_transfer_request io false (named name) token) (none, bytes, uri)

  abbrev pub Source : Text → Text → Type 0
  Source name bytes = FromReceiver bytes ⊎ (FromFile name bytes ⊎ FromService name bytes)

  abbrev pub Sourced : Text → Option ConsumerError → Text → Type 0
  Sourced name none bytes = Source name bytes
  Sourced name (some e) bytes = Unit

  -- The result is there, is about the same message, and has data from a source if there is no error.
  abbrev pub Fetched : Text → Result × Consumer W → Type 0
  Fetched name x =
      (err : Option ConsumerError) × (info : MessageMeta) × (bytes : Text) × (c : Consumer W) × (x
        ≡ (some (err, info, bytes), c))
      × (info.name ≡ name)
      × Sourced name err bytes

  -- No error comes with the data of a receiver.
  abbrev pub Given : (Option NetError × Text) × Consumer W → Type 0
  Given x = x.0.0 ≡ none → FromReceiver (x.0.1)

  client-Given :
      (client : NetClient) (info : MessageMeta) (bytes : Text) (c : Consumer W)
      → Given (ask_client io client info bytes c)
  unfolding ask_client
  client-Given client info bytes c e =
      (client, info, bytes, c.outside, no_error (io.get_data client info bytes c.outside).0 e)

  tcp-Given : (info : MessageMeta) (bytes : Text) (c : Consumer W) → Given (use_tcp io info bytes c)
  unfolding use_tcp
  tcp-Given info bytes c =
      client-Given tcp_client info bytes
        (record c { net_client = some tcp_client; current_connection_type = asapo_tcp })

  rdma-Given :
      (info : MessageMeta) (x : (Option NetError × Text) × Consumer W)
      → Given x
      → Given (after_rdma io info x)
  unfolding after_rdma
  rdma-Given info (answer, c) h =
      if_both Given (is_connected io (answer.0)) _ _ h
        (tcp-Given info (answer.1) (record c { should_try_rdma_first = false }))

  lock-Given :
      (info : MessageMeta) (bytes : Text) (c : Consumer W) → Given (with_lock io none info bytes c)
  unfolding with_lock
  lock-Given info bytes c =
      if_both Given c.should_try_rdma_first _ _
        (rdma-Given info (ask_client io fabric_client info bytes c)
          (client-Given fabric_client info bytes c))
        (tcp-Given info bytes c)

  module _
      (alone : (c : Consumer W) → c.net_client ≡ none → (io.until_locked c).net_client ≡ none) where
    with-Given :
        (client : Option NetClient) (info : MessageMeta) (bytes : Text) (c : Consumer W)
        → c.net_client ≡ client
        → Given (with_client io client info bytes c)
    unfolding with_client create_net_client_and_try_to_get_file
    with-Given none info bytes c e =
        subst (λ x. Given (with_lock io x info bytes (io.until_locked c))) (sym (alone c e))
          (lock-Given info bytes (io.until_locked c))
    with-Given (some client) info bytes c e = client-Given client info bytes c

    pub buffer-Given :
        (info : MessageMeta) (bytes : Text) (c : Consumer W)
        → Given (try_get_data_from_buffer io info bytes c)
    unfolding try_get_data_from_buffer
    buffer-Given info bytes c = with-Given c.net_client info bytes c refl
