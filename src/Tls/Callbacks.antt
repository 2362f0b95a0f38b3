-- ===== src/Tls/Callbacks.antt =====
-- The functions of extension/openssl/mnet_tls.c that mnet_core.c calls through its table. Where they
-- disconnect a channel they call back into the library.
use m_net.Base.{ℕ, Bool, true, false, none, List, [], ltb, ◌==◌, if◌then◌else◌}
use m_net.Base.Int.{ℤ, pos, negsuc, ltb_ℤ}
use m_net.Skiplist.{Ptr, null}
use m_net.Net.State.{
  M, ChannState, ChannEvent, rank, type_stream, pure, ◌>>=◌, ◌>>◌, update, load, modify,
}
use m_net.Net.Env.{Env}
use m_net.Net.Api.{
  mnet_chann_fd, mnet_chann_disconnect, mnet_ext_chann_get_ud, mnet_ext_chann_set_ud,
}
use m_net.Tls.World.{
  TlsUd, TlsWorld, Openssl, outside, outside_only, put_ud, load_ud, modify_ud, calloc_ud, ssl_is_rw,
  ssl_set_fd,
}

-- `ret == 1`.
abbrev pub is_one : ℤ → Bool
is_one (pos k) = k == 1
is_one (negsuc _) = false

abbrev pub is_connected : ChannState → Bool
is_connected state = rank state == rank ChannState.connected

abbrev pub is_listening : ChannState → Bool
is_listening state = rank state == rank ChannState.listening

-- `_tls_type_fn`.
abbrev pub tls_type_fn : ℕ → ℕ
tls_type_fn ctype = type_stream

module _ {V : Type 0} ⦃lib : Openssl V⦄ ⦃env : Env (TlsWorld V)⦄ where
  -- The next step of a handshake: as a server or as a client.
  abbrev pub shake_hands : TlsUd → M (TlsWorld V) ℤ
  shake_hands u = outside (if is_listening u.state then lib.accept u.ssl else lib.connect u.ssl)

  -- `_tls_filter_fn` when SSL_accept or SSL_connect has succeeded: the message, which is in the
  -- channel `h`, becomes ACCEPT of the listener or CONNECTED.
  unfoldable pub finish_handshake : Ptr → Ptr → M (TlsWorld V) (Unit {0})
  finish_handshake h tu = do
    u ← load_ud tu
    if is_listening u.state
        then (do
          modify h (λ c. record c {
            msg = record c.msg { event = ChannEvent.accept; r = c.msg.n; n = u.ln };
          })
          modify_ud tu (λ d. record d { ln = null }))
        else modify h (λ c. record c { msg = record c.msg { event = ChannEvent.connected } })
    modify_ud tu (λ d. record d { state = ChannState.connected })

  -- When it has failed: a server drops the event, a client hears of DISCONNECT.
  unfoldable pub fail_handshake : Ptr → TlsUd → M (TlsWorld V) Bool
  fail_handshake h u = do
    c ← load h
    if is_listening u.state then (do mnet_chann_disconnect c.msg.n; pure false) else (do
      modify h (λ d. record d { msg = record d.msg { event = ChannEvent.disconnect } })
      mnet_chann_disconnect c.msg.n
      pure true)

  -- The case of CONNECTED and RECV.
  unfoldable pub filter_data : Ptr → M (TlsWorld V) Bool
  filter_data h = do
    c ← load h
    tu ← mnet_ext_chann_get_ud c.msg.n
    if tu == null then pure true else (do
      u ← load_ud tu
      if is_connected u.state then pure true else (do
        ret ← shake_hands u
        if is_one ret then (do finish_handshake h tu; pure true) else (do
          again ← ssl_is_rw u.ssl ret
          if again then pure false else fail_handshake h u)))

  -- `_tls_filter_fn` on the message that is in the channel `h`.
  unfoldable pub tls_filter_fn : Ptr → M (TlsWorld V) Bool
  tls_filter_fn h = do
    c ← load h
    elim c.msg.event [
      | ChannEvent.accept ↦ do
        tu ← mnet_ext_chann_get_ud c.msg.r
        if tu == null
            then pure false
            else (do modify_ud tu (λ u. record u { ln = c.msg.n }); pure false)
      | ChannEvent.connected ↦ filter_data h
      | ChannEvent.recv ↦ filter_data h
      | _ ↦ pure true
    ]

  unfoldable pub tls_open_cb : Ptr → M (TlsWorld V) (Unit {0})
  tls_open_cb n = do
    tu ← calloc_ud
    if tu == null then pure tt else (do
      modify_ud tu (λ u. record u { state = ChannState.disconnect })
      mnet_ext_chann_set_ud n tu)

  unfoldable pub tls_close_cb : Ptr → M (TlsWorld V) (Unit {0})
  tls_close_cb n = do
    tu ← mnet_ext_chann_get_ud n
    if tu == null then pure tt else (do
      u ← load_ud tu
      if ltb (rank ChannState.closed) (rank u.state)
          then (do
            modify_ud tu (λ d. record d { state = ChannState.closed })
            if u.ssl == null then pure tt else outside_only (lib.free u.ssl)
            update (put_ud tu none)
            mnet_ext_chann_set_ud n null)
          else pure tt)

  unfoldable pub tls_listen_cb : Ptr → M (TlsWorld V) (Unit {0})
  tls_listen_cb n = do
    tu ← mnet_ext_chann_get_ud n
    if tu == null then pure tt else (do mnet_ext_chann_set_ud n null; update (put_ud tu none))

  -- A new SSL for the socket of `n`, and the first step of the handshake, which fails at once only
  -- on an error that is not a wait for the peer.
  unfoldable pub start_handshake : Ptr → Ptr → Ptr → ChannState → M (TlsWorld V) (Unit {0})
  start_handshake ctx n tu state = do
    modify_ud tu (λ u. record u { state = state })
    ssl ← outside (lib.ssl_new ctx)
    modify_ud tu (λ u. record u { ssl = ssl })
    fd ← mnet_chann_fd n
    ssl_set_fd ssl fd
    u ← load_ud tu
    ret ← shake_hands u
    if is_one ret
        then modify_ud tu (λ d. record d { state = ChannState.connected })
        else (do again ← ssl_is_rw ssl ret; if again then pure tt else mnet_chann_disconnect n)

  -- The result of `calloc` is not tested.
  unfoldable pub tls_accept_cb : Ptr → Ptr → M (TlsWorld V) (Unit {0})
  tls_accept_cb ctx n = do
    tu ← calloc_ud
    mnet_ext_chann_set_ud n tu
    start_handshake ctx n tu ChannState.listening

  unfoldable pub tls_connect_cb : Ptr → Ptr → M (TlsWorld V) (Unit {0})
  tls_connect_cb ctx n = do
    tu ← mnet_ext_chann_get_ud n
    if tu == null then pure tt else start_handshake ctx n tu ChannState.connecting

  unfoldable pub tls_disconnect_cb : Ptr → M (TlsWorld V) (Unit {0})
  tls_disconnect_cb n = do
    tu ← mnet_ext_chann_get_ud n
    if tu == null then pure tt else (do
      u ← load_ud tu
      if ltb (rank ChannState.disconnect) (rank u.state)
          then (do
            modify_ud tu (λ d. record d { state = ChannState.disconnect })
            outside_only (lib.shutdown u.ssl)
            outside_only (lib.clear u.ssl))
          else pure tt)

  -- The state of the handshake in place of that of the channel.
  unfoldable pub tls_state_fn : Ptr → ℤ → M (TlsWorld V) ℤ
  tls_state_fn n state = do
    tu ← mnet_ext_chann_get_ud n
    if tu == null then pure state else (do u ← load_ud tu; pure (pos (rank u.state)))

  -- The result of a read or a write: a wait for the peer is 0.
  unfoldable pub io_result : Ptr → ℤ → M (TlsWorld V) ℤ
  io_result ssl ret =
      if ltb_ℤ (pos 0) ret
      then pure ret
      else (do again ← ssl_is_rw ssl ret; pure (if again then pos 0 else ret))

  unfoldable pub tls_recv_fn : Ptr → ℕ → M (TlsWorld V) (ℤ × List ℕ)
  tls_recv_fn n len = do
    tu ← mnet_ext_chann_get_ud n
    if tu == null then pure (negsuc 0, []) else (do
      u ← load_ud tu
      (ret, bytes) ← outside (λ v. let (r, bs, v') = lib.read u.ssl len v in ((r, bs), v'))
      res ← io_result u.ssl ret
      pure (res, bytes))

  unfoldable pub tls_send_fn : Ptr → List ℕ → M (TlsWorld V) ℤ
  tls_send_fn n buf = do
    tu ← mnet_ext_chann_get_ud n
    if tu == null
        then pure (negsuc 0)
        else (do u ← load_ud tu; ret ← outside (lib.write u.ssl buf); io_result u.ssl ret)
