-- ===== src/Tls/Link.antt =====
-- The link from a channel to its TLS record, and the disconnect of a TLS channel: `_tls_disconnect_cb`
-- of extension/openssl/mnet_tls.c within `_chann_disconnect_socket` of src/mnet_core.c.
use m_net.Base.{
  ◌≡◌, refl, ap, true, false, none, some, [], ltb, ◌==◌, ◌∙◌, ◌&&◌, inl, inr, Bool-cases, arith,
  if◌then◌else◌,
}
use m_net.Base.Int.{pos, negsuc, ltb_ℤ}
use m_net.Skiplist.{Ptr, null}
use m_net.Rwb
use m_net.Rwb.Contents.{contents, IsQueue}
use m_net.Rwb.Destroy.{destroy_ends_iff}
use m_net.Net.State.{Mnet, Chann, ChannState, ExtConfig, no_events, rank, ◌>>=◌, ◌>>◌, set_heap}
use m_net.Net.State.Heap.{modify-set}
use m_net.Net.Env.{Env, SysCall}
use m_net.Net.Ext.{call_op}
use m_net.Net.Chann.{destroy_queue, chann_disconnect_socket}
use m_net.Net.Api.{mnet_ext_chann_get_ud, mnet_chann_disconnect}
use m_net.Tls.World.{TlsUd, TlsWorld, Openssl, put_ud, load_ud_lem, modify_ud_lem}
use m_net.Tls.Callbacks.{tls_disconnect_cb}
use m_net.Tls.Config.{tls_ext, disconnecting, with_tls}

-- The entry of the table once the extension is registered.
abbrev pub tls_entry : Ptr → ExtConfig
tls_entry ctx = record (tls_ext ctx) { reserved = true }

module _ {V : Type 0} (n : Ptr) (s : Mnet (TlsWorld V)) where
  -- The channel `c` at `n` is a TLS channel with the record `u` at `tu`.
  pub record IsLinked (c : Chann) (ctx tu : Ptr) (u : TlsUd) : Type 0 where
    pub some_chann : (n == null) ≡ false
    pub there : s.heap n ≡ some c
    pub entry : s.ext_config c.ctype ≡ tls_entry ctx
    pub linked : c.ext_ud ≡ tu
    pub some_ud : (tu == null) ≡ false
    pub known : s.world.uds tu ≡ some u

  -- A TLS channel with a connection and nothing cached, on an open descriptor.
  pub record IsUp (c : Chann) (ctx tu : Ptr) (u : TlsUd) : Type 0 where
    pub link : IsLinked c ctx tu u
    pub begun : ltb (rank ChannState.disconnect) (rank u.state) ≡ true
    pub opened : ltb_ℤ (pos 0) c.fd ≡ true
    pub active : ltb (rank ChannState.disconnect) (rank c.state) ≡ true
    pub queue : IsQueue c.rwb_send
    pub sent_all : contents c.rwb_send ≡ []

module _ {V : Type 0} (n : Ptr) (s : Mnet (TlsWorld V)) (c : Chann) (ctx tu : Ptr) (u : TlsUd) where
  pub get_ud_lem :
      ⦃env : Env (TlsWorld V)⦄ → IsLinked n s c ctx tu u → mnet_ext_chann_get_ud n s ≡ some (tu, s)
  unfolding mnet_ext_chann_get_ud
  get_ud_lem l = rw (l.some_chann, l.there, l.entry, l.linked, ◌>>=◌)

-- The record of a connection that is shut down.
abbrev pub shut_ud : TlsUd → TlsUd
shut_ud u = record u { state = ChannState.disconnect }

-- The channel when its socket is closed.
abbrev pub closed_chann : Chann → Chann
closed_chann c = record c {
  rwb_send = Rwb.empty;
  fd = negsuc 0;
  state = ChannState.disconnect;
  epoll_events = no_events;
}

module _ {V : Type 0} ⦃lib : Openssl V⦄ where
  -- The state after SSL_shutdown and SSL_clear, in this order.
  abbrev pub shut : Mnet (TlsWorld V) → Ptr → TlsUd → Mnet (TlsWorld V)
  shut s tu u =
      let t = put_ud tu (some (shut_ud u)) s in
      record t { world = record t.world { os = lib.clear u.ssl (lib.shutdown u.ssl s.world.os) } }

  -- The state after the disconnect: the socket is closed behind SSL_shutdown and SSL_clear.
  abbrev pub hung_up :
      Env (TlsWorld V) → Ptr → Mnet (TlsWorld V) → Chann → Ptr → TlsUd → Mnet (TlsWorld V)
  hung_up env n s c tu u =
      let t = shut s tu u in
      set_heap (record t { world = (env.call (SysCall.close c.fd) t.world).1 }) n
        (some (closed_chann c))

module _ {V : Type 0} ⦃lib : Openssl V⦄ (env : Env (TlsWorld V)) (n : Ptr) (s : Mnet (TlsWorld V))
    (c : Chann) (ctx tu : Ptr) (u : TlsUd) where
  disconnect_cb_lem :
      IsLinked n s c ctx tu u
      → ltb (rank ChannState.disconnect) (rank u.state) ≡ true
      → tls_disconnect_cb ⦃env = env⦄ n s ≡ some (tt, shut s tu u)
  unfolding tls_disconnect_cb
  disconnect_cb_lem l active = rw (
    get_ud_lem n s c ctx tu u ⦃env = env⦄ l,
    l.some_ud,
    if◌then◌else◌,
    load_ud_lem s tu u l.some_ud l.known,
    active,
    modify_ud_lem s tu u shut_ud l.some_ud l.known,
    ◌>>=◌,
    ◌>>◌,
  )

  pub disconnect_tls :
      IsUp n s c ctx tu u
      → chann_disconnect_socket ⦃env = disconnecting env⦄ n s ≡ some (true, hung_up env n s c tu u)
  unfolding chann_disconnect_socket call_op destroy_queue
  disconnect_tls v =
      let l = v.link in
      rw
        (
          l.there,
          v.opened,
          v.active,
          l.entry,
          disconnect_cb_lem l v.begun,
          l.there,
          l.there,
          (destroy_ends_iff c.rwb_send v.queue).1 v.sent_all,
          l.there,
          ◌>>=◌,
          ◌>>◌,
        )
        (ap (elim [ none ↦ none | some (_, t) ↦ some (true, t) ])
          (modify-set
            (record (shut s tu u) { world = (env.call (SysCall.close c.fd) (shut s tu u).world).1 })
            n (record c { rwb_send = Rwb.empty })
            (λ d. record d {
              fd = negsuc 0;
              state = ChannState.disconnect;
              epoll_events = no_events;
            })))

  -- The callbacks run in a library in which only the one on a disconnect is that of TLS: for a
  -- disconnect this makes no difference.
  pub disconnect_same :
      s.heap n ≡ some c
      → s.ext_config c.ctype ≡ tls_entry ctx
      → chann_disconnect_socket ⦃env = with_tls env⦄ n s
        ≡ chann_disconnect_socket ⦃env = disconnecting env⦄ n s
  unfolding chann_disconnect_socket call_op destroy_queue
  disconnect_same there entry =
      elim (Bool-cases (ltb_ℤ (pos 0) c.fd && ltb (rank ChannState.disconnect) (rank c.state))) [
        | inl opened ↦ rw (there, opened, if◌then◌else◌, entry, ◌>>=◌, ◌>>◌) refl
        | inr shut ↦ rw (there, shut, ◌>>=◌, ◌>>◌) refl
      ]

  -- A disconnect of a TLS channel with a connection and nothing cached, on an open descriptor,
  -- returns: SSL_shutdown and SSL_clear come before the `close` of the descriptor, the record of the
  -- connection is back in DISCONNECT and keeps its SSL, and the channel is disconnected.
  pub disconnect-hung_up :
      IsUp n s c ctx tu u
      → chann_disconnect_socket ⦃env = with_tls env⦄ n s ≡ some (true, hung_up env n s c tu u)
  disconnect-hung_up v = disconnect_same v.link.there v.link.entry ∙ disconnect_tls v

  pub api_disconnect_tls :
      IsUp n s c ctx tu u
      → mnet_chann_disconnect ⦃env = disconnecting env⦄ n s ≡ some (tt, hung_up env n s c tu u)
  unfolding mnet_chann_disconnect
  api_disconnect_tls v = rw (v.link.some_chann, disconnect_tls v, ◌>>=◌) refl

  pub hung_up-heap : (hung_up env n s c tu u).heap n ≡ some (closed_chann c)
  hung_up-heap = ground arith
