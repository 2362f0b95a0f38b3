-- ===== src/Tls/Life.antt =====
-- The TLS record of a channel from its open to its close, and the registration of the extension.
use m_net.Base.{◌≡◌, inl, inr, refl, true, false, Option, none, some, Bool-cases, arith, ◌==◌}
use m_net.Skiplist.{Ptr, null}
use m_net.Net.State.{Mnet, Chann, ChannState, ◌>>=◌, ◌>>◌, set_heap, modify}
use m_net.Net.State.Heap.{heap-set_self}
use m_net.Net.Env.{Env}
use m_net.Net.Ext.{call_type, ext_register, put_ext}
use m_net.Net.Api.{mnet_ext_chann_get_ud, mnet_ext_chann_set_ud}
use m_net.Tls.World.{
  TlsUd, TlsWorld, Openssl, zero_ud, put_ud, put_ud_self, calloc_ud, load_ud_lem, modify_ud_lem,
}
use m_net.Tls.Callbacks.{tls_open_cb, tls_close_cb, tls_listen_cb}
use m_net.Tls.Config.{chann_type_tls, mnet_tls_config}
use m_net.Tls.Link.{tls_entry}

module _ {V : Type 0} ⦃lib : Openssl V⦄ (env : Env (TlsWorld V)) where
  -- `mnet_tls_config` with a context, while the slot of TLS is free, registers the extension; every
  -- call after it fails and leaves the library as it is.
  pub config_once :
      (ctx ctx' : Ptr) (s : Mnet (TlsWorld V))
      → (ctx == null) ≡ false
      → (s.ext_config chann_type_tls).reserved ≡ false
      → let t = put_ext chann_type_tls (tls_entry ctx) s in
        (mnet_tls_config env ctx s ≡ some (true, t))
        × (mnet_tls_config env ctx' t ≡ some (false, t))
  unfolding mnet_tls_config ext_register call_type
  config_once ctx ctx' s given free = (
    rw (given, free, ◌>>=◌, ◌>>◌) refl,
    elim (Bool-cases (ctx' == null)) [
      | inl missing ↦ rw missing refl
      | inr given' ↦ rw given' refl
    ],
  )

  set_ud_lem :
      (n ud : Ptr) (s : Mnet (TlsWorld V)) (c : Chann)
      → (n == null) ≡ false
      → s.heap n ≡ some c
      → (s.ext_config c.ctype).reserved ≡ true
      → mnet_ext_chann_set_ud ⦃env = env⦄ n ud s
        ≡ some (tt, set_heap s n (some (record c { ext_ud = ud })))
  unfolding mnet_ext_chann_set_ud
  set_ud_lem n ud s c some_chann there known =
      rw (some_chann, there, known, modify, there, ◌>>=◌, ◌>>◌) refl

  get_ud_at :
      (n ud : Ptr) (s : Mnet (TlsWorld V)) (c : Chann)
      → (n == null) ≡ false
      → s.heap n ≡ some c
      → (s.ext_config c.ctype).reserved ≡ true
      → c.ext_ud ≡ ud
      → mnet_ext_chann_get_ud ⦃env = env⦄ n s ≡ some (ud, s)
  unfolding mnet_ext_chann_get_ud
  get_ud_at n ud s c some_chann there known linked =
      rw (some_chann, there, known, linked, ◌>>=◌) refl

module _ {V : Type 0} ⦃lib : Openssl V⦄ (env : Env (TlsWorld V)) (n : Ptr) (s : Mnet (TlsWorld V))
    (c : Chann) where
  -- The record that `calloc` returns, and the library then.
  abbrev fresh : Ptr
  fresh = (lib.calloc s.world.os).0

  abbrev called : Mnet (TlsWorld V)
  called = record s { world = record s.world { os = (lib.calloc s.world.os).1 } }

  abbrev open_ud : TlsUd
  open_ud = record zero_ud { state = ChannState.disconnect }

  calloc_lem :
      (fresh == null) ≡ false → calloc_ud s ≡ some (fresh, put_ud fresh (some zero_ud) called)
  unfolding calloc_ud
  calloc_lem got = rw (got, ◌>>=◌, ◌>>◌) refl

  -- After the open.
  abbrev opened : Mnet (TlsWorld V)
  opened =
      set_heap (put_ud fresh (some open_ud) (put_ud fresh (some zero_ud) called)) n
        (some (record c { ext_ud = fresh }))

  open_lem :
      (n == null) ≡ false
      → s.heap n ≡ some c
      → (s.ext_config c.ctype).reserved ≡ true
      → (fresh == null) ≡ false
      → tls_open_cb ⦃env = env⦄ n s ≡ some (tt, opened)
  unfolding tls_open_cb
  open_lem some_chann there known got =
      let t = put_ud fresh (some zero_ud) called in
      rw
        (
          calloc_lem got,
          got,
          modify_ud_lem t fresh zero_ud (λ u. record u { state = ChannState.disconnect }) got
              (put_ud_self called fresh (some zero_ud)),
          set_ud_lem env n fresh (put_ud fresh (some open_ud) t) c some_chann there known,
          ◌>>=◌,
          ◌>>◌,
        )
        refl

  -- What `run` leaves: the records in use are those of before, and the channel has none.
  abbrev pub Releases : Option (Unit {0} × Mnet (TlsWorld V)) → Type 0
  Releases r =
      (t : Mnet (TlsWorld V)) × (r ≡ some (tt, t))
      × ((q : Ptr) → t.world.uds q ≡ s.world.uds q)
      × (t.heap n ≡ some (record c { ext_ud = null }))
      × (t.world.os ≡ (lib.calloc s.world.os).1)

  -- A TLS record is allocated when a channel is opened, and released when it is closed without a
  -- connection or begins to listen: the records in use are those of before, the channel refers to
  -- none, and nothing of OpenSSL was called. Conditions: the extension is registered, and `calloc`
  -- gives a new record.
  pub open-Releases :
      (n == null) ≡ false
      → s.heap n ≡ some c
      → (s.ext_config c.ctype).reserved ≡ true
      → (fresh == null) ≡ false
      → s.world.uds fresh ≡ none
      → Releases ((do tls_open_cb ⦃env = env⦄ n; tls_close_cb ⦃env = env⦄ n) s)
        × Releases ((do tls_open_cb ⦃env = env⦄ n; tls_listen_cb ⦃env = env⦄ n) s)
  unfolding tls_close_cb tls_listen_cb
  open-Releases some_chann there known got new =
      let d : Chann = record c { ext_ud = fresh } in
      let here : opened.heap n ≡ some d = ground arith in
      let ud = get_ud_at env n fresh opened d some_chann here known refl in
      let in_use : opened.world.uds fresh ≡ some open_ud = ground arith in
      let shut : TlsUd = record open_ud { state = ChannState.closed } in
      let t = put_ud fresh none (put_ud fresh (some shut) opened) in
      let ran_open = open_lem some_chann there known got in
      let u = set_heap opened n (some (record d { ext_ud = null })) in
      (
        (
          set_heap t n (some (record d { ext_ud = null })),
          rw
              (
                ran_open,
                ud,
                got,
                load_ud_lem opened fresh open_ud got in_use,
                modify_ud_lem opened fresh open_ud (λ k. record k { state = ChannState.closed }) got
                    in_use,
                set_ud_lem env n null t d some_chann here known,
                ◌>>=◌,
                ◌>>◌,
              )
              refl,
          λ q. ground (arith, new),
          heap-set_self t n (some (record d { ext_ud = null })),
          refl,
        ),
        (
          put_ud fresh none u,
          rw (ran_open, ud, got, set_ud_lem env n null opened d some_chann here known, ◌>>=◌, ◌>>◌)
              refl,
          λ q. ground (arith, new),
          heap-set_self opened n (some (record d { ext_ud = null })),
          refl,
        ),
      )
