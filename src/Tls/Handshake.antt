-- ===== src/Tls/Handshake.antt =====
-- `_tls_filter_fn` of extension/openssl/mnet_tls.c within `_chann_msg` of src/mnet_core.c: what a
-- readable event on a TLS channel comes to while the handshake is not done.
use m_net.Base.{
  ◌≡◌, inl, inr, refl, ap, ◌∙◌, Bool, true, false, not, some, Bool-cases, if◌then◌else◌, arith,
}
use m_net.Base.Int.{ℤ}
use m_net.Skiplist.{Ptr, null}
use m_net.Net.State.{Mnet, Chann, ChannState, ChannEvent, ChannMsg, ◌>>=◌, ◌>>◌, set_heap}
use m_net.Net.State.Heap.{heap-set_self}
use m_net.Net.Env.{Env}
use m_net.Net.Api.{mnet_ext_chann_get_ud, mnet_chann_disconnect}
use m_net.Tls.World.{
  TlsUd, TlsWorld, Openssl, put_ud, put_ud_self, load_ud_lem, modify_ud_lem, is_want,
}
use m_net.Tls.Callbacks.{
  is_one, is_connected, is_listening, finish_handshake, fail_handshake, filter_data,
}
use m_net.Tls.Config.{disconnecting}
use m_net.Tls.Link.{IsLinked, IsUp, hung_up, get_ud_lem, api_disconnect_tls}

module _ {V : Type 0} ⦃lib : Openssl V⦄ where
  -- What OpenSSL answers to the next step of the handshake, and the library then.
  abbrev pub answer : Mnet (TlsWorld V) → TlsUd → ℤ × V
  answer s u = (if is_listening u.state then lib.accept u.ssl else lib.connect u.ssl) s.world.os

  abbrev pub after_step : Mnet (TlsWorld V) → TlsUd → Mnet (TlsWorld V)
  after_step s u = record s { world = record s.world { os = (answer s u).1 } }

  abbrev pub waits : Mnet (TlsWorld V) → TlsUd → Bool
  waits s u = is_want (lib.get_error u.ssl (answer s u).0 (answer s u).1)

-- The message of a handshake that is done, or has failed.
abbrev pub shaken : TlsUd → ChannMsg → ChannMsg
shaken u m =
    if is_listening u.state
    then record m { event = ChannEvent.accept; r = m.n; n = u.ln }
    else record m { event = ChannEvent.connected }

module _ {V : Type 0} ⦃lib : Openssl V⦄ (env : Env (TlsWorld V)) (h : Ptr) (s : Mnet (TlsWorld V))
    (c : Chann) (ctx tu : Ptr) (u : TlsUd) where
  -- The library when the handshake is done.
  abbrev pub done : Mnet (TlsWorld V) → Mnet (TlsWorld V)
  done t =
      let t1 = set_heap t h (some (record c { msg = shaken u c.msg })) in
      if is_listening u.state
      then put_ud tu (some (record u { ln = null; state = ChannState.connected }))
          (put_ud tu (some (record u { ln = null })) t1)
      else put_ud tu (some (record u { state = ChannState.connected })) t1

  pub done-heap :
      (t : Mnet (TlsWorld V)) → (done t).heap h ≡ some (record c { msg = shaken u c.msg })
  done-heap t = elim (Bool-cases (is_listening u.state)) [
    | inl listening ↦ rw listening (heap-set_self t h _)
    | inr calling ↦ rw calling (heap-set_self t h _)
  ]

  pub done-uds :
      (t : Mnet (TlsWorld V))
      → (done t).world.uds tu
        ≡ some (record u {
          ln = if is_listening u.state then null else u.ln;
          state = ChannState.connected;
        })
  done-uds t = elim (Bool-cases (is_listening u.state)) [
    | inl listening ↦ rw listening (ground arith)
    | inr calling ↦ rw calling (ground arith)
  ]

  finish_lem :
      (t : Mnet (TlsWorld V))
      → IsLinked h t c ctx tu u
      → finish_handshake ⦃env = disconnecting env⦄ h tu t ≡ some (tt, done t)
  unfolding finish_handshake
  finish_lem t l =
      let with_msg : ChannMsg → Mnet (TlsWorld V) =
        λ m. set_heap t h (some (record c { msg = m })) in
      let loaded = load_ud_lem t tu u l.some_ud l.known in
      let connect : TlsUd → TlsUd = λ d. record d { state = ChannState.connected } in
      elim (Bool-cases (is_listening u.state)) [
        | inl listening ↦
            let t1 = with_msg (record c.msg { event = ChannEvent.accept; r = c.msg.n; n = u.ln }) in
            let u1 : TlsUd = record u { ln = null } in
            let noted = modify_ud_lem t1 tu u (λ d. record d { ln = null }) l.some_ud l.known in
            let last =
              modify_ud_lem (put_ud tu (some u1) t1) tu u1 connect l.some_ud
                (put_ud_self t1 tu (some u1)) in
            rw (loaded, listening, l.there, noted, last, ◌>>=◌, ◌>>◌) refl
        | inr calling ↦
            let t1 = with_msg (record c.msg { event = ChannEvent.connected }) in
            let last = modify_ud_lem t1 tu u connect l.some_ud l.known in
            rw (loaded, calling, l.there, last, ◌>>=◌, ◌>>◌) refl
      ]

  IsLinked-after : IsLinked h s c ctx tu u → IsLinked h (after_step s u) c ctx tu u
  IsLinked-after l = record {
    some_chann = l.some_chann;
    there = l.there;
    entry = l.entry;
    linked = l.linked;
    some_ud = l.some_ud;
    known = l.known;
  }

  -- The channel when the handshake has failed.
  abbrev pub refused : Chann
  refused =
      if is_listening u.state
      then c
      else record c { msg = record c.msg { event = ChannEvent.disconnect } }

  -- The library then, at the call of `mnet_chann_disconnect`.
  abbrev pub refusing : Mnet (TlsWorld V) → Mnet (TlsWorld V)
  refusing t = if is_listening u.state then t else set_heap t h (some refused)

  fail_lem :
      (t : Mnet (TlsWorld V))
      → IsUp h t c ctx tu u
      → c.msg.n ≡ h
      → fail_handshake ⦃env = disconnecting env⦄ h u t
        ≡ some (not (is_listening u.state), hung_up env h (refusing t) refused tu u)
  unfolding fail_handshake
  fail_lem t v own = elim (Bool-cases (is_listening u.state)) [
    | inl listening ↦
        let gone =
          ap (λ p. mnet_chann_disconnect ⦃env = disconnecting env⦄ p t) own
          ∙ api_disconnect_tls env h t c ctx tu u v in
        rw (v.link.there, listening, gone, ◌>>=◌, ◌>>◌) refl
    | inr calling ↦
        let d : Chann = record c { msg = record c.msg { event = ChannEvent.disconnect } } in
        let t1 = set_heap t h (some d) in
        let l = v.link in
        let v1 : IsUp h t1 d ctx tu u = record {
          link = record {
            some_chann = l.some_chann;
            there = heap-set_self t h (some d);
            entry = l.entry;
            linked = l.linked;
            some_ud = l.some_ud;
            known = l.known;
          };
          begun = v.begun;
          opened = v.opened;
          active = v.active;
          queue = v.queue;
          sent_all = v.sent_all;
        } in
        let gone =
          ap (λ p. mnet_chann_disconnect ⦃env = disconnecting env⦄ p t1) own
          ∙ api_disconnect_tls env h t1 d ctx tu u v1 in
        rw (l.there, calling, l.there, gone, ◌>>=◌, ◌>>◌) refl
  ]

  -- The three ways in which `_tls_filter_fn` goes on while the handshake is not done.
  pub filter_done :
      IsLinked h s c ctx tu u
      → c.msg.n ≡ h
      → is_connected u.state ≡ false
      → is_one (answer s u).0 ≡ true
      → filter_data ⦃env = disconnecting env⦄ h s ≡ some (true, done (after_step s u))
  unfolding filter_data
  filter_done l own shaking one =
      let ud =
        ap (λ p. mnet_ext_chann_get_ud ⦃env = disconnecting env⦄ p s) own
        ∙ get_ud_lem h s c ctx tu u ⦃env = disconnecting env⦄ l in
      rw
        (
          l.there,
          ud,
          l.some_ud,
          load_ud_lem s tu u l.some_ud l.known,
          shaking,
          one,
          finish_lem (after_step s u) (IsLinked-after l),
          ◌>>=◌,
          ◌>>◌,
        )
        refl

  pub filter_waits :
      IsLinked h s c ctx tu u
      → c.msg.n ≡ h
      → is_connected u.state ≡ false
      → is_one (answer s u).0 ≡ false
      → waits s u ≡ true
      → filter_data ⦃env = disconnecting env⦄ h s ≡ some (false, after_step s u)
  unfolding filter_data
  filter_waits l own shaking more again =
      let ud =
        ap (λ p. mnet_ext_chann_get_ud ⦃env = disconnecting env⦄ p s) own
        ∙ get_ud_lem h s c ctx tu u ⦃env = disconnecting env⦄ l in
      rw
        (
          l.there,
          ud,
          l.some_ud,
          load_ud_lem s tu u l.some_ud l.known,
          shaking,
          more,
          again,
          ◌>>=◌,
          ◌>>◌,
        )
        refl

  pub filter_fails :
      IsUp h (after_step s u) c ctx tu u
      → IsLinked h s c ctx tu u
      → c.msg.n ≡ h
      → is_connected u.state ≡ false
      → is_one (answer s u).0 ≡ false
      → waits s u ≡ false
      → filter_data ⦃env = disconnecting env⦄ h s
        ≡ some (not (is_listening u.state), hung_up env h (refusing (after_step s u)) refused tu u)
  unfolding filter_data
  filter_fails v l own shaking more over =
      let ud =
        ap (λ p. mnet_ext_chann_get_ud ⦃env = disconnecting env⦄ p s) own
        ∙ get_ud_lem h s c ctx tu u ⦃env = disconnecting env⦄ l in
      rw
        (
          l.there,
          ud,
          l.some_ud,
          load_ud_lem s tu u l.some_ud l.known,
          shaking,
          more,
          over,
          fail_lem (after_step s u) v own,
          ◌>>=◌,
          ◌>>◌,
        )
        refl
