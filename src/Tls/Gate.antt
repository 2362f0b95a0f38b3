-- ===== src/Tls/Gate.antt =====
-- What the event loop tells of a readable TLS channel: `_chann_msg` of src/mnet_core.c with
-- `_tls_filter_fn` of extension/openssl/mnet_tls.c as its filter.
use m_net.Base.{
  ◌≡◌, ◌⊎◌, inl, inr, refl, Bool, true, false, not, Option, none, some, Bool-cases, if◌then◌else◌,
}
use m_net.Base.Int.{pos, negsuc}
use m_net.Skiplist.{Ptr, null}
use m_net.Net.State.{Mnet, Chann, ChannState, ChannEvent, ◌>>=◌, ◌>>◌, set_heap}
use m_net.Net.State.Heap.{heap-set_self}
use m_net.Net.Env.{Env}
use m_net.Net.Ext.{call_filter}
use m_net.Net.Chann.{chann_msg}
use m_net.Net.Chann.Message.{message, with_message}
use m_net.Net.Poll.{tell}
use m_net.Tls.World.{TlsUd, TlsWorld, Openssl, load_ud_lem}
use m_net.Tls.Callbacks.{is_one, is_connected, is_listening, filter_data, tls_filter_fn}
use m_net.Tls.Config.{disconnecting, with_tls}
use m_net.Tls.Link.{IsLinked, IsUp, hung_up, hung_up-heap, closed_chann, get_ud_lem}
use m_net.Tls.Handshake.{
  answer, after_step, waits, shaken, done, done-heap, done-uds, refused, refusing, filter_done,
  filter_waits, filter_fails,
}

module _ {V : Type 0} ⦃lib : Openssl V⦄ (env : Env (TlsWorld V)) (h : Ptr) (s : Mnet (TlsWorld V))
    (c : Chann) (ctx tu : Ptr) (u : TlsUd) where
  -- The channel with the message RECV, and the library then.
  abbrev readable : Chann
  readable = with_message h c ChannEvent.recv null (pos 0)

  abbrev pub with_recv : Mnet (TlsWorld V)
  with_recv = set_heap s h (some readable)

  tell_recv :
      (told : Bool) (t : Mnet (TlsWorld V))
      → IsLinked h s c ctx tu u
      → filter_data ⦃env = disconnecting env⦄ h with_recv ≡ some (told, t)
      → tell ⦃env = with_tls env⦄ h ChannEvent.recv null (pos 0) s
        ≡ some (if told then some h else none, t)
  unfolding tell chann_msg call_filter tls_filter_fn
  tell_recv told t l filtered =
      let here = heap-set_self s h (some readable) in
      rw (l.there, here, l.entry, here, filtered, ◌>>=◌, ◌>>◌) refl

  IsLinked-readable : IsLinked h s c ctx tu u → IsLinked h with_recv readable ctx tu u
  IsLinked-readable l = record {
    some_chann = l.some_chann;
    there = heap-set_self s h (some readable);
    entry = l.entry;
    linked = l.linked;
    some_ud = l.some_ud;
    known = l.known;
  }

  IsUp-readable : IsUp h s c ctx tu u → IsUp h (after_step with_recv u) readable ctx tu u
  IsUp-readable v = record {
    link = record {
      some_chann = v.link.some_chann;
      there = heap-set_self s h (some readable);
      entry = v.link.entry;
      linked = v.link.linked;
      some_ud = v.link.some_ud;
      known = v.link.known;
    };
    begun = v.begun;
    opened = v.opened;
    active = v.active;
    queue = v.queue;
    sent_all = v.sent_all;
  }

  -- The message goes out as it is.
  abbrev pub Passes : Option (Option Ptr × Mnet (TlsWorld V)) → Type 0
  Passes r = (is_connected u.state ≡ true) × (r ≡ some (some h, with_recv))

  -- The handshake is done with this step: a message tells so in place of RECV.
  abbrev pub Completes : Option (Option Ptr × Mnet (TlsWorld V)) → Type 0
  Completes r =
      (t : Mnet (TlsWorld V)) × (is_connected u.state ≡ false)
      × (is_one (answer s u).0 ≡ true)
      × (r ≡ some (some h, t))
      × (t.heap h ≡ some (record c { msg = shaken u (message h c ChannEvent.recv null (pos 0)) }))
      × (t.world.uds tu
          ≡ some (record u {
            ln = if is_listening u.state then null else u.ln;
            state = ChannState.connected;
          }))

  -- It needs more bytes of the peer: nothing is told.
  abbrev pub Waits : Option (Option Ptr × Mnet (TlsWorld V)) → Type 0
  Waits r =
      (is_connected u.state ≡ false)
      × (is_one (answer s u).0 ≡ false)
      × (waits s u ≡ true)
      × (r ≡ some (none, after_step with_recv u))

  -- It has failed: the channel is disconnected, which a client is told and a server is not.
  abbrev pub Breaks : Option (Option Ptr × Mnet (TlsWorld V)) → Type 0
  Breaks r =
      (t : Mnet (TlsWorld V)) × (d : Chann) × (is_connected u.state ≡ false)
      × (is_one (answer s u).0 ≡ false)
      × (waits s u ≡ false)
      × (r ≡ some (if not (is_listening u.state) then some h else none, t))
      × (t.heap h ≡ some d)
      × (d.state ≡ ChannState.disconnect)
      × (d.fd ≡ negsuc 0)
      × (d.msg.event ≡ (if is_listening u.state then ChannEvent.recv else ChannEvent.disconnect))

  passes :
      IsLinked h s c ctx tu u
      → is_connected u.state ≡ true
      → filter_data ⦃env = disconnecting env⦄ h with_recv ≡ some (true, with_recv)
  unfolding filter_data
  passes l up =
      let l1 = IsLinked-readable l in
      rw
        (
          l1.there,
          get_ud_lem h with_recv readable ctx tu u ⦃env = disconnecting env⦄ l1,
          l.some_ud,
          load_ud_lem with_recv tu u l.some_ud l.known,
          up,
          ◌>>=◌,
          ◌>>◌,
        )
        refl

  completes :
      IsUp h s c ctx tu u
      → is_connected u.state ≡ false
      → is_one (answer s u).0 ≡ true
      → Completes (tell ⦃env = with_tls env⦄ h ChannEvent.recv null (pos 0) s)
  completes v shaking one =
      let l1 = IsLinked-readable v.link in
      let e = filter_done env h with_recv readable ctx tu u l1 refl shaking one in
      let t = after_step with_recv u in
      (
        done env h with_recv readable ctx tu u t,
        shaking,
        one,
        tell_recv true _ v.link e,
        done-heap env h with_recv readable ctx tu u t,
        done-uds env h with_recv readable ctx tu u t,
      )

  breaks :
      IsUp h s c ctx tu u
      → is_connected u.state ≡ false
      → is_one (answer s u).0 ≡ false
      → waits s u ≡ false
      → Breaks (tell ⦃env = with_tls env⦄ h ChannEvent.recv null (pos 0) s)
  breaks v shaking more over =
      let e =
        filter_fails env h with_recv readable ctx tu u (IsUp-readable v) (IsLinked-readable v.link)
          refl shaking more over in
      let gone = refused env h with_recv readable ctx tu u in
      let t = refusing env h with_recv readable ctx tu u (after_step with_recv u) in
      (
        hung_up env h t gone tu u,
        closed_chann gone,
        shaking,
        more,
        over,
        tell_recv _ _ v.link e,
        hung_up-heap env h t gone ctx tu u,
        refl,
        refl,
        elim (Bool-cases (is_listening u.state)) [
          | inl listening ↦ rw listening refl
          | inr calling ↦ rw calling refl
        ],
      )

  -- A readable event on a TLS channel with a connection and nothing cached: RECV is told only when
  -- the handshake was done before. If it was not, OpenSSL makes one more step of it, and there is
  -- told ACCEPT of the listener or CONNECTED if it is done now, nothing if it waits for the peer or a
  -- server's has failed, and DISCONNECT if a client's has failed; a failure closes the channel.
  pub recv_gated :
      IsUp h s c ctx tu u
      → let r = tell ⦃env = with_tls env⦄ h ChannEvent.recv null (pos 0) s in
        Passes r ⊎ Completes r ⊎ Waits r ⊎ Breaks r
  recv_gated v =
      let l = v.link in
      elim (Bool-cases (is_connected u.state)) [
        | inl up ↦ inl (up, tell_recv true with_recv l (passes l up))
        | inr shaking ↦ elim (Bool-cases (is_one (answer s u).0)) [
          | inl one ↦ inr (inl (completes v shaking one))
          | inr more ↦ elim (Bool-cases (waits s u)) [
            | inl again ↦ inr (
                inr (
                  inl (
                    shaking,
                    more,
                    again,
                    tell_recv false _ l (
                        filter_waits env h with_recv readable ctx tu u (IsLinked-readable l) refl
                          shaking more again),
                  )))
            | inr over ↦ inr (inr (inr (breaks v shaking more over)))
          ]
        ]
      ]
