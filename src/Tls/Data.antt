-- ===== src/Tls/Data.antt =====
-- Data on a TLS channel: `mnet_chann_send` and `mnet_chann_recv` of src/mnet_core.c with the
-- functions of extension/openssl/mnet_tls.c behind them.
use m_net.Base.{
  ℕ, ◌<◌, ◌≡◌, refl, ◌||◌, inl, inr, true, false, not, some, List, [], Bool-cases, arith, ltb, leb,
  if◌then◌else◌, take,
}
use m_net.Base.Int.{ℤ, pos, negsuc, ltb_ℤ, leb_ℤ}
use m_net.Skiplist.{Ptr}
use m_net.Net.State.{Mnet, Chann, ChannState, rank, ◌>>=◌, ◌>>◌}
use m_net.Net.Env.{Env}
use m_net.Net.Ext.{call_state, call_send}
use m_net.Net.Send.{shown_state, mnet_chann_send, mnet_chann_recv}
use m_net.Tls.World.{TlsUd, TlsWorld, Openssl, load_ud_lem, is_want}
use m_net.Tls.Callbacks.{tls_state_fn, tls_send_fn, io_result}
use m_net.Tls.Config.{disconnecting, with_tls}
use m_net.Tls.Link.{IsLinked, get_ud_lem}

module _ {V : Type 0} ⦃lib : Openssl V⦄ (env : Env (TlsWorld V)) (n : Ptr) (s : Mnet (TlsWorld V))
    (c : Chann) (ctx tu : Ptr) (u : TlsUd) where
  pub shown_tls :
      IsLinked n s c ctx tu u → shown_state ⦃env = with_tls env⦄ n s ≡ some (pos (rank u.state), s)
  unfolding shown_state call_state tls_state_fn
  shown_tls l =
      rw
        (
          l.there,
          l.entry,
          get_ud_lem n s c ctx tu u ⦃env = disconnecting env⦄ l,
          l.some_ud,
          load_ud_lem s tu u l.some_ud l.known,
          ◌>>=◌,
          ◌>>◌,
        )
        refl

  -- While the TLS state of a channel is CLOSED, DISCONNECT or CONNECTING, `mnet_chann_send` and
  -- `mnet_chann_recv` refuse: the result is -1, and neither OpenSSL nor the system is called,
  -- whatever the state of the socket is. LISTENING, which is the TLS state of an accepted channel
  -- until its handshake is done, is not among them. Condition: there is a length.
  pub early_data_refused :
      (buf : List ℕ) (len : ℕ)
      → IsLinked n s c ctx tu u
      → ltb (rank u.state) (rank ChannState.connected) ≡ true
      → 0 < len
      → (mnet_chann_send ⦃env = with_tls env⦄ n (some buf) len s ≡ some (negsuc 0, s))
        × (mnet_chann_recv ⦃env = with_tls env⦄ n true len s ≡ some ((negsuc 0, []), s))
  unfolding mnet_chann_send mnet_chann_recv
  early_data_refused buf len l early some_len =
      let room : leb len 0 ≡ false = ground arith in
      let asked : not true || leb len 0 ≡ false = ground arith in
      let low : leb_ℤ (pos (rank ChannState.connected)) (pos (rank u.state)) ≡ false =
        ground (arith, early) in
      (
        rw (l.there, room, shown_tls l, low, ◌>>=◌, ◌>>◌) refl,
        rw (l.there, asked, shown_tls l, low, ◌>>=◌, ◌>>◌) refl,
      )

  -- What SSL_write answers for the first `len` bytes, a wait for the peer being 0.
  abbrev pub written : List ℕ → ℕ → ℤ
  written buf len =
      let (ret, v) = lib.write u.ssl (take len buf) s.world.os in
      if ltb_ℤ (pos 0) ret
      then ret
      else (if is_want (lib.get_error u.ssl ret v) then pos 0 else ret)

  abbrev pub after_write : List ℕ → ℕ → Mnet (TlsWorld V)
  after_write buf len = record s {
    world = record s.world { os = (lib.write u.ssl (take len buf) s.world.os).1 };
  }

  pub call_send_tls :
      (buf : List ℕ) (len : ℕ)
      → IsLinked n s c ctx tu u
      → call_send ⦃env = with_tls env⦄
          (s.ext_config c.ctype).send_fn
          (s.ext_config c.ctype).ext_ctx
          n
          buf
          len
          s
        ≡ some (written buf len, after_write buf len)
  unfolding call_send tls_send_fn io_result
  call_send_tls buf len l =
      let ret = (lib.write u.ssl (take len buf) s.world.os).0 in
      let v = (lib.write u.ssl (take len buf) s.world.os).1 in
      elim (Bool-cases (ltb_ℤ (pos 0) ret)) [
        | inl some_out ↦
            rw
              (
                l.entry,
                get_ud_lem n s c ctx tu u ⦃env = disconnecting env⦄ l,
                l.some_ud,
                load_ud_lem s tu u l.some_ud l.known,
                some_out,
                ◌>>=◌,
                ◌>>◌,
              )
              refl
        | inr none_out ↦
            rw
              (
                l.entry,
                get_ud_lem n s c ctx tu u ⦃env = disconnecting env⦄ l,
                l.some_ud,
                load_ud_lem s tu u l.some_ud l.known,
                none_out,
                ◌>>=◌,
                ◌>>◌,
              )
              refl
      ]
