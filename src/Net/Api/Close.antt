-- ===== src/Net/Api/Close.antt =====
-- `mnet_chann_close` on a live channel.
use m_net.Base.{◌≡◌, ap, true, false, none, some, [], arith, ltb, ◌==◌}
use m_net.Base.Int.{negsuc}
use m_net.Skiplist.{Ptr, null}
use m_net.Rwb
use m_net.Rwb.Contents.{contents}
use m_net.Net.State.{Mnet, Chann, ChannState, Fn, no_events, rank, ◌>>=◌, ◌>>◌, set_heap}
use m_net.Net.State.Heap.{heap-set_self, modify-set}
use m_net.Net.Env.{Env, SysCall}
use m_net.Net.Ext.{call_op}
use m_net.Net.Chann.{chann_close_socket}
use m_net.Net.Chann.Disconnect.{IsLive, disconnect_closes}
use m_net.Net.Api.{mnet_chann_close}

module _ {W : Type 0} ⦃env : Env W⦄ (n : Ptr) where
  -- The channel `d` at `n` is put on the list of those to be destroyed.
  abbrev pub retired : Mnet W → Chann → Mnet W
  retired t d =
      record (set_heap t n
        (some (record d { del_next = t.del_channs; state = ChannState.closed; opaque = null }))) {
          del_channs = n;
        }

  close_socket_lem :
      (t : Mnet W) (d : Chann)
      → ltb 0 (rank d.state) ≡ true
      → (t.ext_config d.ctype).close_cb ≡ some Fn.ext_op_cb
      → chann_close_socket n (set_heap t n (some d)) ≡ some (tt, retired t d)
  unfolding chann_close_socket call_op
  close_socket_lem t d active builtin =
      rw (heap-set_self t n (some d), active, builtin, ◌>>=◌, ◌>>◌)
        (ap (elim [ none ↦ none | some (_, u) ↦ some (tt, record u { del_channs = n }) ])
          (modify-set t n d
            (λ c. record c { del_next = t.del_channs; state = ChannState.closed; opaque = null })))

  -- `mnet_chann_close` of a live channel of a built-in type with no cached data returns; the
  -- descriptor is closed, and the channel is CLOSED, without its user data, and first on the list of
  -- those that the next poll destroys.
  pub close-retires :
      (s : Mnet W) (c : Chann)
      → (n == null) ≡ false
      → IsLive n s c
      → (s.ext_config c.ctype).close_cb ≡ some Fn.ext_op_cb
      → contents c.rwb_send ≡ []
      → mnet_chann_close n s
        ≡ some (
          tt,
          retired
              (record s { world = (env.call (SysCall.close c.fd) s.world).1 })
              (record c {
                rwb_send = Rwb.empty;
                fd = negsuc 0;
                state = ChannState.disconnect;
                epoll_events = no_events;
              }),
        )
  unfolding mnet_chann_close
  close-retires s c there v builtin sent_all =
      let active : ltb (rank ChannState.closed) (rank c.state) ≡ true = ground (arith, v.active) in
      rw (there, v.there, active, disconnect_closes n s c v sent_all, ◌>>=◌, ◌>>◌)
        (close_socket_lem _ _ (ground arith) builtin)
