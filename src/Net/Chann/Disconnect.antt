-- ===== src/Net/Chann/Disconnect.antt =====
-- `_chann_disconnect_socket` on a channel of a built-in type: what it does when its queue is empty,
-- and that it hangs when it is not.
use m_net.Base.{ℕ, refl, ◌≡◌, ◌≢◌, ap, true, none, some, [], ltb}
use m_net.Base.Int.{pos, negsuc, ltb_ℤ}
use m_net.Skiplist.{Ptr}
use m_net.Rwb
use m_net.Rwb.{RwbHead, Rounds, destroy_loop}
use m_net.Rwb.Contents.{contents, IsQueue}
use m_net.Rwb.Destroy.{destroy_ends_iff, destroy-none, destroy_loop_runs}
use m_net.Net.State.{Mnet, Chann, ChannState, Fn, no_events, rank, ◌>>=◌, ◌>>◌, set_heap}
use m_net.Net.State.Heap.{modify-set, heap-set_self}
use m_net.Net.Env.{Env, SysCall}
use m_net.Net.Ext.{call_op}
use m_net.Net.Chann.{destroy_queue, chann_disconnect_socket}

module _ {W : Type 0} ⦃env : Env W⦄ (n : Ptr) (s : Mnet W) (c : Chann) where
  -- The channel at `n` has an open socket, a well-formed queue, and no callback of a user.
  pub record IsLive : Type 0 where
    pub there : s.heap n ≡ some c
    pub opened : ltb_ℤ (pos 0) c.fd ≡ true
    pub active : ltb (rank ChannState.disconnect) (rank c.state) ≡ true
    pub builtin : (s.ext_config c.ctype).disconnect_cb ≡ some Fn.ext_op_cb
    pub queue : IsQueue c.rwb_send

  -- The state after the socket of `c` is closed.
  abbrev pub disconnected : Mnet W
  disconnected =
      set_heap (record s { world = (env.call (SysCall.close c.fd) s.world).1 }) n
        (some (record c {
          rwb_send = Rwb.empty;
          fd = negsuc 0;
          state = ChannState.disconnect;
          epoll_events = no_events;
        }))

  -- On a live channel of a built-in type with no cached data `_chann_disconnect_socket` closes the
  -- descriptor and leaves the channel disconnected, with no descriptor, no interest and an empty
  -- queue; nothing else in the library changes.
  pub disconnect_closes :
      IsLive → contents c.rwb_send ≡ [] → chann_disconnect_socket n s ≡ some (true, disconnected)
  unfolding chann_disconnect_socket call_op destroy_queue
  disconnect_closes v sent_all =
      rw
        (
          v.there,
          v.opened,
          v.active,
          v.builtin,
          v.there,
          v.there,
          (destroy_ends_iff c.rwb_send v.queue).1 sent_all,
          v.there,
          ◌>>=◌,
          ◌>>◌,
        )
        (ap (elim [ none ↦ none | some (_, t) ↦ some (true, t) ])
          (modify-set (record s { world = (env.call (SysCall.close c.fd) s.world).1 }) n
            (record c { rwb_send = Rwb.empty })
            (λ d. record d {
              fd = negsuc 0;
              state = ChannState.disconnect;
              epoll_events = no_events;
            })))

module _ {W : Type 0} ⦃env : Env W⦄ (n : Ptr) (s : Mnet W) (c : Chann) where
  -- The same channel with an empty queue.
  abbrev pub emptied : Chann
  emptied = record c { rwb_send = Rwb.empty }

  abbrev pub with_emptied : Mnet W
  with_emptied = set_heap s n (some emptied)

  emptied-IsLive : IsLive n s c → IsLive n with_emptied emptied
  emptied-IsLive v = record {
    there = heap-set_self s n (some emptied);
    opened = v.opened;
    active = v.active;
    builtin = v.builtin;
    queue = record { counted = refl; all_pending = tt };
  }

  pub disconnect-none : IsLive n s c → contents c.rwb_send ≢ [] → chann_disconnect_socket n s ≡ none
  unfolding chann_disconnect_socket call_op destroy_queue
  disconnect-none v pending = rw (
    v.there,
    v.opened,
    v.active,
    v.builtin,
    v.there,
    v.there,
    destroy-none c.rwb_send v.queue pending,
    ◌>>=◌,
    ◌>>◌,
  )

  -- A live channel of a built-in type with cached data cannot be disconnected:
  -- `_chann_disconnect_socket` has no result, because after any number of rounds the loop of
  -- `_rwb_destroy` on its queue still runs, without a fault and with the queue as it was. It is
  -- the cached data alone: with an empty queue the call on the same channel returns.
  pub disconnect_hangs :
      IsLive n s c
      → contents c.rwb_send ≢ []
      → (chann_disconnect_socket n s ≡ none)
        × ((fuel : ℕ) → destroy_loop fuel c.rwb_send ≡ Rounds.running c.rwb_send)
        × (chann_disconnect_socket n with_emptied
            ≡ some (true, disconnected n with_emptied emptied))
  disconnect_hangs v pending = (
    disconnect-none v pending,
    λ fuel. destroy_loop_runs c.rwb_send v.queue pending fuel,
    disconnect_closes n with_emptied emptied (emptied-IsLive v) refl,
  )
