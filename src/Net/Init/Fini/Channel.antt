-- ===== src/Net/Init/Fini/Channel.antt =====
-- One channel in `mnet_fini` of src/mnet_core.c: it is disconnected and closed.
use mathlib.Core.Path.{fun_ext}
use m_net.Base.{
  ℕ, ◌≡◌, refl, sym, ap, subst, ◌∙◌, ◌&&◌, inl, inr, Bool, Bool-cases, true, false, Option, none,
  some, List, [], arith, ltb, ◌==◌, some-none,
}
use m_net.Base.Int.{pos, negsuc, ltb_ℤ}
use m_net.Skiplist.{Ptr, null}
use m_net.Skiplist.Entries.{Entry, In, addrs}
use m_net.Rwb
use m_net.Rwb.Contents.{contents, IsQueue}
use m_net.Net.State.{
  Mnet, Chann, ChannState, ChannTm, ExtConfig, Fn, rank, no_events, ◌>>=◌, ◌>>◌, set_heap, modify,
}
use m_net.Net.State.Heap.{heap-set_self, heap-set_ne, set_heap_twice}
use m_net.Net.Env.{Env}
use m_net.Net.Ext.{call_op}
use m_net.Net.Chann.{chann_disconnect_socket, chann_close_socket}
use m_net.Net.Chann.Channels.{Linked, IsList, same_links-IsList}
use m_net.Net.Chann.Disconnect.{IsLive, disconnected, disconnect_closes}
use m_net.Net.Poll.Delete.DelList.{IsClosed}

rank_closed :
    (st : ChannState) → ltb (rank ChannState.closed) (rank st) ≡ false → st ≡ ChannState.closed
rank_closed ChannState.closed h = refl
rank_closed ChannState.disconnect h = absurd (ground (arith, h))
rank_closed ChannState.connecting h = absurd (ground (arith, h))
rank_closed ChannState.connected h = absurd (ground (arith, h))
rank_closed ChannState.listening h = absurd (ground (arith, h))

-- A channel of a built-in type with nothing cached, in any state, with no timer or one of the clock.
pub record IsReady (ext : ℕ → ExtConfig) (c : Chann) (es : List (Entry ChannTm)) : Type 0 where
  pub disconnect_cb : (ext c.ctype).disconnect_cb ≡ some Fn.ext_op_cb
  pub close_cb : (ext c.ctype).close_cb ≡ some Fn.ext_op_cb
  pub queue : IsQueue c.rwb_send
  pub sent : contents c.rwb_send ≡ []
  pub timed : (c.timer_node == null) ≡ false → In c.timer_node (addrs es)

module _ {W : Type 0} where
  -- `t` is `s` with the channel `d` at `n`, but for the world and the list of closed channels.
  pub record IsPut (s t : Mnet W) (n : Ptr) (d : Chann) : Type 0 where
    pub heap : t.heap ≡ (set_heap s n (some d)).heap
    pub channs : t.channs ≡ s.channs
    pub count : t.chann_count ≡ s.chann_count
    pub clock : t.tm_clock ≡ s.tm_clock
    pub ext : t.ext_config ≡ s.ext_config

  heap_same :
      (s : Mnet W) (n : Ptr) (c : Chann) → s.heap n ≡ some c → s.heap ≡ (set_heap s n (some c)).heap
  heap_same s n c there = fun_ext λ q. elim (Bool-cases (q == n)) [
    | inl hit ↦
        let e : q ≡ n = ground (arith, hit) in
        ap s.heap e ∙ there ∙ sym (ap (set_heap s n (some c)).heap e ∙ heap-set_self s n (some c))
    | inr miss ↦ sym (heap-set_ne s n q (some c) (ground (arith, miss)))
  ]

  IsPut-same : (s : Mnet W) (n : Ptr) (c : Chann) → s.heap n ≡ some c → IsPut s s n c
  IsPut-same s n c there = record {
    heap = heap_same s n c there;
    channs = refl;
    count = refl;
    clock = refl;
    ext = refl;
  }

  pub IsPut-trans :
      (s t u : Mnet W) (n : Ptr) (d e : Chann) → IsPut s t n d → IsPut t u n e → IsPut s u n e
  IsPut-trans s t u n d e p p' = record {
    heap =
        p'.heap
        ∙ ap (λ (h : Ptr → Option Chann). (set_heap (record s { heap = h }) n (some e)).heap) p.heap
        ∙ ap Mnet.heap (set_heap_twice s n (some d) (some e));
    channs = p'.channs ∙ p.channs;
    count = p'.count ∙ p.count;
    clock = p'.clock ∙ p.clock;
    ext = p'.ext ∙ p.ext;
  }

module _ {W : Type 0} where
  pub IsPut-empty :
      (s t : Mnet W) (n q : Ptr) (c d : Chann)
      → IsPut s t n d
      → s.heap n ≡ some c
      → s.heap q ≡ none
      → t.heap q ≡ none
  IsPut-empty s t n q c d put there free = elim (Bool-cases (q == n)) [
    | inl hit ↦
        let e : q ≡ n = ground (arith, hit) in
        absurd (some-none (sym there ∙ ap s.heap (sym e) ∙ free))
    | inr miss ↦ ap (λ h. h q) put.heap ∙ heap-set_ne s n q (some d) (ground (arith, miss)) ∙ free
  ]

  pub IsPut-IsList :
      (s t : Mnet W) (n : Ptr) (c d : Chann) (xs : List Ptr)
      → IsPut s t n d
      → s.heap n ≡ some c
      → d.prev ≡ c.prev
      → d.next ≡ c.next
      → IsList s xs
      → IsList t xs
  IsPut-IsList s t n c d xs put there same_prev same_next h =
      let m = same_links-IsList s n c d xs there same_prev same_next h in
      record {
        linked =
            subst (λ hh. Linked hh null t.channs xs) (sym put.heap)
              (subst (λ k. Linked (set_heap s n (some d)).heap null k xs) (sym put.channs)
                m.linked);
        apart = h.apart;
        counted = put.count ∙ h.counted;
      }

module _ {W : Type 0} ⦃env : Env W⦄ (n : Ptr) (es : List (Entry ChannTm)) where
  pub cut_lem :
      (s : Mnet W) (c : Chann)
      → s.heap n ≡ some c
      → IsReady s.ext_config c es
      → (b : Bool) × (t : Mnet W) × (d : Chann) × (chann_disconnect_socket n s ≡ some (b, t))
        × IsPut s t n d
        × IsReady t.ext_config d es
        × ((d.prev ≡ c.prev) × (d.next ≡ c.next) × (d.timer_node ≡ c.timer_node))
  unfolding chann_disconnect_socket
  cut_lem s c there r =
      elim (Bool-cases (ltb_ℤ (pos 0) c.fd && ltb (rank ChannState.disconnect) (rank c.state))) [
        | inl live ↦
            let v : IsLive n s c = record {
              there = there;
              opened = ground (arith, live);
              active = ground (arith, live);
              builtin = r.disconnect_cb;
              queue = r.queue;
            } in
            let d : Chann = record c {
              rwb_send = Rwb.empty;
              fd = negsuc 0;
              state = ChannState.disconnect;
              epoll_events = no_events;
            } in
            (
              true,
              disconnected n s c,
              d,
              disconnect_closes n s c v r.sent,
              record { heap = refl; channs = refl; count = refl; clock = refl; ext = refl },
              record {
                disconnect_cb = r.disconnect_cb;
                close_cb = r.close_cb;
                queue = record { counted = refl; all_pending = tt };
                sent = refl;
                timed = r.timed;
              },
              (refl, refl, refl),
            )
        | inr idle ↦ (
          false,
          s,
          c,
          rw (there, idle, ◌>>=◌) refl,
          IsPut-same s n c there,
          r,
          (refl, refl, refl),
        )
      ]

  pub shut_lem :
      (s : Mnet W) (c : Chann)
      → s.heap n ≡ some c
      → IsReady s.ext_config c es
      → (t : Mnet W) × (d : Chann) × (chann_close_socket n s ≡ some (tt, t))
        × IsPut s t n d
        × IsClosed d es
        × ((d.prev ≡ c.prev) × (d.next ≡ c.next) × (d.timer_node ≡ c.timer_node))
  unfolding chann_close_socket call_op
  shut_lem s c there r = elim (Bool-cases (ltb (rank ChannState.closed) (rank c.state))) [
    | inl active ↦
        let d : Chann = record c {
          del_next = s.del_channs;
          state = ChannState.closed;
          opaque = null;
        } in
        (
          record (set_heap s n (some d)) { del_channs = n },
          d,
          rw (there, active, r.close_cb, modify, there, ◌>>=◌, ◌>>◌) refl,
          record { heap = refl; channs = refl; count = refl; clock = refl; ext = refl },
          record { closed = refl; queue = r.queue; sent = r.sent; timed = r.timed },
          (refl, refl, refl),
        )
    | inr closed ↦ (
      s,
      c,
      rw (there, closed, ◌>>=◌) refl,
      IsPut-same s n c there,
      record {
        closed = rank_closed c.state closed;
        queue = r.queue;
        sent = r.sent;
        timed = r.timed;
      },
      (refl, refl, refl),
    )
  ]
