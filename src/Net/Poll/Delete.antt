-- ===== src/Net/Poll/Delete.antt =====
-- `_evt_del_channs` of src/mnet_core.c: the closed channels leave the list of all channels, and their
-- timers the clock.
pub mod DelList
use m_net.Base.{
  ℕ, zero, suc, ◌+◌, ◌<◌, ◌≤◌, ◌≡◌, ◌≢◌, refl, sym, ap, subst, ◌∙◌, ◌⊎◌, inl, inr, Bool-cases,
  Option, none, some, List, [], ◌∷◌, ◌++◌, All, arith, ◌==◌, if◌then◌else◌, length, true, false,
  ==_ne,
}
use m_net.Skiplist.{Ptr, null, Skiplist}
use m_net.Skiplist
use m_net.Skiplist.Ring.{Out, Distinct}
use m_net.Skiplist.Entries.{Entry, IsSkiplist, In, addrs, erase}
use m_net.Skiplist.Remove.{remove-erase}
use m_net.Rwb.Contents.{contents, IsQueue}
use m_net.Net.State.{Mnet, Chann, ChannState, ChannTm, ◌>>=◌, ◌>>◌, update}
use m_net.Net.Env.{Env}
use m_net.Net.Chann.{chann_destroy}
use m_net.Net.Chann.Channels.{IsList}
use m_net.Net.Chann.Destroy.{IsWithout, destroy-IsWithout}
use m_net.Net.Chann.Destroy.Writes.{killed}
use m_net.Base.Int.{negsuc}
use m_net.Rwb
use m_net.Skiplist.Entries.{addrs, In}
use m_net.Rwb.Contents.{contents}
use m_net.Net.State.{Fn, no_events, set_heap, ChannState}
use m_net.Net.State.Heap.{heap-set_self}
use m_net.Net.Env.{SysCall}
use m_net.Net.Chann.Channels.{same_links-IsList}
use m_net.Net.Chann.Disconnect.{IsLive}
use m_net.Net.Api.{mnet_chann_close}
use m_net.Net.Api.Close.{close-retires}
use m_net.Net.Poll.{del_loop, evt_del_channs}
use m_net.Net.Poll.Delete.DelList.{
  without, Closed, channs_left, without_timer, timers_left, IsClosed, Retired, In-split,
  without-Out, length-Retired, Retired-kept, kill-IsSkiplist,
}

module _ {W : Type 0} ⦃env : Env W⦄ where
  -- The library `t` after the closed channels `ds` are destroyed.
  pub record IsDeleted (s t : Mnet W) (ds : List Closed) (xs : List Ptr) (es : List (Entry ChannTm))
      : Type 0 where
    pub list : IsList t (channs_left ds xs)
    pub clock : IsSkiplist t.tm_clock (timers_left ds es)
    pub freed : All (λ d. t.heap d.at ≡ none) ds
    pub empty : (q : Ptr) → s.heap q ≡ none → t.heap q ≡ none

  step_lem :
      (fuel : ℕ) (s t : Mnet W) (n : Ptr) (c : Chann)
      → n ≢ null
      → s.heap n ≡ some c
      → chann_destroy n s ≡ some (tt, t)
      → del_loop (suc fuel) n s ≡ del_loop fuel c.del_next t
  unfolding del_loop
  step_lem fuel s t n c some_at there ran = rw (==_ne n null some_at, there, ran, ◌>>=◌, ◌>>◌) refl

  loop_lem :
      (fuel : ℕ) (ds : List Closed) (xs : List Ptr) (es : List (Entry ChannTm)) (s : Mnet W)
      (cur : Ptr)
      → length ds < fuel
      → IsList s xs
      → IsSkiplist s.tm_clock es
      → Retired s.heap cur ds xs es
      → (t : Mnet W) × (del_loop fuel cur s ≡ some (tt, t)) × IsDeleted s t ds xs es
  unfolding del_loop
  loop_lem zero ds xs es s cur enough h l r = absurd (omega arith)
  loop_lem (suc fuel) [] xs es s cur enough h l r =
      let at_null : (cur == null) ≡ true = ap (λ (p : Ptr). p == null) r in
      (s, rw at_null refl, record { list = h; clock = l; freed = tt; empty = λ q free. free })
  loop_lem (suc fuel) (d ∷ ds) xs es s cur enough h l (e, some_at, m, (p, p', there), v, rest) =
      let c : Chann = record d.chann { prev = p; next = p' } in
      let (as', bs, split, gone) = In-split d.at xs m in
      let (l', kills, well) = kill-IsSkiplist d.chann s.tm_clock es v l in
      let (t, ran, w) =
        destroy-IsWithout s d.at c as' bs l' (subst (IsList s) split h) there v.closed v.queue
          v.sent kills in
      let rest' =
        Retired-kept s.heap t.heap d.at d.chann.del_next ds (without d.at xs)
          (without_timer d.chann es) w.others (without-Out d.at xs h.apart) rest in
      let (u, ran', done) =
        loop_lem fuel ds (without d.at xs) (without_timer d.chann es) t d.chann.del_next
          (omega arith) (subst (IsList t) (sym gone) w.list)
          (subst (λ k. IsSkiplist k (without_timer d.chann es)) (sym w.clock) well) rest' in
      (
        u,
        ap (λ k. del_loop (suc fuel) k s) e ∙ step_lem fuel s t d.at c some_at there ran ∙ ran',
        record {
          list = done.list;
          clock = done.clock;
          freed = (done.empty d.at w.freed, done.freed);
          empty = λ q free. done.empty q (w.empty q free);
        },
      )

  -- `_evt_del_channs`, when the list of all channels and the clock are well formed and every channel
  -- of the list of closed ones is CLOSED, on the list of all, with nothing cached, and with no timer
  -- or one of the clock: it ends without a fault, the closed channels are freed and gone from the
  -- list of all, their timers are gone from the clock, both are well formed then, and the list of
  -- closed channels is empty.
  pub del_channs-IsDeleted :
      (s : Mnet W) (ds : List Closed) (xs : List Ptr) (es : List (Entry ChannTm))
      → IsList s xs
      → IsSkiplist s.tm_clock es
      → Retired s.heap s.del_channs ds xs es
      → (t : Mnet W) × (evt_del_channs s ≡ some (tt, t))
        × IsDeleted s t ds xs es
        × (t.del_channs ≡ null)
  unfolding evt_del_channs
  del_channs-IsDeleted s ds xs es h l r =
      let enough : length ds < s.chann_count + 1 =
        omega (arith, h.counted, length-Retired s.heap s.del_channs ds xs es r) in
      let (t, ran, done) = loop_lem (s.chann_count + 1) ds xs es s s.del_channs enough h l r in
      (
        record t { del_channs = null },
        rw (ran, ◌>>=◌, ◌>>◌) refl,
        record {
          list = record {
            linked = done.list.linked;
            apart = done.list.apart;
            counted = done.list.counted;
          };
          clock = done.clock;
          freed = done.freed;
          empty = done.empty;
        },
        refl,
      )

module _ {W : Type 0} ⦃env : Env W⦄ (n : Ptr) (s : Mnet W) (c : Chann) (xs : List Ptr)
    (es : List (Entry ChannTm)) where
  -- The channel once it is closed and waits for the next poll.
  abbrev waiting : Chann
  waiting = record c {
    rwb_send = Rwb.empty;
    fd = negsuc 0;
    state = ChannState.closed;
    epoll_events = no_events;
    del_next = s.del_channs;
    opaque = null;
  }

  -- A live channel of a built-in type with nothing cached is closed, when no other waits to be
  -- destroyed: the next poll begins with freeing it, and then it is gone from the list of all
  -- channels, its timer is gone from the clock, and both are well formed if they were. Conditions:
  -- the channel is on the list, and has no timer or one of the clock.
  pub close-IsDeleted :
      IsList s xs
      → IsSkiplist s.tm_clock es
      → In n xs
      → n ≢ null
      → IsLive n s c
      → (s.ext_config c.ctype).close_cb ≡ some Fn.ext_op_cb
      → contents c.rwb_send ≡ []
      → ((c.timer_node == null) ≡ false → In c.timer_node (addrs es))
      → s.del_channs ≡ null
      → (t : Mnet W) × ((do mnet_chann_close n; evt_del_channs) s ≡ some (tt, t))
        × IsList t (without n xs)
        × IsSkiplist t.tm_clock (without_timer c es)
        × (t.heap n ≡ none)
  close-IsDeleted h l m some_at v builtin sent_all timed alone =
      let s1 : Mnet W = record s { world = (env.call (SysCall.close c.fd) s.world).1 } in
      let here = heap-set_self s1 n (some waiting) in
      let u : Mnet W = record (set_heap s1 n (some waiting)) { del_channs = n } in
      let list =
        same_links-IsList s1 n c waiting xs v.there refl refl
          (record { linked = h.linked; apart = h.apart; counted = h.counted }) in
      let (t, ran, done, empty) =
        del_channs-IsDeleted u (record { at = n; chann = waiting } ∷ []) xs es
          (record { linked = list.linked; apart = list.apart; counted = list.counted }) l
          (
            refl,
            some_at,
            m,
            (c.prev, c.next, here),
            record {
              closed = refl;
              queue = record { counted = refl; all_pending = tt };
              sent = refl;
              timed = timed;
            },
            alone,
          ) in
      (
        t,
        rw (close-retires n s c (==_ne n null some_at) v builtin sent_all, ran, ◌>>=◌, ◌>>◌) refl,
        done.list,
        done.clock,
        done.freed.0,
      )
