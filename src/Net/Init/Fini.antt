-- ===== src/Net/Init/Fini.antt =====
-- `mnet_fini` of src/mnet_core.c: every channel is disconnected, closed and destroyed.
pub mod Channel
pub mod AllChanns
use mathlib.Core.Path.{fun_ext}
use m_net.Base.{
  ℕ, zero, suc, ◌+◌, ◌<◌, ◌≡◌, ◌≢◌, refl, sym, ap, subst, ◌∙◌, ◌&&◌, ◌||◌, inl, inr, Bool,
  Bool-cases, true, false, Option, none, some, List, [], ◌∷◌, All, arith, ltb, ◌==◌, ==_ne,
  if◌then◌else◌, length, some_inj, some-none,
}
use m_net.Base.Int.{ℤ, pos, negsuc, ltb_ℤ}
use m_net.Skiplist.{Ptr, null, Skiplist}
use m_net.Skiplist.Ring.{Out, Distinct}
use m_net.Skiplist.Entries.{Entry, IsSkiplist, In, addrs, erase}
use m_net.Skiplist.Destroy.{destroy-IsEmptied}
use m_net.Rwb
use m_net.Rwb.Contents.{contents, IsQueue}
use m_net.Net.State.{
  Mnet, Chann, ChannState, ChannTm, ExtConfig, Fn, rank, no_events, ◌>>=◌, ◌>>◌, set_heap, modify,
  update, pure,
}
use m_net.Net.State.Heap.{heap-set_self, heap-set_ne, set_heap_twice}
use m_net.Net.Env.{Env, SysCall}
use m_net.Net.Ext.{call_op}
use m_net.Net.Chann.{chann_disconnect_socket, chann_close_socket, chann_destroy}
use m_net.Net.Chann.Channels.{Linked, IsList, same_links-IsList}
use m_net.Net.Chann.Disconnect.{IsLive, disconnected, disconnect_closes}
use m_net.Net.Chann.Unlink.{Out-null}
use m_net.Net.Chann.Destroy.{IsWithout, destroy-IsWithout}
use m_net.Net.Poll.Delete.DelList.{IsClosed, without_timer, kill-IsSkiplist}
use m_net.Net.Init.{fini_loop, mnet_fini, evt_fini, clock_destroy, zeroed}
use m_net.Net.Init.Fini.Channel.{
  IsReady, IsPut, IsPut-trans, IsPut-empty, IsPut-IsList, cut_lem, shut_lem,
}
use m_net.Net.Init.Fini.AllChanns.{
  Listed, listed, length-listed, Ready, Kept, Ready-Kept, first_Linked,
}

module _ {W : Type 0} ⦃env : Env W⦄ where
  -- The library `t` after the first channel of the list is ended.
  record IsEnded (s t : Mnet W) (x : Listed) (ys : List Ptr) (es : List (Entry ChannTm))
      : Type 0 where
    list : IsList t ys
    clock : IsSkiplist t.tm_clock (without_timer x.chann es)
    freed : t.heap x.at ≡ none
    kept : Kept x.at s.heap t.heap
    empty : (q : Ptr) → s.heap q ≡ none → t.heap q ≡ none
    ext : t.ext_config ≡ s.ext_config

  -- The three calls on a channel.
  record Runs (s t : Mnet W) (n : Ptr) : Type 0 where
    open_socket : Bool
    cut : Mnet W
    shut : Mnet W
    disconnects : chann_disconnect_socket n s ≡ some (open_socket, cut)
    closes : chann_close_socket n cut ≡ some (tt, shut)
    destroys : chann_destroy n shut ≡ some (tt, t)

  ended_lem :
      (s : Mnet W) (x : Listed) (p p' : Ptr) (ys : List Ptr) (es : List (Entry ChannTm))
      → IsList s (x.at ∷ ys)
      → IsSkiplist s.tm_clock es
      → s.heap x.at ≡ some (record x.chann { prev = p; next = p' })
      → IsReady s.ext_config x.chann es
      → (t : Mnet W) × Runs s t x.at × IsEnded s t x ys es
  ended_lem s x p p' ys es h l there r =
      let n = x.at in
      let c : Chann = record x.chann { prev = p; next = p' } in
      let rc : IsReady s.ext_config c es = record {
        disconnect_cb = r.disconnect_cb;
        close_cb = r.close_cb;
        queue = r.queue;
        sent = r.sent;
        timed = r.timed;
      } in
      let (b, t1, d1, ran1, put1, r1, links1) = cut_lem n es s c there rc in
      let here1 : t1.heap n ≡ some d1 = ap (λ h. h n) put1.heap ∙ heap-set_self s n (some d1) in
      let (t2, d2, ran2, put2, r2, links2) = shut_lem n es t1 d1 here1 r1 in
      let put = IsPut-trans s t1 t2 n d1 d2 put1 put2 in
      let here2 : t2.heap n ≡ some d2 = ap (λ h. h n) put.heap ∙ heap-set_self s n (some d2) in
      let (l', kills, well) =
        kill-IsSkiplist d2 t2.tm_clock es r2 (subst (λ k. IsSkiplist k es) (sym put.clock) l) in
      let list2 : IsList t2 (n ∷ ys) =
        IsPut-IsList s t2 n c d2 (n ∷ ys) put there (links2.0 ∙ links1.0) (links2.1 ∙ links1.1) h in
      let (t, ran, w) =
        destroy-IsWithout t2 n d2 [] ys l' list2 here2 r2.closed r2.queue r2.sent kills in
      (
        t,
        record {
          open_socket = b;
          cut = t1;
          shut = t2;
          disconnects = ran1;
          closes = ran2;
          destroys = ran;
        },
        record {
          list = w.list;
          clock =
              subst (λ k. IsSkiplist k (without_timer x.chann es)) (sym w.clock)
                (subst (λ a. IsSkiplist l' (if a == null then es else erase a es))
                  (links2.2 ∙ links1.2) well);
          freed = w.freed;
          kept = λ q d ne some_q at_q.
              w.others q d ne some_q
                (ap (λ h. h q) put.heap ∙ heap-set_ne s n q (some d2) ne ∙ at_q);
          empty = λ q free. w.empty q (IsPut-empty s t2 n q c d2 put there free);
          ext = w.ext ∙ put.ext;
        },
      )

  loop_step :
      (fuel : ℕ) (s t : Mnet W) (n : Ptr) (c : Chann)
      → n ≢ null
      → s.heap n ≡ some c
      → Runs s t n
      → fini_loop (suc fuel) n s ≡ fini_loop fuel c.next t
  unfolding fini_loop
  loop_step fuel s t n c some_at there r =
      rw (==_ne n null some_at, there, r.disconnects, r.closes, r.destroys, ◌>>=◌, ◌>>◌) refl

  -- The channels are gone, what was free is free, and the clock is well formed.
  record IsOver (s t : Mnet W) (xs : List Listed) : Type 0 where
    freed : All (λ x. t.heap x.at ≡ none) xs
    empty : (q : Ptr) → s.heap q ≡ none → t.heap q ≡ none
    timers : List (Entry ChannTm)
    clock : IsSkiplist t.tm_clock timers

  loop_lem :
      (fuel : ℕ) (xs : List Listed) (es : List (Entry ChannTm)) (s : Mnet W)
      → length xs < fuel
      → IsList s (listed xs)
      → IsSkiplist s.tm_clock es
      → Ready s.heap s.ext_config xs es
      → (t : Mnet W) × (fini_loop fuel s.channs s ≡ some (tt, t)) × IsOver s t xs
  unfolding fini_loop
  loop_lem zero xs es s enough h l r = absurd (omega arith)
  loop_lem (suc fuel) [] es s enough h l r =
      let at_null : (s.channs == null) ≡ true = ap (λ (p : Ptr). p == null) h.linked in
      (s, rw at_null refl, record { freed = tt; empty = λ q free. free; timers = es; clock = l })
  loop_lem (suc fuel) (x ∷ xs) es s enough h l ((p, p', there), ready, rest) =
      let (e, some_at, (k, at_x, back, onward)) = h.linked in
      let ys = listed xs in
      let (t, ran, w) = ended_lem s x p p' ys es h l there ready in
      let same : record x.chann { prev = p; next = p' } ≡ k = some_inj (sym there ∙ at_x) in
      let next_is : p' ≡ t.channs =
        ap Chann.next same
        ∙ first_Linked s.heap x.at k.next ys onward
        ∙ sym (first_Linked t.heap null t.channs ys w.list.linked) in
      let rest' =
        subst (λ f. Ready t.heap f xs (without_timer x.chann es)) (sym w.ext)
          (Ready-Kept x.at s.heap t.heap s.ext_config xs (without_timer x.chann es) w.kept h.apart.0
            (Out-null s.heap x.at k.next ys onward) rest) in
      let (u, ran', over) =
        loop_lem fuel xs (without_timer x.chann es) t (omega arith) w.list w.clock rest' in
      (
        u,
        ap (λ q. fini_loop (suc fuel) q s) e
            ∙ loop_step fuel s t x.at (record x.chann { prev = p; next = p' }) some_at there ran
            ∙ ap (λ q. fini_loop fuel q t) next_is
            ∙ ran',
        record {
          freed = (over.empty x.at w.freed, over.freed);
          empty = λ q free. over.empty q (w.empty q free);
          timers = over.timers;
          clock = over.clock;
        },
      )

  evt_fini_lem :
      (t : Mnet W)
      → (u : Mnet W) × (evt_fini t ≡ some (tt, u)) × (u.heap ≡ t.heap) × (u.tm_clock ≡ t.tm_clock)
  unfolding evt_fini
  evt_fini_lem t = elim (Bool-cases (ltb_ℤ t.kq (pos 0) || ltb_ℤ (pos 0) t.kq)) [
    | inl opened ↦ (
      record t {
        world = (env.call (SysCall.close t.kq) t.world).1;
        kq = pos 0;
        chg_size = 0;
        chg_count = 0;
        evt = [];
        evt_size = 0;
      },
      rw (opened, ◌>>=◌) refl,
      refl,
      refl,
    )
    | inr shut ↦ (t, rw (shut, ◌>>=◌) refl, refl, refl)
  ]

  clock_destroy_lem :
      (u : Mnet W) (es : List (Entry ChannTm))
      → IsSkiplist u.tm_clock es
      → (v : Mnet W) × (clock_destroy u ≡ some (tt, v)) × (v.heap ≡ u.heap)
  unfolding clock_destroy
  clock_destroy_lem u es h =
      let (l, ran, w) = destroy-IsEmptied u.tm_clock es h in
      (record u { tm_clock = l }, rw (clock_destroy, ran) refl, refl)

  fini_runs :
      (s t u v : Mnet W)
      → s.init ≡ true
      → fini_loop (s.chann_count + 1) s.channs s ≡ some (tt, t)
      → evt_fini t ≡ some (tt, u)
      → clock_destroy u ≡ some (tt, v)
      → mnet_fini s ≡ some (tt, zeroed v)
  unfolding mnet_fini
  fini_runs s t u v used ran ends destroyed =
      ap
        (λ b.
          (if b
              then (do
                fini_loop (s.chann_count + 1) s.channs
                evt_fini
                clock_destroy
                update zeroed)
              else pure tt)
            s)
        used
      ∙ rw (ran, ends, destroyed, ◌>>=◌, ◌>>◌) refl

  -- `mnet_fini` of a library that is in use, with well-formed list of all channels and clock, when
  -- every channel is of a built-in type, in any state, with nothing cached, and with no timer or
  -- one of the clock: it ends without a fault, the walk of `skiplist_destroy` over the timers that are
  -- left included, the memory of every channel is free then, and the global state is that after
  -- `memset`.
  pub fini-Frees :
      (s : Mnet W) (xs : List Listed) (es : List (Entry ChannTm))
      → s.init ≡ true
      → IsList s (listed xs)
      → IsSkiplist s.tm_clock es
      → Ready s.heap s.ext_config xs es
      → (t : Mnet W) × (mnet_fini s ≡ some (tt, zeroed t)) × All (λ x. t.heap x.at ≡ none) xs
  fini-Frees s xs es used h l r =
      let (t, ran, over) =
        loop_lem (s.chann_count + 1) xs es s (omega (arith, h.counted, length-listed xs)) h l r in
      let (u, ends, same, clocks) = evt_fini_lem t in
      let (v, destroyed, heaps) =
        clock_destroy_lem u over.timers
          (subst (λ k. IsSkiplist k over.timers) (sym clocks) over.clock) in
      (
        v,
        fini_runs s t u v used ran ends destroyed,
        subst (λ f. All (λ x. f x.at ≡ none) xs) (sym (heaps ∙ same)) over.freed,
      )
