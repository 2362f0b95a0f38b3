-- ===== src/Net/Chann/Destroy/Writes.antt =====
-- The writes of `_chann_destroy`: to the neighbours of the channel, and what comes behind them.
use m_net.Base.{
  some-none, some_inj, ◌-◌, ◌≡◌, ◌≢◌, refl, sym, ap, ◌∙◌, ◌⊎◌, inl, inr, Bool-cases, Option, none,
  some, [], arith, ◌==◌, if◌then◌else◌,
}
use m_net.Skiplist.{Ptr, null, Skiplist}
use m_net.Skiplist
use m_net.Rwb
use m_net.Rwb.Contents.{contents, IsQueue}
use m_net.Rwb.Destroy.{destroy_ends_iff}
use m_net.Net.State.{Mnet, Chann, ChannTm, ◌>>=◌, ◌>>◌, update, modify, set_heap}
use m_net.Net.State.Heap.{heap-set_self, heap-set_ne, set_heap_twice, modify-set}
use m_net.Net.Env.{Env}
use m_net.Net.Timer.{clock_remove, tm_kill}
use m_net.Net.Chann.{modify_if, destroy_queue}
use m_net.Net.Chann.Unlink.{Leads}

-- The clock without the timer of a channel, if it has one.
abbrev pub killed : Chann → Skiplist ChannTm → Option (Skiplist ChannTm)
killed c l = if c.timer_node == null then some l else Skiplist.remove_skipnode l c.timer_node

module _ {W : Type 0} ⦃env : Env W⦄ where
  -- `t` is `s` after a write at `p`, if there is a channel.
  pub record IsWritten (s t : Mnet W) (p : Ptr) (f : Chann → Chann) : Type 0 where
    pub other : (q : Ptr) → q ≢ p → t.heap q ≡ s.heap q
    pub written : (d : Chann) → p ≢ null → s.heap p ≡ some d → t.heap p ≡ some (f d)
    pub count : t.chann_count ≡ s.chann_count
    pub clock : t.tm_clock ≡ s.tm_clock
    pub ext : t.ext_config ≡ s.ext_config
    pub empty : (q : Ptr) → s.heap q ≡ none → t.heap q ≡ none

  write_lem :
      (s : Mnet W) (p : Ptr) (f : Chann → Chann) (d : Chann)
      → s.heap p ≡ some d
      → IsWritten s (set_heap s p (some (f d))) p f
  write_lem s p f d there = record {
    other = λ q ne. heap-set_ne s p q (some (f d)) ne;
    written = λ k some_at there'.
        let same : d ≡ k = cc in heap-set_self s p (some (f d)) ∙ ap (λ x. some (f x)) same;
    count = refl;
    clock = refl;
    ext = refl;
    empty = λ q free. elim (Bool-cases (q == p)) [
      | inl hit ↦
          absurd
            (some-none (sym there ∙ ap s.heap (let e : p ≡ q = ground (arith, hit) in e) ∙ free))
      | inr miss ↦ heap-set_ne s p q (some (f d)) (ground (arith, miss)) ∙ free
    ];
  }

  unwritten : (s : Mnet W) (p : Ptr) (f : Chann → Chann) → p ≡ null → IsWritten s s p f
  unwritten s p f e = record {
    other = λ q ne. refl;
    written = λ d some_at there. absurd (some_at e);
    count = refl;
    clock = refl;
    ext = refl;
    empty = λ q free. free;
  }

  pub modify_if_lem :
      (s : Mnet W) (p : Ptr) (f : Chann → Chann)
      → Leads s.heap p
      → (t : Mnet W) × (modify_if p f s ≡ some (tt, t)) × IsWritten s t p f × (t.channs ≡ s.channs)
  modify_if_lem s p f lead = elim (Bool-cases (p == null)) [
    | inl at_null ↦ (s, rw at_null refl, unwritten s p f (ground (arith, at_null)), refl)
    | inr some_at ↦ elim lead [
      | inl e ↦ absurd (ground (arith, some_at, e))
      | inr (d, there) ↦ (
        set_heap s p (some (f d)),
        rw (some_at, modify, there) refl,
        write_lem s p f d there,
        refl,
      )
    ]
  ]

  pub step_lem :
      (s t : Mnet W) (p q : Ptr) (f : Chann → Chann) (d : Chann)
      → IsWritten s t p f
      → q ≢ null
      → s.heap q ≡ some d
      → (t.heap q ≡ some d) ⊎ (t.heap q ≡ some (f d))
  step_lem s t p q f d w some_q at_q = elim (Bool-cases (q == p)) [
    | inl hit ↦
        let e : q ≡ p = ground (arith, hit) in
        inr (ap t.heap e ∙ w.written d (λ z. some_q (e ∙ z)) (ap s.heap (sym e) ∙ at_q))
    | inr miss ↦ inl (w.other q (ground (arith, miss)) ∙ at_q)
  ]

  kill_lem :
      (s : Mnet W) (n : Ptr) (c : Chann) (l : Skiplist ChannTm)
      → killed c s.tm_clock ≡ some l
      → (d : Chann) × (tm_kill n (set_heap s n (some c))
          ≡ some (tt, set_heap (record s { tm_clock = l }) n (some d)))
  unfolding tm_kill clock_remove
  kill_lem s n c l kills =
      let here = heap-set_self s n (some c) in
      elim (Bool-cases (c.timer_node == null)) [
        | inl untimed ↦
            let stays : killed c s.tm_clock ≡ some s.tm_clock = rw untimed refl in
            let same : s.tm_clock ≡ l = some_inj (sym stays ∙ kills) in
            (
              c,
              rw (here, untimed, ◌>>=◌, ◌>>◌)
                  (ap (λ k. some (tt, set_heap (record s { tm_clock = k }) n (some c))) same),
            )
        | inr timed ↦
            let removes : killed c s.tm_clock ≡ Skiplist.remove_skipnode s.tm_clock c.timer_node =
              rw timed refl in
            let d : Chann = record c { timer_node = null } in
            (
              d,
              rw
                  (
                    here,
                    timed,
                    sym removes ∙ kills,
                    modify-set (record s { tm_clock = l }) n c
                        (λ k. record k { timer_node = null }),
                    ◌>>=◌,
                    ◌>>◌,
                  )
                  refl,
            )
      ]

  -- What comes behind the links.
  pub finish_lem :
      (s : Mnet W) (n : Ptr) (c : Chann) (l : Skiplist ChannTm)
      → s.heap n ≡ some c
      → IsQueue c.rwb_send
      → contents c.rwb_send ≡ []
      → killed c s.tm_clock ≡ some l
      → (do
        destroy_queue n
        tm_kill n
        update (λ t. record t { chann_count = t.chann_count - 1 })
        update (λ t. set_heap t n none))
          s
        ≡ some (tt, set_heap (record s { tm_clock = l; chann_count = s.chann_count - 1 }) n none)
  unfolding destroy_queue
  finish_lem s n c l there q sent_all kills =
      let (d, ran) = kill_lem s n (record c { rwb_send = Rwb.empty }) l kills in
      rw (there, (destroy_ends_iff c.rwb_send q).1 sent_all, there, ran, ◌>>=◌, ◌>>◌)
        (ap (λ (u : Mnet W). some (tt, record u { chann_count = s.chann_count - 1 }))
          (set_heap_twice (record s { tm_clock = l }) n (some d) none))

  -- The link before the channel, or the start of the list.
  pub relink_lem :
      (s : Mnet W) (p next : Ptr) (f : Chann → Chann)
      → Leads s.heap p
      → (t : Mnet W) × ((if p == null then update (λ t. record t { channs = next }) else modify p f)
            s
          ≡ some (tt, t))
        × IsWritten s t p f
        × (t.channs ≡ (if p == null then next else s.channs))
  relink_lem s p next f lead = elim (Bool-cases (p == null)) [
    | inl at_null ↦ (
      record s { channs = next },
      rw at_null refl,
      record {
        other = λ q ne. refl;
        written = λ d some_at there. absurd (some_at (ground (arith, at_null)));
        count = refl;
        clock = refl;
        ext = refl;
        empty = λ q free. free;
      },
      rw at_null refl,
    )
    | inr some_at ↦ elim lead [
      | inl e ↦ absurd (ground (arith, some_at, e))
      | inr (d, there) ↦ (
        set_heap s p (some (f d)),
        rw (some_at, modify, there) refl,
        write_lem s p f d there,
        rw some_at refl,
      )
    ]
  ]
