-- ===== src/Net/Chann/Destroy.antt =====
-- `_chann_destroy` of src/mnet_core.c takes a closed channel off the list of all channels and frees it.
pub mod Writes
use m_net.Base.{
  ◌-◌, ◌≡◌, ◌≢◌, refl, sym, ap, subst, ◌∙◌, ◌⊎◌, inl, inr, Bool-cases, true, false, Option, none,
  some, List, [], ◌∷◌, ◌++◌, All-append_right, arith, ◌==◌, if◌then◌else◌, length-append,
}
use m_net.Skiplist.{Ptr, null, Skiplist}
use m_net.Skiplist
use m_net.Rwb
use m_net.Rwb.Contents.{contents, IsQueue}
use m_net.Rwb.Destroy.{destroy_ends_iff}
use m_net.Net.State.{Mnet, Chann, ChannState, ChannTm, ◌>>=◌, ◌>>◌, update, modify, set_heap}
use m_net.Net.State.Heap.{heap-set_self, heap-set_ne, set_heap_twice, modify-set}
use m_net.Net.Env.{Env}
use m_net.Net.Timer.{clock_remove, tm_kill}
use m_net.Net.Chann.{modify_if, destroy_queue, chann_destroy}
use m_net.Net.Chann.Channels.{Linked, IsList}
use m_net.Net.Chann.Unlink.{
  IsSpliced, Leads, start, Linked-unlink, next-Leads, prev-Leads, next_apart, prev_apart,
  sides_apart, Out-null, start-first, start-kept, Distinct-without,
}
use m_net.Net.Chann.Destroy.Writes.{
  killed, IsWritten, modify_if_lem, step_lem, finish_lem, relink_lem,
}

module _ {W : Type 0} ⦃env : Env W⦄ (s : Mnet W) (n : Ptr) (c : Chann) (xs ys : List Ptr) where
  spliced :
      (t1 t2 : Mnet W)
      → IsList s (xs ++ n ∷ ys)
      → s.heap n ≡ some c
      → IsWritten s t1 c.next (λ k. record k { prev = c.prev })
      → IsWritten t1 t2 c.prev (λ k. record k { next = c.next })
      → n ≢ c.next
      → n ≢ c.prev
      → (c.prev ≢ null → c.prev ≢ c.next)
      → IsSpliced s.heap (set_heap t2 n none).heap n c
  spliced t1 t2 h there w1 w2 not_next not_prev sides = record {
    other = λ q a b f. heap-set_ne t2 n q none a ∙ w2.other q b ∙ w1.other q f;
    before = λ d some_at at_prev.
        heap-set_ne t2 n c.prev none (λ f. not_prev (sym f))
        ∙ w2.written d some_at (w1.other c.prev (sides some_at) ∙ at_prev);
    behind = λ d some_at at_next.
        heap-set_ne t2 n c.next none (λ f. not_next (sym f))
        ∙ w2.other c.next (λ f. sides (λ z. some_at (f ∙ z)) (sym f))
        ∙ w1.written d some_at at_next;
  }

  -- The call, when the writes to the neighbours give `t1` and `t2`.
  destroy_runs :
      (t1 t2 : Mnet W) (l : Skiplist ChannTm)
      → s.heap n ≡ some c
      → c.state ≡ ChannState.closed
      → modify_if c.next (λ k. record k { prev = c.prev }) s ≡ some (tt, t1)
      → (if c.prev == null
            then update (λ t. record t { channs = c.next })
            else modify c.prev (λ k. record k { next = c.next }))
          t1
        ≡ some (tt, t2)
      → t2.heap n ≡ some c
      → IsQueue c.rwb_send
      → contents c.rwb_send ≡ []
      → killed c t2.tm_clock ≡ some l
      → chann_destroy n s
        ≡ some (tt, set_heap (record t2 { tm_clock = l; chann_count = t2.chann_count - 1 }) n none)
  unfolding chann_destroy
  destroy_runs t1 t2 l there closed ran1 ran2 still q sent_all kills =
      rw (there, closed, ran1, ran2, finish_lem t2 n c l still q sent_all kills, ◌>>=◌, ◌>>◌) refl

  -- The list then starts where it should.
  starts :
      (t1 t2 : Mnet W)
      → IsList s (xs ++ n ∷ ys)
      → s.heap n ≡ some c
      → t1.channs ≡ s.channs
      → t2.channs ≡ (if c.prev == null then c.next else t1.channs)
      → start xs s.channs c.next ≡ t2.channs
  starts t1 t2 h there channs1 channs2 = elim (Bool-cases (c.prev == null)) [
    | inl at_null ↦
        start-first s.heap n c s.channs xs ys there h.linked (ground (arith, at_null))
        ∙ sym (channs2 ∙ rw at_null refl)
    | inr some_at ↦
        start-kept s.heap n c s.channs xs ys there h.linked
          (λ z. absurd (ground (arith, some_at, z)))
        ∙ sym (channs2 ∙ rw some_at channs1)
  ]

  -- `t` is the library without the channel, with the clock `l`; of the others at most the links
  -- differ.
  pub record IsWithout (t : Mnet W) (l : Skiplist ChannTm) : Type 0 where
    pub list : IsList t (xs ++ ys)
    pub freed : t.heap n ≡ none
    pub clock : t.tm_clock ≡ l
    pub ext : t.ext_config ≡ s.ext_config
    pub empty : (q : Ptr) → s.heap q ≡ none → t.heap q ≡ none
    pub others :
        (q : Ptr) (d : Chann)
        → q ≢ n
        → q ≢ null
        → s.heap q ≡ some d
        → (p p' : Ptr) × (t.heap q ≡ some (record d { prev = p; next = p' }))

  relinked_lem :
      (t1 t2 t : Mnet W)
      → IsWritten s t1 c.next (λ k. record k { prev = c.prev })
      → IsWritten t1 t2 c.prev (λ k. record k { next = c.next })
      → (q : Ptr) (d : Chann) → q ≢ null
      → s.heap q ≡ some d
      → t.heap q ≡ t2.heap q
      → (p p' : Ptr) × (t.heap q ≡ some (record d { prev = p; next = p' }))
  relinked_lem t1 t2 t w1 w2 q d some_q at_q same =
      let first = step_lem s t1 c.next q (λ k. record k { prev = c.prev }) d w1 some_q at_q in
      elim first [
        | inl at1 ↦
            elim (step_lem t1 t2 c.prev q (λ k. record k { next = c.next }) d w2 some_q at1) [
              | inl at2 ↦ (d.prev, d.next, same ∙ at2)
              | inr at2 ↦ (d.prev, c.next, same ∙ at2)
            ]
        | inr at1 ↦
            elim (step_lem t1 t2 c.prev q (λ k. record k { next = c.next })
              (record d { prev = c.prev }) w2 some_q at1) [
                | inl at2 ↦ (c.prev, d.next, same ∙ at2)
                | inr at2 ↦ (c.prev, c.next, same ∙ at2)
              ]
      ]

  pub destroy-IsWithout :
      (l : Skiplist ChannTm)
      → IsList s (xs ++ n ∷ ys)
      → s.heap n ≡ some c
      → c.state ≡ ChannState.closed
      → IsQueue c.rwb_send
      → contents c.rwb_send ≡ []
      → killed c s.tm_clock ≡ some l
      → (t : Mnet W) × (chann_destroy n s ≡ some (tt, t)) × IsWithout t l
  destroy-IsWithout l h there closed q sent_all kills =
      let links = h.linked in
      let all_some = Out-null s.heap null s.channs (xs ++ n ∷ ys) links in
      let some_n : n ≢ null =
        λ f. (All-append_right (λ k. null ≢ k) xs (n ∷ ys) all_some).0 (sym f) in
      let not_next = next_apart s.heap n c null s.channs xs ys there h.apart links in
      let not_prev = prev_apart s.heap n c null s.channs xs ys there h.apart some_n links in
      let sides = sides_apart s.heap n c null s.channs xs ys there h.apart all_some links in
      let (t1, ran1, w1, channs1) =
        modify_if_lem s c.next (λ k. record k { prev = c.prev })
          (next-Leads s.heap n c null s.channs xs ys there links) in
      let lead : Leads t1.heap c.prev = elim (Bool-cases (c.prev == null)) [
        | inl at_null ↦ inl (ground (arith, at_null))
        | inr some_at ↦ elim (prev-Leads s.heap n c null s.channs xs ys there (inl refl) links) [
          | inl e ↦ inl e
          | inr (d, at_prev) ↦
              inr (d, w1.other c.prev (sides (λ z. absurd (ground (arith, some_at, z)))) ∙ at_prev)
        ]
      ] in
      let (t2, ran2, w2, channs2) =
        relink_lem t1 c.prev c.next (λ k. record k { next = c.next }) lead in
      let still : t2.heap n ≡ some c = w2.other n not_prev ∙ w1.other n not_next ∙ there in
      let t = set_heap (record t2 { tm_clock = l; chann_count = t2.chann_count - 1 }) n none in
      (
        t,
        destroy_runs t1 t2 l there closed ran1 ran2 still q sent_all
            (ap (killed c) (w2.clock ∙ w1.clock) ∙ kills),
        record {
          list = record {
            linked =
                subst (λ k. Linked t.heap null k (xs ++ ys)) (starts t1 t2 h there channs1 channs2)
                  (Linked-unlink s.heap t.heap n c null s.channs xs ys
                    (spliced t1 t2 h there w1 w2 not_next not_prev sides) there h.apart all_some
                    links);
            apart = Distinct-without n xs ys h.apart;
            counted = omega (
              arith,
              w2.count,
              w1.count,
              h.counted,
              length-append xs (n ∷ ys),
              length-append xs ys,
            );
          };
          freed = heap-set_self t2 n none;
          clock = refl;
          ext = w2.ext ∙ w1.ext;
          empty = λ q free. elim (Bool-cases (q == n)) [
            | inl hit ↦
                ap t.heap (let e : q ≡ n = ground (arith, hit) in e) ∙ heap-set_self t2 n none
            | inr miss ↦
                heap-set_ne t2 n q none (ground (arith, miss)) ∙ w2.empty q (w1.empty q free)
          ];
          others = λ q d ne some_q at_q.
              relinked_lem t1 t2 t w1 w2 q d some_q at_q (heap-set_ne t2 n q none ne);
        },
      )

  -- On a well-formed list of all channels `_chann_destroy` of a closed channel, with an empty queue
  -- and no timer, ends without a fault: the list then holds the other channels in their order and is
  -- well formed, and the memory of the channel is free.
  pub destroy-IsList :
      IsList s (xs ++ n ∷ ys)
      → s.heap n ≡ some c
      → c.state ≡ ChannState.closed
      → IsQueue c.rwb_send
      → contents c.rwb_send ≡ []
      → c.timer_node ≡ null
      → (t : Mnet W) × (chann_destroy n s ≡ some (tt, t)) × IsList t (xs ++ ys) × (t.heap n ≡ none)
  destroy-IsList h there closed q sent_all untimed =
      let (t, ran, w) = destroy-IsWithout s.tm_clock h there closed q sent_all (
        ap (λ p. if p == null then some s.tm_clock else Skiplist.remove_skipnode s.tm_clock p)
          untimed) in
      (t, ran, w.list, w.freed)
