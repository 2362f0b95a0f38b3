-- ===== src/Skiplist/Destroy.antt =====
-- `skiplist_destroy` walks the links of level 0 and frees every node.
use m_net.Base.{
  ℕ, zero, suc, ◌<◌, ◌+◌, ◌≡◌, refl, sym, ap, subst, ◌∙◌, none, some, List, [], ◌∷◌, arith, ◌==◌,
  if◌then◌else◌, All, length, ==_ne, ◌≤◌,
}
use m_net.Skiplist.{Ptr, head, max_level, Skiplist, destroy_loop, destroy}
use m_net.Skiplist.Ring.{Out, Distinct, Chain}
use m_net.Skiplist.Entries.{Entry, IsSkiplist, at_level, addrs}

module _ {ℓ} {V : Type ℓ} where
  all_at_zero : (es : List (Entry V)) → All (λ e. 0 < e.node.level) es → at_level 0 es ≡ addrs es
  all_at_zero [] h = refl
  all_at_zero (e ∷ es) h = ground (arith, h.0, all_at_zero es h.1)

  low :
      (es : List (Entry V))
      → All (λ e. (0 < e.node.level) × (e.node.level ≤ max_level)) es
      → All (λ e. 0 < e.node.level) es
  low [] h = tt
  low (e ∷ es) h = (h.0.0, low es h.1)

  -- The list when the node at `n` is freed.
  abbrev freed : Skiplist V → Ptr → Skiplist V
  freed l n = record l { node = λ p. if p == n then none else l.node p }

  freed_stored :
      (l : Skiplist V) (n : Ptr) (es : List (Entry V))
      → Out n (addrs es)
      → All (λ e. l.node e.addr ≡ some e.node) es
      → All (λ e. (freed l n).node e.addr ≡ some e.node) es
  freed_stored l n [] o h = tt
  freed_stored l n (e ∷ es) o h = (ground (arith, o.0, h.0), freed_stored l n es o.1 h.1)

  -- All nodes are freed, and what was free is free.
  pub record IsEmptied (l l' : Skiplist V) (es : List (Entry V)) : Type ℓ where
    pub gone : All (λ e. l'.node e.addr ≡ none) es
    pub kept : (q : Ptr) → l.node q ≡ none → l'.node q ≡ none

  loop_lem :
      (fuel : ℕ) (l : Skiplist V) (es : List (Entry V)) (p : Ptr)
      → length es < fuel
      → Chain (l.next 0) (l.prev 0) p (addrs es) head
      → All (λ e. l.node e.addr ≡ some e.node) es
      → Distinct (addrs es)
      → Out head (addrs es)
      → (l' : Skiplist V) × (destroy_loop fuel l (l.next 0 p) ≡ some l') × IsEmptied l l' es
  unfolding destroy_loop
  loop_lem zero l es p enough c st apart headless = absurd (omega (arith, enough))
  loop_lem (suc fuel) l [] p enough c st apart headless =
      (l, rw (c.0) refl, record { gone = tt; kept = λ q free. free })
  loop_lem (suc fuel) l (e ∷ es) p enough c st apart headless =
      let m = freed l e.addr in
      let (l', ran, w) =
        loop_lem fuel m es e.addr (omega (arith, enough)) c.2
          (freed_stored l e.addr es apart.0 st.1) apart.1 headless.1 in
      (
        l',
        ap (destroy_loop (suc fuel) l) c.0
            ∙ rw (==_ne e.addr head (λ same. headless.0 (sym same)), st.0) ran,
        record {
          gone = (w.kept e.addr (ground arith), w.gone);
          kept = λ q free. w.kept q (ground (arith, free));
        },
      )

  -- `skiplist_destroy` of a well-formed list ends without a fault, and all nodes are freed.
  pub destroy-IsEmptied :
      (l : Skiplist V) (es : List (Entry V))
      → IsSkiplist l es
      → (l' : Skiplist V) × (destroy l ≡ some l') × IsEmptied l l' es
  unfolding destroy
  destroy-IsEmptied l es h =
      loop_lem (l.count + 1) l es head (omega (arith, h.counted))
        (subst (λ xs. Chain (l.next 0) (l.prev 0) head xs head) (all_at_zero es (low es h.heights))
          (h.rings 0))
        h.stored h.apart h.headless
