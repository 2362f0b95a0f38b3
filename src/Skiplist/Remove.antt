-- ===== src/Skiplist/Remove.antt =====
-- `skiplist_remove_skipnode` unlinks a node from every level and frees it.
pub mod Erase
pub mod Levels
use m_net.Base.{
  ℕ, suc, ◌+◌, ◌-◌, ◌≤◌, ◌<◌, ◌≡◌, ◌≢◌, refl, sym, ap, subst, ◌∙◌, ◌⊎◌, inl, inr, Bool, true, false,
  Option, none, some, List, [], ◌∷◌, ◌++◌, arith, ◌==◌, ltb, leb, if◌then◌else◌, Bool-cases, All,
  length, ==_ne,
}
use m_net.Skiplist.{Ptr, head, Node, Skiplist, remove_levels, remove_skipnode}
use m_net.Skiplist.Ring.{Out, Distinct, Chain}
use m_net.Skiplist.Entries.{
  Entry, In, IsSkiplist, at_level, addrs, top_level, erase, at_level-append,
}
use Erase.{
  erase-split, All-middle, All-at, Out-middle, Distinct-middle, IsSorted-middle, length-middle,
  top_level-middle,
}
use Levels.{Without, remove_levels_lem}

module _ {ℓ} {V : Type ℓ} (l : Skiplist V) where
  top_IsSkiplist :
      (xs ys : List (Entry V)) (e : Entry V)
      → IsSkiplist l (xs ++ e ∷ ys)
      → l.level ≡ top_level (xs ++ e ∷ ys)
  top_IsSkiplist xs ys e s = elim s.top [
    | inl top ↦ top
    | inr (nil, _) ↦ absurd (omega (arith, ap length nil, length-middle xs ys e))
  ]

  stored_others :
      (f : Ptr → Option (Node V)) (n : Ptr) (zs : List (Entry V))
      → Out n (addrs zs)
      → All (λ x. f x.addr ≡ some x.node) zs
      → All (λ x. (if x.addr == n then none else f x.addr) ≡ some x.node) zs
  stored_others f n [] o st = tt
  stored_others f n (z ∷ zs) o st = (ground (arith, o.0, st.0), stored_others f n zs o.1 st.1)

  abbrev pub Removed : List (Entry V) → Ptr → Option (Skiplist V) → Type ℓ
  Removed zs n r =
      (l' : Skiplist V) × (r ≡ some l')
      × IsSkiplist l' zs
      × (l'.node ≡ (λ p. if p == n then none else l.node p))

  remove_middle :
      (xs ys : List (Entry V)) (e : Entry V)
      → IsSkiplist l (xs ++ e ∷ ys)
      → Removed (xs ++ ys) e.addr (remove_skipnode l e.addr)
  unfolding remove_skipnode
  remove_middle xs ys e s =
      let (apart, fresh) = Distinct-middle xs ys e s.apart in
      let (headless, ne) = Out-middle head xs ys e s.headless in
      let (links, nodes, counts, levels) =
        remove_levels_lem xs ys e fresh (λ same. ne (sym same)) apart headless e.node.level 0 l
          (omega arith)
          (λ j _.
            subst (λ zs. Chain (l.next j) (l.prev j) head zs head) (at_level-append j xs (e ∷ ys))
              (s.rings j))
          (λ j h. absurd (omega arith)) in
      let l' = remove_levels e.node.level 0 l e.addr in
      let l'' : Skiplist V = record l' {
        node = λ p. if p == e.addr then none else l'.node p;
        count = l'.count - 1;
      } in
      (
        l'',
        rw (All-at _ xs ys e s.stored, remove_skipnode) refl,
        record {
          rings = λ j.
              subst (λ zs. Chain (l'.next j) (l'.prev j) head zs head)
                (sym (at_level-append j xs ys)) (links j);
          stored = stored_others l'.node e.addr (xs ++ ys) fresh (
              subst (λ f. All (λ x. f x.addr ≡ some x.node) (xs ++ ys)) (sym nodes)
                (All-middle _ xs ys e s.stored));
          apart = apart;
          headless = headless;
          sorted = IsSorted-middle xs ys e s.sorted;
          counted = omega (arith, counts, s.counted, length-middle xs ys e);
          heights = All-middle _ xs ys e s.heights;
          top = inl (ground (arith, levels, top_IsSkiplist xs ys e s, top_level-middle xs ys e));
        },
        ap (λ f p. if p == e.addr then none else f p) nodes,
      )

  -- On a well-formed skip list `skiplist_remove_skipnode` of one of its nodes runs without a fault,
  -- frees that node and no other, and leaves a well-formed list of the others in their order.
  pub remove-erase :
      (es : List (Entry V)) (n : Ptr)
      → IsSkiplist l es
      → In n (addrs es)
      → Removed (erase n es) n (remove_skipnode l n)
  remove-erase es n s m =
      let (xs, e, ys, split, at, gone) = erase-split n es m in
      rw (gone, ← at) (remove_middle xs ys e (subst (IsSkiplist l) split s))
