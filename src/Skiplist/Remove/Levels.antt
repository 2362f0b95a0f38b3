-- ===== src/Skiplist/Remove/Levels.antt =====
-- The loop of `skiplist_remove_skipnode`, for a node `e` between `xs` and `ys`.
use m_net.Base.{
  ℕ, zero, suc, ◌+◌, ◌-◌, ◌≤◌, ◌<◌, ◌≡◌, ◌≢◌, refl, sym, ap, subst, ◌∙◌, inl, inr, true, false,
  List, ◌∷◌, ◌++◌, arith, ltb, leb, if◌then◌else◌, Bool-cases, ==_refl, ==_ne, ℕ_discrete,
}
use m_net.Skiplist.{Ptr, head, Skiplist, list_del, list_empty, remove_levels}
use m_net.Skiplist.Ring.{Out, Distinct, Chain, del-Chain, Chain-middle}
use m_net.Skiplist.Entries.{
  Entry, at_level, addrs, top_level, at_level-append, Out-at_level, Distinct-at_level,
}
use m_net.Skiplist.Insert.Levels.{Old, New}
use m_net.Skiplist.Remove.Erase.{at_level-nil, at_level-cons}

module _ {ℓ} {V : Type ℓ} (xs ys : List (Entry V)) (e : Entry V) where
  -- The links of level `j`, with the node and without it.
  abbrev pub With : Skiplist V → ℕ → Type 0
  With = New xs ys e

  abbrev pub Without : Skiplist V → ℕ → Type 0
  Without = Old xs ys

module _ {ℓ} {V : Type ℓ} (xs ys : List (Entry V)) (e : Entry V)
    (fresh : Out e.addr (addrs (xs ++ ys))) (not_head : e.addr ≢ head)
    (apart : Distinct (addrs (xs ++ ys))) (headless : Out head (addrs (xs ++ ys))) where
  Out-level : (a : Ptr) (i : ℕ) → Out a (addrs (xs ++ ys)) → Out a (at_level i xs ++ at_level i ys)
  Out-level a i o = subst (Out a) (at_level-append i xs ys) (Out-at_level a i (xs ++ ys) o)

  del_self :
      (i : ℕ) (l : Skiplist V)
      → i < e.node.level
      → With xs ys e l i
      → Without xs ys e (list_del l i e.addr) i
  unfolding list_del
  del_self i l low c =
      let high : ltb i e.node.level ≡ true = ground arith in
      let c' : Chain (l.next i) (l.prev i) head (at_level i xs ++ e.addr ∷ at_level i ys) head =
        rw high at c in
      let (before, behind) =
        Chain-middle (l.next i) (l.prev i) e.addr head head (at_level i xs) (at_level i ys) c' in
      rw (==_refl i, before, behind)
        (del-Chain (l.next i) (l.prev i) e.addr head head (at_level i xs) (at_level i ys) not_head
          not_head (Out-level e.addr i fresh) (Out-level head i headless)
          (Out-level head i headless)
          (subst Distinct (at_level-append i xs ys) (Distinct-at_level i (xs ++ ys) apart)) c')

  del_other :
      (i j : ℕ) (l : Skiplist V) (zs : List Ptr)
      → j ≢ i
      → Chain (l.next j) (l.prev j) head zs head
      → Chain ((list_del l i e.addr).next j) ((list_del l i e.addr).prev j) head zs head
  unfolding list_del
  del_other i j l zs ne c = rw (==_ne j i ne) c

  -- The test for an empty level.
  empty_lem :
      (i : ℕ) (l : Skiplist V) → Without xs ys e l i → list_empty l i ≡ leb (top_level (xs ++ ys)) i
  unfolding list_empty
  empty_lem i l c =
      let c' : Chain (l.next i) (l.prev i) head (at_level i (xs ++ ys)) head =
        subst (λ zs. Chain (l.next i) (l.prev i) head zs head) (sym (at_level-append i xs ys)) c in
      elim (Bool-cases (leb (top_level (xs ++ ys)) i)) [
        | inl over ↦
            let gone = at_level-nil i (xs ++ ys) (ground (arith, over)) in
            let c'' = subst (λ zs. Chain (l.next i) (l.prev i) head zs head) gone c' in
            rw over (ground (arith, c''.0))
        | inr under ↦
            let (z, zs, at) = at_level-cons i (xs ++ ys) (ground (arith, under)) in
            let c'' = subst (λ zs. Chain (l.next i) (l.prev i) head zs head) at c' in
            let o = subst (Out head) at (Out-at_level head i (xs ++ ys) headless) in
            rw under (ground (arith, c''.0, o.0))
      ]

  -- One round of the loop, on level `i`.
  round : Skiplist V → ℕ → Skiplist V
  round l i =
      let l' = list_del l i e.addr in
      record l' { level = if list_empty l' i then l'.level - 1 else l'.level }

  round-node :
      (i : ℕ) (l : Skiplist V) → ((round l i).node ≡ l.node) × ((round l i).count ≡ l.count)
  unfolding round list_del
  round-node i l = (refl, refl)

  del-level : (i : ℕ) (l : Skiplist V) → (list_del l i e.addr).level ≡ l.level
  unfolding list_del
  del-level i l = refl

  round-level :
      (i : ℕ) (l : Skiplist V)
      → i < e.node.level
      → With xs ys e l i
      → (round l i).level ≡ (if leb (top_level (xs ++ ys)) i then l.level - 1 else l.level)
  unfolding round
  round-level i l low c =
      rw (empty_lem i (list_del l i e.addr) (del_self i l low c), del-level i l) refl

  round_self :
      (i : ℕ) (l : Skiplist V) → i < e.node.level → With xs ys e l i → Without xs ys e (round l i) i
  unfolding round
  round_self i l low c = del_self i l low c

  round_other :
      (i j : ℕ) (l : Skiplist V) (zs : List Ptr)
      → j ≢ i
      → Chain (l.next j) (l.prev j) head zs head
      → Chain ((round l i).next j) ((round l i).prev j) head zs head
  unfolding round
  round_other i j l zs ne c = del_other i j l zs ne c

  round_up :
      (i j : ℕ) (l : Skiplist V)
      → j < suc i
      → i < e.node.level
      → With xs ys e l i
      → (j < i → Without xs ys e l j)
      → Without xs ys e (round l i) j
  round_up i j l up low c done = elim (ℕ_discrete j i) [
    | yes same ↦ subst (Without xs ys e (round l i)) (sym same) (round_self i l low c)
    | no ne ↦ round_other i j l _ ne (done (omega arith))
  ]

  -- What is taken off `level` from level `i` on: the levels that the node had to itself.
  abbrev lowered : ℕ → ℕ
  lowered i =
      if leb (top_level (xs ++ ys)) i then e.node.level - i else e.node.level - top_level (xs ++ ys)

  lowered_step :
      (i a : ℕ)
      → i < e.node.level
      → (if leb (top_level (xs ++ ys)) i then a - 1 else a) - lowered (suc i) ≡ a - lowered i
  lowered_step i a low = ground arith

  pub remove_levels_lem :
      (k i : ℕ) (l : Skiplist V)
      → k + i ≡ e.node.level
      → ((j : ℕ) → i ≤ j → With xs ys e l j)
      → ((j : ℕ) → j < i → Without xs ys e l j)
      → ((j : ℕ) → Without xs ys e (remove_levels k i l e.addr) j)
        × ((remove_levels k i l e.addr).node ≡ l.node)
        × ((remove_levels k i l e.addr).count ≡ l.count)
        × ((remove_levels k i l e.addr).level ≡ l.level - lowered i)
  unfolding remove_levels round
  remove_levels_lem zero i l rounds todo done = (
    λ j. elim (Bool-cases (ltb j i)) [
      | inl low ↦ done j (ground (arith, low))
      | inr high ↦
          let over : ltb j e.node.level ≡ false = ground (arith, high) in
          let c = todo j (ground (arith, high)) in rw over at c
    ],
    refl,
    refl,
    ground arith,
  )
  remove_levels_lem (suc k) i l rounds todo done =
      let low : i < e.node.level = omega arith in
      let c = todo i (omega arith) in
      let (links, nodes, counts, levels) =
        remove_levels_lem k (suc i) (round l i) (omega arith)
          (λ j h. round_other i j l _ (omega arith) (todo j (omega arith)))
          (λ j h. round_up i j l h low c (done j)) in
      (
        links,
        nodes ∙ (round-node i l).0,
        counts ∙ (round-node i l).1,
        levels ∙ ap (λ a. a - lowered (suc i)) (round-level i l low c) ∙ lowered_step i l.level low,
      )
