-- ===== src/Skiplist/Insert.antt =====
-- `skiplist_insert` links the new node into every level below its own, at the place of its key.
pub mod Levels
use m_net.Base.{
  ℕ, suc, ◌+◌, ◌≤◌, ◌<◌, ◌≡◌, ◌≢◌, refl, sym, ap, subst, ◌∙◌, ◌⊎◌, inl, inr, Bool, true, false,
  Option, none, some, List, [], ◌∷◌, ◌++◌, arith, ◌==◌, ltb, if◌then◌else◌, Bool-cases, All, length,
  ==_refl, ==_ne, All-append_left, All-append_right,
}
use m_net.Base.Int.{ℤ, leb_ℤ}
use m_net.Skiplist.{Ptr, null, head, max_level, Node, Skiplist, insert}
use m_net.Skiplist.Ring.{Out, Distinct, Chain}
use m_net.Skiplist.Entries.{
  Entry, IsSkiplist, at_level, addrs, top_level, place, before, after, before-after, place-split,
  before-All, after-All, at_level-append,
}
use m_net.Skiplist.Place.{
  All-place, Out-place, Distinct-place, place-IsSorted, length-place, top_level-place,
  length-before,
}
use Levels.{Gap, Old, New, AllStored, levels_lem}

module _ {ℓ} {V : Type ℓ} (l : Skiplist V) (es : List (Entry V)) (n : Ptr) (level : ℕ) (key : ℤ)
    (value : V) where
  abbrev pub new_node : Node V
  new_node = record { key = key; value = value; level = level }

  abbrev pub entry : Entry V
  entry = record { addr = n; node = new_node }

  -- The list that the loop starts with.
  abbrev started : Skiplist V
  started = record l {
    level = if ltb l.level level then level else l.level;
    node = λ p. if p == n then some new_node else l.node p;
  }

  started_stored : (zs : List (Entry V)) → Out n (addrs zs) → AllStored l zs → AllStored started zs
  started_stored [] o st = tt
  started_stored (z ∷ zs) o st = (ground (arith, o.0, st.0), started_stored zs o.1 st.1)

  started-Gap :
      IsSkiplist l es → n ≢ head → Out n (addrs es) → Gap (before key es) (after key es) entry
  started-Gap s not_head fresh = record {
    below = before-All key es;
    above = after-All key es s.sorted;
    fresh = rw (before-after key es) fresh;
    not_head = not_head;
    apart = rw (before-after key es) s.apart;
    headless = rw (before-after key es) s.headless;
  }

  started_level : IsSkiplist l es → 0 < level → started.level ≡ top_level (place entry es)
  started_level s pos = elim s.top [
    | inl e ↦ ground (arith, e, top_level-place entry es)
    | inr (nil, one) ↦ ground (arith, one, ap top_level nil, top_level-place entry es)
  ]

  started-Old : (j : ℕ) → IsSkiplist l es → Old (before key es) (after key es) started j
  started-Old j s =
      subst (λ zs. Chain (l.next j) (l.prev j) head zs head)
        (ap (at_level j) (sym (before-after key es)) ∙ at_level-append j _ _) (s.rings j)

  -- Levels that the loop does not reach are above the new node.
  started-New :
      (j : ℕ)
      → IsSkiplist l es
      → started.level ≤ j
      → New (before key es) (after key es) entry started j
  started-New j s high =
      let above : ltb j level ≡ false = ground arith in rw above (started-Old j s)

  done_rings :
      (l' : Skiplist V)
      → ((j : ℕ) → New (before key es) (after key es) entry l' j)
      → (j : ℕ) → Chain (l'.next j) (l'.prev j) head (at_level j (place entry es)) head
  done_rings l' links j =
      subst (λ zs. Chain (l'.next j) (l'.prev j) head zs head)
        (sym (ap (at_level j) (place-split entry es) ∙ at_level-append j _ _)) (links j)

  -- On a well-formed skip list `skiplist_insert`, at a free address that is not NULL and with a
  -- level from 1 to 32, ends without a fault, and the list is well formed then and holds the new node in front of the
  -- first node with a key that is not smaller; no other node changes.
  pub insert-place :
      IsSkiplist l es
      → n ≢ null
      → n ≢ head
      → Out n (addrs es)
      → 0 < level
      → level ≤ max_level
      → (l' : Skiplist V) × (insert l n level key value ≡ some l')
        × IsSkiplist l' (place entry es)
        × (l'.node ≡ (λ p. if p == n then some new_node else l.node p))
  unfolding insert
  insert-place s some_n not_head fresh pos low =
      let xs = before key es in
      let ys = after key es in
      let st = started_stored es fresh s.stored in
      let st' : AllStored started (xs ++ ys) = rw before-after st in
      let (l', runs, links, nodes, levels, counts) =
        levels_lem xs ys entry (started-Gap s not_head fresh) (l.count + 1) started.level started
          head head (All-append_left _ xs ys st') (All-append_right _ xs ys st')
          (λ j _. started-Old j s) (λ j high. started-New j s high) (inl refl) (inl refl)
          (omega (arith, length-before entry es, s.counted)) in
      (
        record l' { count = l'.count + 1 },
        rw (==_ne n null some_n) (
            ap (elim [ none ↦ none | some l'' ↦ some (record l'' { count = l''.count + 1 }) ])
              runs),
        record {
          rings = done_rings l' links;
          stored =
              subst (λ f. All (λ x. f x.addr ≡ some x.node) (place entry es)) (sym nodes)
                (All-place entry _ es st (ground arith));
          apart = Distinct-place entry es s.apart fresh;
          headless = Out-place entry head es s.headless (λ e. not_head (sym e));
          sorted = place-IsSorted entry es s.sorted;
          counted = omega (arith, counts, s.counted, length-place entry es);
          heights = All-place entry _ es s.heights (pos, low);
          top = inl (levels ∙ started_level s pos);
        },
        nodes,
      )
