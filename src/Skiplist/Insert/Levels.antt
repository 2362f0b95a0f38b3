-- ===== src/Skiplist/Insert/Levels.antt =====
-- The outer loop of `skiplist_insert`, for a list that the new key splits into `xs` and `ys`.
use m_net.Base.{
  ℕ, zero, suc, ◌≤◌, ◌<◌, ◌≡◌, ◌≢◌, refl, sym, subst, ◌∙◌, ◌⊎◌, inl, inr, Bool, true, false, some,
  List, [], ◌∷◌, ◌++◌, arith, ltb, if◌then◌else◌, Bool-cases, All, length, ==_refl, ==_ne,
  ℕ_discrete,
}
use m_net.Base.Int.{leb_ℤ}
use m_net.Skiplist.{Ptr, head, Skiplist, list_add, insert_levels}
use m_net.Skiplist.Ring.{Out, Distinct, Chain, first_or, last_or, add-Chain, Chain-ends}
use m_net.Skiplist.Search.{Sided, search_from, first_or-In, last_or-In}
use m_net.Skiplist.Entries.{
  Entry, In, at_level, addrs, at_level-append, In-at_level_down, Out-at_level, Distinct-at_level,
  length-at_level,
}

In-Out : (a b : Ptr) (ys : List Ptr) → In b ys → Out a ys → a ≢ b
In-Out a b [] m o = absurd m
In-Out a b (y ∷ ys) (inl e) o = λ same. o.0 (same ∙ e)
In-Out a b (y ∷ ys) (inr m) o = In-Out a b ys m o.1

Out-append_right : (a : Ptr) (xs ys : List Ptr) → Out a (xs ++ ys) → Out a ys
Out-append_right a [] ys o = o
Out-append_right a (x ∷ xs) ys o = Out-append_right a xs ys o.1

Out-append_left : (a : Ptr) (xs ys : List Ptr) → Out a (xs ++ ys) → Out a xs
Out-append_left a [] ys o = tt
Out-append_left a (x ∷ xs) ys o = (o.0, Out-append_left a xs ys o.1)

-- What stands in the second part of a list without repetitions is not in the first.
Out-of_In : (b : Ptr) (xs ys : List Ptr) → Distinct (xs ++ ys) → In b ys → Out b xs
Out-of_In b [] ys d m = tt
Out-of_In b (x ∷ xs) ys d m =
    (λ same. In-Out x b ys m (Out-append_right x xs ys d.0) (sym same), Out-of_In b xs ys d.1 m)

module _ {ℓ} {V : Type ℓ} where
  -- The list `xs ++ ys`, into which `e` goes between the two.
  pub record Gap (xs ys : List (Entry V)) (e : Entry V) : Type ℓ where
    pub below : All (λ x. leb_ℤ e.node.key x.node.key ≡ false) xs
    pub above : All (λ x. leb_ℤ e.node.key x.node.key ≡ true) ys
    pub fresh : Out e.addr (addrs (xs ++ ys))
    pub not_head : e.addr ≢ head
    pub apart : Distinct (addrs (xs ++ ys))
    pub headless : Out head (addrs (xs ++ ys))

  -- The links of level `j`, before and after.
  abbrev pub Old : List (Entry V) → List (Entry V) → Skiplist V → ℕ → Type 0
  Old xs ys l j = Chain (l.next j) (l.prev j) head (at_level j xs ++ at_level j ys) head

  abbrev pub New : List (Entry V) → List (Entry V) → Entry V → Skiplist V → ℕ → Type 0
  New xs ys e l j = Chain (l.next j) (l.prev j) head (at_level j xs ++ at_level j (e ∷ ys)) head

  abbrev pub AllStored : Skiplist V → List (Entry V) → Type ℓ
  AllStored l = All (λ x. l.node x.addr ≡ some x.node)

  module _ (xs ys : List (Entry V)) (e : Entry V) (gap : Gap xs ys e) where
    Out-level :
        (a : Ptr) (i : ℕ) → Out a (addrs (xs ++ ys)) → Out a (at_level i xs ++ at_level i ys)
    Out-level a i o = subst (Out a) (at_level-append i xs ys) (Out-at_level a i (xs ++ ys) o)

    Distinct-level : (i : ℕ) → Distinct (at_level i xs ++ at_level i ys)
    Distinct-level i =
        subst Distinct (at_level-append i xs ys) (Distinct-at_level i (xs ++ ys) gap.apart)

    sided :
        (l : Skiplist V) (i : ℕ) (b : Bool) (zs : List (Entry V))
        → AllStored l zs
        → All (λ x. leb_ℤ e.node.key x.node.key ≡ b) zs
        → All (Sided l i e.node.key b) (at_level i zs)
    sided l i b [] st side = tt
    sided l i b (z ∷ zs) st side = elim (Bool-cases (ltb i z.node.level)) [
      | inl high ↦ rw high ((z.node, st.0, side.0), sided l i b zs st.1 side.1)
      | inr low ↦ rw low (sided l i b zs st.1 side.1)
    ]

    end-Out : (i : ℕ) (end : Ptr) → (end ≡ head) ⊎ In end (at_level i ys) → Out end (at_level i xs)
    end-Out i end (inl at) =
        subst (λ a. Out a (at_level i xs)) (sym at)
          (Out-append_left head (at_level i xs) (at_level i ys) (Out-level head i gap.headless))
    end-Out i end (inr m) = Out-of_In end (at_level i xs) (at_level i ys) (Distinct-level i) m

    -- The links of level `i` after its round.
    linked : Skiplist V → ℕ → Skiplist V
    linked l i =
        if ltb i e.node.level
        then list_add l i e.addr (last_or head (at_level i xs)) (first_or head (at_level i ys))
        else l

    round_lem :
        (fuel i : ℕ) (l : Skiplist V) (pos end : Ptr)
        → AllStored l xs
        → AllStored l ys
        → Old xs ys l i
        → (pos ≡ head) ⊎ In pos (at_level i xs)
        → (end ≡ head) ⊎ In end (at_level i ys)
        → length xs < fuel
        → insert_levels fuel (suc i) l e.addr e.node.level e.node.key pos end
          ≡ insert_levels fuel i
              (linked l i)
              e.addr
              e.node.level
              e.node.key
              (last_or head (at_level i xs))
              (first_or head (at_level i ys))
    unfolding insert_levels linked
    round_lem fuel i l pos end sx sy old at_pos at_end enough = rw (
      search_from l i e.node.key fuel head pos end (at_level i xs) (at_level i ys) old
          (sided l i false xs sx gap.below) (sided l i true ys sy gap.above) (end-Out i end at_end)
          at_end at_pos (omega (arith, length-at_level i xs)),
      insert_levels,
      (Chain-ends (l.next i) (l.prev i) head head (at_level i xs) (at_level i ys) old).1,
    )

    linked_self : (i : ℕ) (l : Skiplist V) → Old xs ys l i → New xs ys e (linked l i) i
    unfolding linked list_add
    linked_self i l old = elim (Bool-cases (ltb i e.node.level)) [
      | inl high ↦
          rw (high, ==_refl i)
            (add-Chain (l.next i) (l.prev i) e.addr head head (at_level i xs) (at_level i ys)
              gap.not_head gap.not_head (Out-level e.addr i gap.fresh)
              (Out-level head i gap.headless) (Out-level head i gap.headless) (Distinct-level i)
              old)
      | inr low ↦ rw low old
    ]

    -- The round of level `i` leaves the other levels alone.
    linked_other :
        (i j : ℕ) (l : Skiplist V) (zs : List Ptr)
        → j ≢ i
        → Chain (l.next j) (l.prev j) head zs head
        → Chain ((linked l i).next j) ((linked l i).prev j) head zs head
    unfolding linked list_add
    linked_other i j l zs ne c = elim (Bool-cases (ltb i e.node.level)) [
      | inl high ↦ rw (high, ==_ne j i ne) c
      | inr low ↦ rw low c
    ]

    linked-node : (i : ℕ) (l : Skiplist V) → (linked l i).node ≡ l.node
    unfolding linked list_add
    linked-node i l = ground arith

    linked-level : (i : ℕ) (l : Skiplist V) → (linked l i).level ≡ l.level
    unfolding linked list_add
    linked-level i l = ground arith

    linked-count : (i : ℕ) (l : Skiplist V) → (linked l i).count ≡ l.count
    unfolding linked list_add
    linked-count i l = ground arith

    AllStored-linked :
        (i : ℕ) (l : Skiplist V) (zs : List (Entry V)) → AllStored l zs → AllStored (linked l i) zs
    AllStored-linked i l zs st =
        subst (λ f. All (λ x. f x.addr ≡ some x.node) zs) (sym (linked-node i l)) st

    linked-New :
        (i j : ℕ) (l : Skiplist V)
        → i ≤ j
        → Old xs ys l i
        → (suc i ≤ j → New xs ys e l j)
        → New xs ys e (linked l i) j
    linked-New i j l h old new = elim (ℕ_discrete j i) [
      | yes same ↦ subst (New xs ys e (linked l i)) (sym same) (linked_self i l old)
      | no ne ↦ linked_other i j l _ ne (new (omega arith))
    ]

    In-down :
        (a : Ptr) (i : ℕ) (zs : List (Entry V))
        → (a ≡ head) ⊎ In a (at_level (suc i) zs)
        → (a ≡ head) ⊎ In a (at_level i zs)
    In-down a i zs (inl at) = inl at
    In-down a i zs (inr m) = inr (In-at_level_down a i zs m)

    -- The loop from level `i - 1` down.
    pub levels_lem :
        (fuel i : ℕ) (l : Skiplist V) (pos end : Ptr)
        → AllStored l xs
        → AllStored l ys
        → ((j : ℕ) → j < i → Old xs ys l j)
        → ((j : ℕ) → i ≤ j → New xs ys e l j)
        → (pos ≡ head) ⊎ In pos (at_level i xs)
        → (end ≡ head) ⊎ In end (at_level i ys)
        → length xs < fuel
        → (l' : Skiplist V) × (insert_levels fuel i l e.addr e.node.level e.node.key pos end
            ≡ some l')
          × ((j : ℕ) → New xs ys e l' j)
          × (l'.node ≡ l.node)
          × (l'.level ≡ l.level)
          × (l'.count ≡ l.count)
    unfolding insert_levels
    levels_lem fuel zero l pos end sx sy old new at_pos at_end enough =
        (l, refl, λ j. new j (omega arith), refl, refl, refl)
    levels_lem fuel (suc i) l pos end sx sy old new at_pos at_end enough =
        let (l', runs, links, nodes, levels, counts) =
          levels_lem fuel i (linked l i) _ _ (AllStored-linked i l xs sx)
            (AllStored-linked i l ys sy)
            (λ j h. linked_other i j l _ (omega arith) (old j (omega arith)))
            (λ j h. linked-New i j l h (old i (omega arith)) (new j))
            (last_or-In head (at_level i xs)) (first_or-In head (at_level i ys)) enough in
        (
          l',
          round_lem fuel i l pos end sx sy (old i (omega arith)) (In-down pos i xs at_pos)
                (In-down end i ys at_end) enough
              ∙ runs,
          links,
          nodes ∙ linked-node i l,
          levels ∙ linked-level i l,
          counts ∙ linked-count i l,
        )
