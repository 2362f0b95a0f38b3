-- ===== src/Skiplist/Entries.antt =====
-- What a skip list stands for: its nodes in the order of level 0, each with its address. On level
-- `i` the links run through the nodes that are higher than `i`.
use m_net.Base.{
  ℕ, suc, ◌≤◌, ◌<◌, ◌≡◌, refl, ◌⊎◌, inl, inr, true, false, some, List, [], ◌∷◌, ◌++◌, arith, ◌==◌,
  ltb, if◌then◌else◌, Bool-cases, All, length,
}
use m_net.Base.Int.{ℤ, ◌≤ℤ◌, leb_ℤ}
use m_net.Skiplist.{Ptr, head, max_level, Node, Skiplist}
use m_net.Skiplist.Ring.{Out, Distinct, Chain}

pub record Entry {ℓ} (V : Type ℓ) : Type ℓ where
  pub addr : Ptr
  pub node : Node V

abbrev pub In : Ptr → List Ptr → Type 0
In a [] = ⊥
In a (x ∷ xs) = (a ≡ x) ⊎ In a xs

module _ {ℓ} {V : Type ℓ} where
  abbrev pub at_level : ℕ → List (Entry V) → List Ptr
  at_level i [] = []
  at_level i (e ∷ es) =
      let rest = at_level i es in if ltb i e.node.level then e.addr ∷ rest else rest

  abbrev pub addrs : List (Entry V) → List Ptr
  addrs [] = []
  addrs (e ∷ es) = e.addr ∷ addrs es

  abbrev pub top_level : List (Entry V) → ℕ
  top_level [] = 0
  top_level (e ∷ es) =
      let rest = top_level es in if ltb e.node.level rest then rest else e.node.level

  abbrev pub IsSorted : List (Entry V) → Type 0
  IsSorted [] = Unit {0}
  IsSorted (e ∷ es) = All (λ x. e.node.key ≤ℤ x.node.key) es × IsSorted es

  -- The specification of an insertion: in front of the first node with a key that is not smaller.
  unfoldable pub place : Entry V → List (Entry V) → List (Entry V)
  place e [] = e ∷ []
  place e (x ∷ es) =
      let rest = place e es in if leb_ℤ e.node.key x.node.key then e ∷ x ∷ es else x ∷ rest

  -- The specification of a removal.
  unfoldable pub erase : Ptr → List (Entry V) → List (Entry V)
  erase n [] = []
  erase n (x ∷ es) = let rest = erase n es in if x.addr == n then es else x ∷ rest

  abbrev pub before : ℤ → List (Entry V) → List (Entry V)
  before k [] = []
  before k (x ∷ es) = let rest = before k es in if leb_ℤ k x.node.key then [] else x ∷ rest

  abbrev pub after : ℤ → List (Entry V) → List (Entry V)
  after k [] = []
  after k (x ∷ es) = let rest = after k es in if leb_ℤ k x.node.key then x ∷ es else rest

  pub before-after : (k : ℤ) (es : List (Entry V)) → before k es ++ after k es ≡ es
  before-after k [] = refl
  before-after k (x ∷ es) = ground (arith, before-after k es)

  pub place-split :
      (e : Entry V) (es : List (Entry V))
      → place e es ≡ before e.node.key es ++ e ∷ after e.node.key es
  unfolding place
  place-split e [] = refl
  place-split e (x ∷ es) = ground (arith, place-split e es)

  pub before-All :
      (k : ℤ) (es : List (Entry V)) → All (λ x. leb_ℤ k x.node.key ≡ false) (before k es)
  before-All k [] = tt
  before-All k (x ∷ es) = elim (Bool-cases (leb_ℤ k x.node.key)) [
    | inl stop ↦ rw stop tt
    | inr on ↦ rw on (on, before-All k es)
  ]

  above_of_le :
      (k : ℤ) (x : Entry V) (es : List (Entry V))
      → k ≤ℤ x.node.key
      → All (λ y. x.node.key ≤ℤ y.node.key) es
      → All (λ y. leb_ℤ k y.node.key ≡ true) es
  above_of_le k x [] h s = tt
  above_of_le k x (y ∷ es) h s = (ground (arith, s.0), above_of_le k x es h s.1)

  pub after-All :
      (k : ℤ) (es : List (Entry V))
      → IsSorted es
      → All (λ x. leb_ℤ k x.node.key ≡ true) (after k es)
  after-All k [] s = tt
  after-All k (x ∷ es) s = elim (Bool-cases (leb_ℤ k x.node.key)) [
    | inl stop ↦ rw stop (stop, above_of_le k x es (ground (arith, stop)) s.0)
    | inr on ↦ rw on (after-All k es s.1)
  ]

  pub at_level-append :
      (i : ℕ) (xs ys : List (Entry V)) → at_level i (xs ++ ys) ≡ at_level i xs ++ at_level i ys
  at_level-append i [] ys = refl
  at_level-append i (x ∷ xs) ys = ground (arith, at_level-append i xs ys)

  -- A node of a level is on the level below too.
  pub In-at_level_down :
      (a : Ptr) (i : ℕ) (es : List (Entry V)) → In a (at_level (suc i) es) → In a (at_level i es)
  In-at_level_down a i [] m = m
  In-at_level_down a i (x ∷ es) m = ground (arith, In-at_level_down a i es)

  pub Out-at_level :
      (a : Ptr) (i : ℕ) (es : List (Entry V)) → Out a (addrs es) → Out a (at_level i es)
  Out-at_level a i [] o = tt
  Out-at_level a i (x ∷ es) o = elim (Bool-cases (ltb i x.node.level)) [
    | inl high ↦ rw high (o.0, Out-at_level a i es o.1)
    | inr low ↦ rw low (Out-at_level a i es o.1)
  ]

  pub Distinct-at_level :
      (i : ℕ) (es : List (Entry V)) → Distinct (addrs es) → Distinct (at_level i es)
  Distinct-at_level i [] d = tt
  Distinct-at_level i (x ∷ es) d = elim (Bool-cases (ltb i x.node.level)) [
    | inl high ↦ rw high (Out-at_level x.addr i es d.0, Distinct-at_level i es d.1)
    | inr low ↦ rw low (Distinct-at_level i es d.1)
  ]

  pub length-at_level : (i : ℕ) (es : List (Entry V)) → length (at_level i es) ≤ length es
  length-at_level i [] = omega arith
  length-at_level i (x ∷ es) = ground (arith, length-at_level i es)

  -- What is true of the nodes is true of those of a level.
  pub All-at_level {κ κ'} :
      {P : Entry V → Type κ} (Q : Ptr → Type κ') (i : ℕ) (es : List (Entry V))
      → ((e : Entry V) → P e → Q e.addr)
      → All P es
      → All Q (at_level i es)
  All-at_level Q i [] f h = tt
  All-at_level Q i (x ∷ es) f h = elim (Bool-cases (ltb i x.node.level)) [
    | inl high ↦ rw high (f x h.0, All-at_level Q i es f h.1)
    | inr low ↦ rw low (All-at_level Q i es f h.1)
  ]

  -- A well-formed skip list with the nodes `es`.
  pub record IsSkiplist (l : Skiplist V) (es : List (Entry V)) : Type ℓ where
    pub rings : (i : ℕ) → Chain (l.next i) (l.prev i) head (at_level i es) head
    pub stored : All (λ e. l.node e.addr ≡ some e.node) es
    pub apart : Distinct (addrs es)
    pub headless : Out head (addrs es)
    pub sorted : IsSorted es
    pub counted : l.count ≡ length es
    pub heights : All (λ e. (0 < e.node.level) × (e.node.level ≤ max_level)) es
    pub top : (l.level ≡ top_level es) ⊎ ((es ≡ []) × (l.level ≡ 1))
