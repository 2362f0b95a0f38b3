-- ===== src/Skiplist/Remove/Erase.antt =====
-- What a skip list needs of its nodes is kept when one of them goes.
use m_net.Base.{
  ℕ, ◌+◌, ◌≤◌, ◌<◌, ◌≡◌, ◌≢◌, refl, sym, ap, inl, inr, List, [], ◌∷◌, ◌++◌, arith, ◌==◌, ltb,
  if◌then◌else◌, Bool-cases, All, length,
}
use m_net.Base.Int.{◌≤ℤ◌}
use m_net.Skiplist.{Ptr}
use m_net.Skiplist.Ring.{Out, Distinct}
use m_net.Skiplist.Entries.{Entry, In, at_level, addrs, top_level, IsSorted, erase}

module _ {ℓ} {V : Type ℓ} where
  -- The node at `n`, what comes before it and what comes after.
  pub erase-split :
      (n : Ptr) (es : List (Entry V))
      → In n (addrs es)
      → (xs : List (Entry V)) × (e : Entry V) × (ys : List (Entry V)) × (es ≡ xs ++ e ∷ ys)
        × (e.addr ≡ n)
        × (erase n es ≡ xs ++ ys)
  unfolding erase
  erase-split n [] m = absurd m
  erase-split n (x ∷ es) m = elim (Bool-cases (x.addr == n)) [
    | inl hit ↦ ([], x, es, refl, ground (arith, hit), rw hit)
    | inr miss ↦
        let rest : In n (addrs es) = ground (arith, m, miss) in
        let (xs, e, ys, split, at, gone) = erase-split n es rest in
        (x ∷ xs, e, ys, ap (λ r. x ∷ r) split, at, rw miss (ap (λ r. x ∷ r) gone))
  ]

  pub All-middle {κ} :
      (P : Entry V → Type κ) (xs ys : List (Entry V)) (e : Entry V)
      → All P (xs ++ e ∷ ys)
      → All P (xs ++ ys)
  All-middle P [] ys e h = h.1
  All-middle P (x ∷ xs) ys e h = (h.0, All-middle P xs ys e h.1)

  -- What holds of all nodes holds of the one in the middle.
  pub All-at {κ} :
      (P : Entry V → Type κ) (xs ys : List (Entry V)) (e : Entry V) → All P (xs ++ e ∷ ys) → P e
  All-at P [] ys e h = h.0
  All-at P (x ∷ xs) ys e h = All-at P xs ys e h.1

  pub Out-middle :
      (a : Ptr) (xs ys : List (Entry V)) (e : Entry V)
      → Out a (addrs (xs ++ e ∷ ys))
      → Out a (addrs (xs ++ ys)) × (a ≢ e.addr)
  Out-middle a [] ys e o = (o.1, o.0)
  Out-middle a (x ∷ xs) ys e o = let (rest, ne) = Out-middle a xs ys e o.1 in ((o.0, rest), ne)

  pub Distinct-middle :
      (xs ys : List (Entry V)) (e : Entry V)
      → Distinct (addrs (xs ++ e ∷ ys))
      → Distinct (addrs (xs ++ ys)) × Out e.addr (addrs (xs ++ ys))
  Distinct-middle [] ys e d = (d.1, d.0)
  Distinct-middle (x ∷ xs) ys e d =
      let (rest, out) = Distinct-middle xs ys e d.1 in
      let (out_x, ne) = Out-middle x.addr xs ys e d.0 in
      ((out_x, rest), (λ same. ne (sym same), out))

  pub IsSorted-middle :
      (xs ys : List (Entry V)) (e : Entry V) → IsSorted (xs ++ e ∷ ys) → IsSorted (xs ++ ys)
  IsSorted-middle [] ys e s = s.1
  IsSorted-middle (x ∷ xs) ys e s =
      (All-middle (λ y. x.node.key ≤ℤ y.node.key) xs ys e s.0, IsSorted-middle xs ys e s.1)

  pub length-middle :
      (xs ys : List (Entry V)) (e : Entry V) → length (xs ++ e ∷ ys) ≡ length (xs ++ ys) + 1
  length-middle [] ys e = omega arith
  length-middle (x ∷ xs) ys e = omega (arith, length-middle xs ys e)

  pub top_level-middle :
      (xs ys : List (Entry V)) (e : Entry V)
      → top_level (xs ++ e ∷ ys)
        ≡ (if ltb e.node.level (top_level (xs ++ ys)) then top_level (xs ++ ys) else e.node.level)
  top_level-middle [] ys e = refl
  top_level-middle (x ∷ xs) ys e = ground (arith, top_level-middle xs ys e)

  -- A level is empty exactly from the height of the highest node on.
  pub at_level-nil : (i : ℕ) (es : List (Entry V)) → top_level es ≤ i → at_level i es ≡ []
  at_level-nil i [] h = refl
  at_level-nil i (x ∷ es) h = ground (arith, at_level-nil i es)

  pub at_level-cons :
      (i : ℕ) (es : List (Entry V))
      → i < top_level es
      → (z : Ptr) × (zs : List Ptr) × (at_level i es ≡ z ∷ zs)
  at_level-cons i [] h = absurd (omega arith)
  at_level-cons i (x ∷ es) h = elim (Bool-cases (ltb i x.node.level)) [
    | inl high ↦ (x.addr, at_level i es, rw high)
    | inr low ↦ let (z, zs, e) = at_level-cons i es (ground (arith, low)) in (z, zs, rw low e)
  ]
