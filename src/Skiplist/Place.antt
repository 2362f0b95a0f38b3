-- ===== src/Skiplist/Place.antt =====
-- The specification of an insertion, `place`, keeps what a skip list needs of its nodes.
use m_net.Base.{
  ◌+◌, ◌≤◌, ◌≡◌, ◌≢◌, refl, sym, inl, inr, List, [], ◌∷◌, arith, ltb, if◌then◌else◌, Bool-cases,
  All, length,
}
use m_net.Base.Int.{◌≤ℤ◌, leb_ℤ}
use m_net.Skiplist.{Ptr}
use m_net.Skiplist.Ring.{Out, Distinct}
use m_net.Skiplist.Entries.{Entry, addrs, top_level, IsSorted, place, before}

module _ {ℓ} {V : Type ℓ} (e : Entry V) where
  pub All-place {κ} :
      (P : Entry V → Type κ) (es : List (Entry V)) → All P es → P e → All P (place e es)
  unfolding place
  All-place P [] h p = (p, tt)
  All-place P (x ∷ es) h p = elim (Bool-cases (leb_ℤ e.node.key x.node.key)) [
    | inl stop ↦ rw stop (p, h)
    | inr on ↦ rw on (h.0, All-place P es h.1 p)
  ]

  pub Out-place :
      (a : Ptr) (es : List (Entry V)) → Out a (addrs es) → a ≢ e.addr → Out a (addrs (place e es))
  unfolding place
  Out-place a [] o ne = (ne, tt)
  Out-place a (x ∷ es) o ne = elim (Bool-cases (leb_ℤ e.node.key x.node.key)) [
    | inl stop ↦ rw stop (ne, o)
    | inr on ↦ rw on (o.0, Out-place a es o.1 ne)
  ]

  pub Distinct-place :
      (es : List (Entry V))
      → Distinct (addrs es)
      → Out e.addr (addrs es)
      → Distinct (addrs (place e es))
  unfolding place
  Distinct-place [] d o = (tt, tt)
  Distinct-place (x ∷ es) d o = elim (Bool-cases (leb_ℤ e.node.key x.node.key)) [
    | inl stop ↦ rw stop (o, d)
    | inr on ↦ rw on (Out-place x.addr es d.0 (λ same. o.0 (sym same)), Distinct-place es d.1 o.1)
  ]

  All-le_trans :
      (x : Entry V) (es : List (Entry V))
      → e.node.key ≤ℤ x.node.key
      → All (λ y. x.node.key ≤ℤ y.node.key) es
      → All (λ y. e.node.key ≤ℤ y.node.key) es
  All-le_trans x [] h s = tt
  All-le_trans x (y ∷ es) h s = (omega (arith, s.0), All-le_trans x es h s.1)

  pub place-IsSorted : (es : List (Entry V)) → IsSorted es → IsSorted (place e es)
  unfolding place
  place-IsSorted [] s = (tt, tt)
  place-IsSorted (x ∷ es) s = elim (Bool-cases (leb_ℤ e.node.key x.node.key)) [
    | inl stop ↦
        let le : e.node.key ≤ℤ x.node.key = ground (arith, stop) in
        rw stop ((le, All-le_trans x es le s.0), s)
    | inr on ↦ rw on (All-place _ es s.0 (ground (arith, on)), place-IsSorted es s.1)
  ]

  pub length-place : (es : List (Entry V)) → length (place e es) ≡ length es + 1
  unfolding place
  length-place [] = refl
  length-place (x ∷ es) = ground (arith, length-place es)

  pub top_level-place :
      (es : List (Entry V))
      → top_level (place e es)
        ≡ (if ltb (top_level es) e.node.level then e.node.level else top_level es)
  unfolding place
  top_level-place [] = ground arith
  top_level-place (x ∷ es) = ground (arith, top_level-place es)

pub length-before {ℓ} :
    {V : Type ℓ} (e : Entry V) (es : List (Entry V)) → length (before e.node.key es) ≤ length es
length-before e [] = omega arith
length-before e (x ∷ es) = ground (arith, length-before e es)
