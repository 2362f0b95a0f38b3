-- ===== src/Skiplist/Search.antt =====
-- The inner loop of `skiplist_insert` finds the place of a key on one level.
use m_net.Base.{
  ℕ, zero, suc, ◌<◌, ◌≡◌, ◌≢◌, refl, sym, ap, ◌∙◌, ◌⊎◌, inl, inr, Bool, true, false, some, List, [],
  ◌∷◌, ◌++◌, arith, ◌==◌, Bool-cases, All, length,
}
use m_net.Base.Int.{ℤ, leb_ℤ}
use m_net.Skiplist.{Ptr, head, Node, Skiplist, search_level}
use m_net.Skiplist.Ring.{Out, Chain, first_or, last_or}
use m_net.Skiplist.Entries.{In}

module _ {ℓ} {V : Type ℓ} (l : Skiplist V) (i : ℕ) (key : ℤ) where
  -- The node at `a` has a smaller key, or one that is not smaller.
  abbrev pub Sided : Bool → Ptr → Type ℓ
  Sided b a = (nd : Node V) × (l.node a ≡ some nd) × (leb_ℤ key nd.key ≡ b)

  -- One round of the loop.
  meet : (fuel : ℕ) (pos end : Ptr) → pos ≡ end → search_level (suc fuel) l i pos end key ≡ some end
  unfolding search_level
  meet fuel pos end e = ground arith

  stop :
      (fuel : ℕ) (pos end : Ptr)
      → pos ≢ end
      → Sided true pos
      → search_level (suc fuel) l i pos end key ≡ some pos
  unfolding search_level
  stop fuel pos end ne above = ground (arith, above.1, above.2)

  go_on :
      (fuel : ℕ) (pos end : Ptr)
      → pos ≢ end
      → Sided false pos
      → search_level (suc fuel) l i pos end key ≡ search_level fuel l i (l.next i pos) end key
  unfolding search_level
  go_on fuel pos end ne below = ground (arith, below.1, below.2)

  search_nil :
      (fuel : ℕ) (p end : Ptr) (ys : List Ptr)
      → Chain (l.next i) (l.prev i) p ys head
      → All (Sided true) ys
      → (end ≡ head) ⊎ In end ys
      → search_level (suc fuel) l i (l.next i p) end key ≡ some (first_or head ys)
  search_nil fuel p end [] c above (inl e) = meet fuel (l.next i p) end (c.0 ∙ sym e) ∙ ap some e
  search_nil fuel p end [] c above (inr e) = absurd e
  search_nil fuel p end (b ∷ ys) c above e = elim (Bool-cases (b == end)) [
    | inl met ↦
        let same : b ≡ end = ground (arith, met) in
        rw c.0 (meet fuel b end same ∙ ap some (sym same))
    | inr past ↦ rw c.0 (stop fuel b end (ground (arith, past)) above.0)
  ]

  -- From the start of a chain.
  pub search_lem :
      (fuel : ℕ) (p end : Ptr) (xs ys : List Ptr)
      → Chain (l.next i) (l.prev i) p (xs ++ ys) head
      → All (Sided false) xs
      → All (Sided true) ys
      → Out end xs
      → (end ≡ head) ⊎ In end ys
      → length xs < fuel
      → search_level fuel l i (l.next i p) end key ≡ some (first_or head ys)
  search_lem zero p end xs ys c below above o e enough = absurd (omega arith)
  search_lem (suc fuel) p end [] ys c below above o e enough = search_nil fuel p end ys c above e
  search_lem (suc fuel) p end (a ∷ xs) ys c below above o e enough = rw c.0 (
      go_on fuel a end (λ same. o.0 (sym same)) below.0
      ∙ search_lem fuel a end xs ys c.2 below.1 above o.1 e (omega arith))

  -- From any node of the first part.
  pub search_from :
      (fuel : ℕ) (q pos end : Ptr) (xs ys : List Ptr)
      → Chain (l.next i) (l.prev i) q (xs ++ ys) head
      → All (Sided false) xs
      → All (Sided true) ys
      → Out end xs
      → (end ≡ head) ⊎ In end ys
      → (pos ≡ q) ⊎ In pos xs
      → length xs < fuel
      → search_level fuel l i (l.next i pos) end key ≡ some (first_or head ys)
  search_from fuel q pos end xs ys c below above o e (inl at) enough =
      rw at (search_lem fuel q end xs ys c below above o e enough)
  search_from fuel q pos end [] ys c below above o e (inr at) enough = absurd at
  search_from fuel q pos end (a ∷ xs) ys c below above o e (inr at) enough =
      search_from fuel a pos end xs ys c.2 below.1 above o.1 e at (omega arith)

-- Where the loop stops, and the node before it, for the level below.
pub first_or-In : (q : Ptr) (ys : List Ptr) → (first_or q ys ≡ q) ⊎ In (first_or q ys) ys
first_or-In q [] = inl refl
first_or-In q (b ∷ ys) = inr (inl refl)

pub last_or-In : (p : Ptr) (xs : List Ptr) → (last_or p xs ≡ p) ⊎ In (last_or p xs) xs
last_or-In p [] = inl refl
last_or-In p (a ∷ xs) = inr (last_or-In a xs)
