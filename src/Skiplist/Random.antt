-- ===== src/Skiplist/Random.antt =====
-- `skiplist_create` and `skiplist_random_level`.
use m_net.Base.{
  ℕ, ◌+◌, ◌*◌, ◌^◌, ◌%◌, ◌≤◌, ◌<◌, ◌≡◌, refl, inr, Option, none, some, List, [], ◌∷◌, arith, leb,
  if◌then◌else◌, min,
}
use m_net.Skiplist.{max_level, create, is_raised, random_loop, random_level}
use m_net.Skiplist.Entries.{IsSkiplist}

-- A new list is well formed and holds no node.
pub create-IsSkiplist {ℓ} : {V : Type ℓ} → IsSkiplist {V = V} create []
unfolding create
create-IsSkiplist = record {
  rings = λ i. (refl, refl);
  stored = tt;
  apart = tt;
  headless = tt;
  sorted = tt;
  counted = refl;
  heights = tt;
  top = inr (refl, refl);
}

-- The draws in front of the first that is not raised, if there is one.
pub raises : List ℕ → Option ℕ
raises [] = none
raises (d ∷ ds) =
    let rest = raises ds in
    if leb (d % 65536) 16383 then (elim rest [ none ↦ none | some k ↦ some (k + 1) ]) else some 0

random_loop-raises :
    (ds : List ℕ) (level : ℕ)
    → random_loop ds level ≡ (elim (raises ds) [ none ↦ none | some k ↦ some (level + k) ])
unfolding random_loop raises
random_loop-raises [] level = refl
random_loop-raises (d ∷ ds) level = ground (arith, random_loop-raises ds (level + 1))

-- The random level is one more than the draws below a quarter of the range that come first, cut
-- off at 32; it is missing only when every draw given is one of those.
pub random_level-raises :
    (ds : List ℕ)
    → random_level ds ≡ (elim (raises ds) [ none ↦ none | some k ↦ some (min (k + 1) max_level) ])
unfolding random_level
random_level-raises ds = ground (arith, random_loop-raises ds 1)

-- A random level is usable: at least 1 and at most 32.
pub random_level_bounds :
    (ds : List ℕ) (level : ℕ) → random_level ds ≡ some level → (0 < level) × (level ≤ max_level)
random_level_bounds ds level h = ground (arith, random_level-raises ds)

-- A first draw that is high enough ends the loop at once.
pub random_level_one :
    (draw : ℕ) (ds : List ℕ) → 0xffff ≤ 4 * (draw % 2 ^ 16) → random_level (draw ∷ ds) ≡ some 1
unfolding random_level random_loop is_raised
random_level_one draw ds high = ground (arith, high)
