-- ===== src/Skiplist/Examples.antt =====
-- Runs of the skip list, and its theorems at concrete lists.
use m_net.Base.{
  ℕ, ◌≤◌, ◌<◌, ◌≡◌, refl, inl, Option, some, List, [], ◌∷◌, arith, ◌==◌, if◌then◌else◌,
}
use mathlib.Core.Option
use m_net.Base.Int.{pos}
use m_net.Skiplist.{
  Ptr, head, Skiplist, create, insert, insert_levels, search_level, list_add, remove_skipnode,
  random_level, random_loop, is_raised, max_level,
}
use m_net.Skiplist.Entries.{Entry, IsSkiplist, place, erase}
use m_net.Skiplist.Random.{create-IsSkiplist, random_level_bounds}
use m_net.Skiplist.Insert.{insert-place, entry, new_node}
use m_net.Skiplist.Remove.{remove-erase, Removed}

-- Three timers: keys 20, 10 and 20 again, on levels 2, 1 and 3.
three : Option (Skiplist ℕ)
three =
    Option.bind (insert create 5 2 (pos 20) 100)
      λ a. Option.bind (insert a 6 1 (pos 10) 200) λ b. insert b 7 3 (pos 20) 300

shape : Skiplist ℕ → ℕ × ℕ × List Ptr × List Ptr × List Ptr
shape l = (
  l.level,
  l.count,
  l.next 0 head ∷ l.next 0 6 ∷ l.next 0 7 ∷ l.next 0 5 ∷ [],
  l.next 1 head ∷ l.next 1 7 ∷ l.next 1 5 ∷ [],
  l.prev 2 head ∷ l.prev 2 7 ∷ [],
)

three-shape :
    Option.map shape three ≡ some (3, 3, 6 ∷ 7 ∷ 5 ∷ head ∷ [], 7 ∷ 5 ∷ head ∷ [], 7 ∷ head ∷ [])
unfolding three shape create insert insert_levels search_level list_add Option.bind
three-shape = refl

levels_run : random_level (16383 ∷ 65536 ∷ 16384 ∷ []) ≡ some 3
unfolding random_level random_loop is_raised
levels_run = refl

random_level_bounds_example : (0 < 3) × (3 ≤ max_level)
random_level_bounds_example = random_level_bounds (16383 ∷ 65536 ∷ 16384 ∷ []) 3 levels_run

-- The list with one node, at address 5.
abbrev one_entry : List (Entry ℕ)
one_entry = entry create [] 5 2 (pos 20) 100 ∷ []

one : Skiplist ℕ
one =
    (insert-place create [] 5 2 (pos 20) 100 create-IsSkiplist (omega arith) (omega arith) tt
      (omega arith) (omega arith)).0

one-IsSkiplist : IsSkiplist one one_entry
unfolding one place
one-IsSkiplist =
    (insert-place create [] 5 2 (pos 20) 100 create-IsSkiplist (omega arith) (omega arith) tt
      (omega arith) (omega arith)).2

insert-place_example :
    (l' : Skiplist ℕ) × (insert one 7 3 (pos 20) 300 ≡ some l')
    × IsSkiplist l' (place (entry one one_entry 7 3 (pos 20) 300) one_entry)
    × (l'.node
        ≡ (λ p. if p == 7 then some (new_node one one_entry 7 3 (pos 20) 300) else one.node p))
insert-place_example =
    insert-place one one_entry 7 3 (pos 20) 300 one-IsSkiplist (omega arith) (omega arith)
      (omega arith, tt) (omega arith) (omega arith)

remove-erase_example : Removed one (erase 5 one_entry) 5 (remove_skipnode one 5)
remove-erase_example = remove-erase one one_entry 5 one-IsSkiplist (inl refl)
