-- ===== src/Skiplist.antt =====
-- The skip list of src/mnet_core.c that orders the timers: skiplist_t, skipnode_t, struct sk_link
-- and the functions on them. The links live on an explicit store: `next i p` and `prev i p` are the
-- fields of `link[i]` of the node at address `p`, and `node p` is what is allocated there. `none`
-- is a read of a node that is not allocated, or fuel that has run out.
pub mod Ring
pub mod Entries
pub mod Place
pub mod Search
pub mod Insert
pub mod Remove
pub mod Random
pub mod Destroy
mod Examples
use m_net.Base.{
  ℕ, zero, suc, ◌+◌, ◌-◌, ◌*◌, Option, none, some, List, [], ◌∷◌, ◌==◌, ltb, if◌then◌else◌, ◌%◌,
  ◌^◌, Bool,
}
use m_net.Base.Int.{ℤ, leb_ℤ}

abbrev pub Ptr : Type 0
Ptr = ℕ

-- NULL, and the address of the `head` links of the list.
abbrev pub null : Ptr
null = 0

abbrev pub head : Ptr
head = 1

abbrev pub max_level : ℕ
max_level = 32

pub record Node {ℓ} (V : Type ℓ) : Type ℓ where
  pub key : ℤ
  pub value : V
  pub level : ℕ

pub record Skiplist {ℓ} (V : Type ℓ) : Type ℓ where
  pub level : ℕ
  pub count : ℕ
  pub next : ℕ → Ptr → Ptr
  pub prev : ℕ → Ptr → Ptr
  pub node : Ptr → Option (Node V)

-- A write to one link field, and to the links of one level.
abbrev pub set : (Ptr → Ptr) → Ptr → Ptr → Ptr → Ptr
set f p v q = if q == p then v else f q

abbrev pub set_level : (ℕ → Ptr → Ptr) → ℕ → (Ptr → Ptr) → ℕ → Ptr → Ptr
set_level f i g j = if j == i then g else f j

-- The four writes of `__list_add` and the four of `list_del`, on the links of one level.
abbrev pub add_next : (Ptr → Ptr) → Ptr → Ptr → Ptr → Ptr → Ptr
add_next nx n p q = set (set nx n q) p n

abbrev pub add_prev : (Ptr → Ptr) → Ptr → Ptr → Ptr → Ptr → Ptr
add_prev pv n p q = set (set pv n p) q n

abbrev pub del_next : (Ptr → Ptr) → Ptr → Ptr → Ptr → Ptr → Ptr
del_next nx n p q = set (set nx p q) n n

abbrev pub del_prev : (Ptr → Ptr) → Ptr → Ptr → Ptr → Ptr → Ptr
del_prev pv n p q = set (set pv q p) n n

-- `rand() & 0xffff` is below a quarter of 0xffff.
is_raised : ℕ → Bool
is_raised draw = ltb (4 * (draw % 2 ^ 16)) 0xffff

-- The loop of `skiplist_random_level` over the results of `rand`, which are data; `none` when they
-- run out before the loop ends.
pub random_loop : List ℕ → ℕ → Option ℕ
unfolding is_raised
random_loop [] level = none
random_loop (draw ∷ draws) level =
    let rest = random_loop draws (level + 1) in if is_raised draw then rest else some level

pub random_level : List ℕ → Option ℕ
unfolding random_loop
random_level draws = elim (random_loop draws 1) [
  | none ↦ none
  | some level ↦ some (if ltb max_level level then max_level else level)
]

module _ {ℓ} {V : Type ℓ} where
  -- Every head link is linked to itself.
  pub create : Skiplist V
  create = record { level = 1; count = 0; next = λ _ _. head; prev = λ _ _. head; node = λ _. none }

  pub list_add : Skiplist V → ℕ → Ptr → Ptr → Ptr → Skiplist V
  list_add l i n p q = record l {
    next = set_level l.next i (add_next (l.next i) n p q);
    prev = set_level l.prev i (add_prev (l.prev i) n p q);
  }

  pub list_del : Skiplist V → ℕ → Ptr → Skiplist V
  list_del l i n = record l {
    next = set_level l.next i (del_next (l.next i) n (l.prev i n) (l.next i n));
    prev = set_level l.prev i (del_prev (l.prev i) n (l.prev i n) (l.next i n));
  }

  pub list_empty : Skiplist V → ℕ → Bool
  list_empty l i = l.next i head == head

  -- The inner loop of `skiplist_insert` on level `i`: the first node up to `end` whose key is at
  -- least `key`, or `end`.
  pub search_level : ℕ → Skiplist V → ℕ → Ptr → Ptr → ℤ → Option Ptr
  search_level zero l i pos end key = none
  search_level (suc fuel) l i pos end key = if pos == end then some end else (elim (l.node pos) [
    | none ↦ none
    | some nd ↦
        let rest = search_level fuel l i (l.next i pos) end key in
        if leb_ℤ key nd.key then some pos else rest
  ])

  -- The outer loop, from level `i - 1` down: `pos` and `end` go down the levels with it.
  pub insert_levels : ℕ → ℕ → Skiplist V → Ptr → ℕ → ℤ → Ptr → Ptr → Option (Skiplist V)
  insert_levels fuel zero l n level key pos end = some l
  insert_levels fuel (suc i) l n level key pos end =
      elim (search_level fuel l i (l.next i pos) end key) [
        | none ↦ none
        | some end' ↦
            let pos' = l.prev i end' in
            insert_levels fuel i (if ltb i level then list_add l i n pos' end' else l) n level key
              pos' end'
      ]

  -- `n` is the address of the new node, NULL if there is none, and `level` the random level.
  pub insert : Skiplist V → Ptr → ℕ → ℤ → V → Option (Skiplist V)
  insert l n level key value =
      let top = if ltb l.level level then level else l.level in
      let nd : Node V = record { key = key; value = value; level = level } in
      let l' = record l { level = top; node = λ p. if p == n then some nd else l.node p } in
      if n == null
      then some (record l { level = top })
      else (elim (insert_levels (l.count + 1) top l' n level key head head) [
        | none ↦ none
        | some l'' ↦ some (record l'' { count = l''.count + 1 })
      ])

  -- The loop of `skiplist_remove_skipnode`, from level `i` up, `k` levels to go.
  pub remove_levels : ℕ → ℕ → Skiplist V → Ptr → Skiplist V
  remove_levels zero i l n = l
  remove_levels (suc k) i l n =
      let l' = list_del l i n in
      remove_levels k (suc i)
        (record l' { level = if list_empty l' i then l'.level - 1 else l'.level }) n

  pub remove_skipnode : Skiplist V → Ptr → Option (Skiplist V)
  remove_skipnode l n = elim (l.node n) [
    | none ↦ none
    | some nd ↦
        let l' = remove_levels nd.level 0 l n in
        some (record l' { node = λ p. if p == n then none else l'.node p; count = l'.count - 1 })
  ]

  -- The loop of `skiplist_destroy` from the node at `pos`, whose next link is read before it is freed.
  pub destroy_loop : ℕ → Skiplist V → Ptr → Option (Skiplist V)
  destroy_loop zero l pos = none
  destroy_loop (suc fuel) l pos = if pos == head then some l else (elim (l.node pos) [
    | none ↦ none
    | some _ ↦
        destroy_loop fuel (record l { node = λ p. if p == pos then none else l.node p })
          (l.next 0 pos)
  ])

  -- A round frees a node. The memory of the list itself is no part of the store.
  pub destroy : Skiplist V → Option (Skiplist V)
  destroy l = destroy_loop (l.count + 1) l (l.next 0 head)
