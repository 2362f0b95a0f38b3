-- ===== src/Skiplist/Ring.antt =====
-- Doubly linked chains of nodes on one level, and what the writes of `__list_add` and `list_del` do
-- to them.
use m_net.Base.{◌≡◌, ◌≢◌, sym, ◌∙◌, List, [], ◌∷◌, ◌++◌, arith, All}
use m_net.Skiplist.{Ptr, add_next, add_prev, del_next, del_prev}

-- `a` is none of `xs`.
abbrev pub Out : Ptr → List Ptr → Type 0
Out a = All (λ x. a ≢ x)

abbrev pub Distinct : List Ptr → Type 0
Distinct [] = Unit {0}
Distinct (x ∷ xs) = Out x xs × Distinct xs

abbrev pub last_or : Ptr → List Ptr → Ptr
last_or p [] = p
last_or p (x ∷ xs) = last_or x xs

abbrev pub first_or : Ptr → List Ptr → Ptr
first_or q [] = q
first_or q (x ∷ xs) = x

-- From `p` the next links lead through `xs` to `q`, and the previous links back.
abbrev pub Chain : (Ptr → Ptr) → (Ptr → Ptr) → Ptr → List Ptr → Ptr → Type 0
Chain nx pv p [] q = (nx p ≡ q) × (pv q ≡ p)
Chain nx pv p (x ∷ xs) q = (nx p ≡ x) × (pv x ≡ p) × Chain nx pv x xs q

module _ (nx pv : Ptr → Ptr) where
  -- The neighbours at the place where two parts of a chain meet.
  pub Chain-ends :
      (p q : Ptr) (xs ys : List Ptr)
      → Chain nx pv p (xs ++ ys) q
      → (nx (last_or p xs) ≡ first_or q ys) × (pv (first_or q ys) ≡ last_or p xs)
  Chain-ends p q [] [] c = c
  Chain-ends p q [] (y ∷ ys) c = (c.0, c.1)
  Chain-ends p q (x ∷ xs) ys c = Chain-ends x q xs ys c.2

  pub Chain-last :
      (p q : Ptr) (xs ys : List Ptr) → Chain nx pv p (xs ++ ys) q → Chain nx pv (last_or p xs) ys q
  Chain-last p q [] ys c = c
  Chain-last p q (x ∷ xs) ys c = Chain-last x q xs ys c.2

-- Links that agree on the nodes of a chain carry it over.
pub Chain-frame :
    (nx pv nx' pv' : Ptr → Ptr) (p q : Ptr) (xs : List Ptr)
    → nx' p ≡ nx p
    → pv' q ≡ pv q
    → All (λ x. (nx' x ≡ nx x) × (pv' x ≡ pv x)) xs
    → Chain nx pv p xs q
    → Chain nx' pv' p xs q
Chain-frame nx pv nx' pv' p q [] e f same c = (e ∙ c.0, f ∙ c.1)
Chain-frame nx pv nx' pv' p q (x ∷ xs) e f same c =
    (e ∙ c.0, same.0.1 ∙ c.1, Chain-frame nx pv nx' pv' x q xs same.0.0 f same.1 c.2)

pub All-Out {κ} :
    {P : Ptr → Type κ} (n p q : Ptr) (xs : List Ptr)
    → Out n xs
    → Out p xs
    → Out q xs
    → ((x : Ptr) → n ≢ x → p ≢ x → q ≢ x → P x)
    → All P xs
All-Out n p q [] a b c f = tt
All-Out n p q (x ∷ xs) a b c f = (f x a.0 b.0 c.0, All-Out n p q xs a.1 b.1 c.1 f)

Out-last : (a x : Ptr) (xs ys : List Ptr) → a ≢ x → Out a (xs ++ ys) → a ≢ last_or x xs
Out-last a x [] ys e o = e
Out-last a x (y ∷ xs) ys e o = Out-last a y xs ys o.0 o.1

Out-first : (a q : Ptr) (xs ys : List Ptr) → a ≢ q → Out a (xs ++ ys) → a ≢ first_or q ys
Out-first a q [] [] e o = e
Out-first a q [] (y ∷ ys) e o = o.0
Out-first a q (x ∷ xs) ys e o = Out-first a q xs ys e o.1

module _ (nx pv : Ptr → Ptr) (n : Ptr) where
  -- `__list_add` right behind `p`.
  add_front :
      (p q : Ptr) (ys : List Ptr)
      → n ≢ p
      → n ≢ q
      → Out n ys
      → Out p ys
      → Out q ys
      → Distinct ys
      → Chain nx pv p ys q
      → Chain (add_next nx n p (first_or q ys)) (add_prev pv n p (first_or q ys)) p (n ∷ ys) q
  add_front p q [] np nq ny py qy d c = ground arith
  add_front p q (y ∷ ys) np nq ny py qy d c = (
    ground arith,
    ground arith,
    (
      ground arith,
      ground arith,
      Chain-frame nx pv _ _ y q ys (ground (arith, ny.0, py.0)) (ground (arith, qy.0))
          (All-Out n p y ys ny.1 py.1 d.0 λ x a b e. (ground arith, ground arith)) c.2,
    ),
  )

  -- `__list_add` between two parts of a chain.
  pub add-Chain :
      (p q : Ptr) (xs ys : List Ptr)
      → n ≢ p
      → n ≢ q
      → Out n (xs ++ ys)
      → Out p (xs ++ ys)
      → Out q (xs ++ ys)
      → Distinct (xs ++ ys)
      → Chain nx pv p (xs ++ ys) q
      → Chain
          (add_next nx n (last_or p xs) (first_or q ys))
          (add_prev pv n (last_or p xs) (first_or q ys))
          p
          (xs ++ n ∷ ys)
          q
  add-Chain p q [] ys np nq on po qo d c = add_front p q ys np nq on po qo d c
  add-Chain p q (x ∷ xs) ys np nq on po qo d c = (
    ground (arith, Out-last p x xs ys po.0 po.1),
    ground (arith, Out-first x q xs ys (λ e. qo.0 (sym e)) d.0, on.0),
    add-Chain x q xs ys on.0 nq on.1 d.0 qo.1 d.1 c.2,
  )

  del_front :
      (p q : Ptr) (ys : List Ptr)
      → n ≢ p
      → n ≢ q
      → Out n ys
      → Out p ys
      → Out q ys
      → Distinct ys
      → Chain nx pv p (n ∷ ys) q
      → Chain (del_next nx n p (first_or q ys)) (del_prev pv n p (first_or q ys)) p ys q
  del_front p q [] np nq ny py qy d c = ground arith
  del_front p q (y ∷ ys) np nq ny py qy d c = (
    ground arith,
    ground arith,
    Chain-frame nx pv _ _ y q ys (ground (arith, ny.0, py.0)) (ground (arith, qy.0))
        (All-Out n p y ys ny.1 py.1 d.0 λ x a b e. (ground arith, ground arith)) c.2.2,
  )

  -- `list_del` of a node between two parts of a chain.
  pub del-Chain :
      (p q : Ptr) (xs ys : List Ptr)
      → n ≢ p
      → n ≢ q
      → Out n (xs ++ ys)
      → Out p (xs ++ ys)
      → Out q (xs ++ ys)
      → Distinct (xs ++ ys)
      → Chain nx pv p (xs ++ n ∷ ys) q
      → Chain
          (del_next nx n (last_or p xs) (first_or q ys))
          (del_prev pv n (last_or p xs) (first_or q ys))
          p
          (xs ++ ys)
          q
  del-Chain p q [] ys np nq on po qo d c = del_front p q ys np nq on po qo d c
  del-Chain p q (x ∷ xs) ys np nq on po qo d c = (
    ground (arith, Out-last p x xs ys po.0 po.1),
    ground (arith, Out-first x q xs ys (λ e. qo.0 (sym e)) d.0, on.0),
    del-Chain x q xs ys on.0 nq on.1 d.0 qo.1 d.1 c.2,
  )

  -- The links of a node in the middle of a chain.
  pub Chain-middle :
      (p q : Ptr) (xs ys : List Ptr)
      → Chain nx pv p (xs ++ n ∷ ys) q
      → (pv n ≡ last_or p xs) × (nx n ≡ first_or q ys)
  Chain-middle p q xs ys c =
      let rest = Chain-last nx pv p q xs (n ∷ ys) c in
      (rest.1, (Chain-ends nx pv n q [] ys rest.2).0)
