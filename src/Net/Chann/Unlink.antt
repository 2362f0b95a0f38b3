-- ===== src/Net/Chann/Unlink.antt =====
-- A channel is taken out of the list of all channels: the links of its neighbours.
use m_net.Base.{
  ◌≡◌, ◌≢◌, refl, sym, ap, subst, ◌∙◌, ◌⊎◌, inl, inr, Option, some, List, [], ◌∷◌, ◌++◌, All,
  All-append_right,
}
use m_net.Skiplist.{Ptr, null}
use m_net.Skiplist.Ring.{Out, Distinct, All-Out}
use m_net.Net.State.{Chann}
use m_net.Net.Chann.Channels.{Linked}

-- `h'` is `h` but for the links of the neighbours of `c`, which is at `n`, and for what is at `n`.
pub record IsSpliced (h h' : Ptr → Option Chann) (n : Ptr) (c : Chann) : Type 0 where
  pub other : (q : Ptr) → q ≢ n → q ≢ c.prev → q ≢ c.next → h' q ≡ h q
  pub before :
      (d : Chann)
      → c.prev ≢ null
      → h c.prev ≡ some d
      → h' c.prev ≡ some (record d { next = c.next })
  pub behind :
      (d : Chann)
      → c.next ≢ null
      → h c.next ≡ some d
      → h' c.next ≡ some (record d { prev = c.prev })

-- The first of a chain when the channel behind `xs` is gone.
abbrev pub start : List Ptr → Ptr → Ptr → Ptr
start [] cur next = next
start (_ ∷ _) cur next = cur

Linked-keep :
    (h h' : Ptr → Option Chann) (p cur : Ptr) (xs : List Ptr)
    → All (λ q. h' q ≡ h q) xs
    → Linked h p cur xs
    → Linked h' p cur xs
Linked-keep h h' p cur [] same l = l
Linked-keep h h' p cur (x ∷ xs) same (e, some_at, (d, there, back, rest)) =
    (e, some_at, (d, same.0 ∙ there, back, Linked-keep h h' x d.next xs same.1 rest))

-- The channel behind it is none that stands elsewhere on the list, and so is the one before it.
next_elsewhere :
    (h : Ptr → Option Chann) (n : Ptr) (c : Chann) (q p cur : Ptr) (xs ys : List Ptr)
    → h n ≡ some c
    → q ≢ null
    → Out q (xs ++ n ∷ ys)
    → Linked h p cur (xs ++ n ∷ ys)
    → q ≢ c.next
next_elsewhere h n c q p cur [] [] there some_q out (e, some_at, (d, at_n, back, rest)) =
    let same : c ≡ d = cc in λ f. some_q (f ∙ ap (λ k. k.next) same ∙ rest)
next_elsewhere h n c q p cur [] (y ∷ ys) there some_q out (e, some_at, (d, at_n, back, rest)) =
    let same : c ≡ d = cc in λ f. out.1.0 (f ∙ ap (λ k. k.next) same ∙ rest.0)
next_elsewhere h n c q p cur (x ∷ xs) ys there some_q out (e, some_at, (d, at_x, back, rest)) =
    next_elsewhere h n c q x d.next xs ys there some_q out.1 rest

prev_elsewhere :
    (h : Ptr → Option Chann) (n : Ptr) (c : Chann) (q p cur : Ptr) (xs ys : List Ptr)
    → h n ≡ some c
    → q ≢ p
    → Out q (xs ++ n ∷ ys)
    → Linked h p cur (xs ++ n ∷ ys)
    → q ≢ c.prev
prev_elsewhere h n c q p cur [] ys there apart out (e, some_at, (d, at_n, back, rest)) =
    let same : c ≡ d = cc in λ f. apart (f ∙ ap (λ k. k.prev) same ∙ back)
prev_elsewhere h n c q p cur (x ∷ xs) ys there apart out (e, some_at, (d, at_x, back, rest)) =
    prev_elsewhere h n c q x d.next xs ys there out.0 out.1 rest

-- What stands behind the channel.
unlink_tail :
    (h h' : Ptr → Option Chann) (n : Ptr) (c : Chann) (ys : List Ptr)
    → IsSpliced h h' n c
    → Distinct (n ∷ ys)
    → Out c.prev ys
    → Linked h n c.next ys
    → Linked h' c.prev c.next ys
unlink_tail h h' n c [] s apart out l = l
unlink_tail h h' n c (y ∷ ys) s apart out (e, some_at, (d, there, back, rest)) =
    let some_next : c.next ≢ null = λ f. some_at (sym e ∙ f) in
    (
      e,
      some_at,
      (
        record d { prev = c.prev },
        ap h' (sym e) ∙ s.behind d some_next (ap h e ∙ there),
        refl,
        Linked-keep h h' y d.next ys
            (All-Out n c.prev y ys apart.0.1 out.1 apart.1.0
              λ q a b f. s.other q (λ k. a (sym k)) (λ k. b (sym k)) (λ k. f (sym (k ∙ e))))
            rest,
      ),
    )

pub Linked-unlink :
    (h h' : Ptr → Option Chann) (n : Ptr) (c : Chann) (p cur : Ptr) (xs ys : List Ptr)
    → IsSpliced h h' n c
    → h n ≡ some c
    → Distinct (xs ++ n ∷ ys)
    → Out p (xs ++ n ∷ ys)
    → Linked h p cur (xs ++ n ∷ ys)
    → Linked h' p (start xs cur c.next) (xs ++ ys)
Linked-unlink h h' n c p cur [] ys s at_n apart out (e, some_at, (d, there, back, rest)) =
    let same : c ≡ d = cc in
    let prev_is : c.prev ≡ p = ap (λ k. k.prev) same ∙ back in
    subst (λ k. Linked h' k c.next ys) prev_is
      (unlink_tail h h' n c ys s apart (subst (λ k. Out k ys) (sym prev_is) out.1)
        (subst (λ k. Linked h n k.next ys) (sym same) rest))
Linked-unlink h h' n c p cur (x ∷ []) ys s at_n apart out (e, some_at, (d, there, back, rest)) =
    let (e_n, some_n, (d_n, there_n, back_n, rest_n)) = rest in
    let same : c ≡ d_n = cc in
    let prev_is : c.prev ≡ x = ap (λ k. k.prev) same ∙ back_n in
    (
      e,
      some_at,
      (
        record d { next = c.next },
        ap h' (sym prev_is) ∙ s.before d (λ f. some_at (sym prev_is ∙ f)) (ap h prev_is ∙ there),
        back,
        Linked-unlink h h' n c x d.next [] ys s at_n apart.1 apart.0 rest,
      ),
    )
Linked-unlink h h' n c p cur (x ∷ z ∷ xs) ys s at_n apart out (e, some_at, (d, there, back, rest)) =
    let (e_z, some_z, (d_z, there_z, back_z, rest_z)) = rest in
    let not_n : x ≢ n = (All-append_right (λ q. x ≢ q) xs (n ∷ ys) apart.0.1).0 in
    let not_prev = prev_elsewhere h n c x z d_z.next xs ys at_n apart.0.0 apart.0.1 rest_z in
    let not_next = next_elsewhere h n c x x d.next (z ∷ xs) ys at_n some_at apart.0 rest in
    (
      e,
      some_at,
      (
        d,
        s.other x not_n not_prev not_next ∙ there,
        back,
        Linked-unlink h h' n c x d.next (z ∷ xs) ys s at_n apart.1 apart.0 rest,
      ),
    )

-- A link of the list is NULL or leads to a channel.
abbrev pub Leads : (Ptr → Option Chann) → Ptr → Type 0
Leads h p = (p ≡ null) ⊎ ((d : Chann) × (h p ≡ some d))

pub next-Leads :
    (h : Ptr → Option Chann) (n : Ptr) (c : Chann) (p cur : Ptr) (xs ys : List Ptr)
    → h n ≡ some c
    → Linked h p cur (xs ++ n ∷ ys)
    → Leads h c.next
next-Leads h n c p cur [] [] there (e, some_at, (d, at_n, back, rest)) =
    let same : c ≡ d = cc in inl (ap (λ k. k.next) same ∙ rest)
next-Leads h n c p cur [] (y ∷ ys) there
      (e, some_at, (d, at_n, back, (e_y, some_y, (d_y, at_y, back_y, more)))) =
    let same : c ≡ d = cc in inr (d_y, ap h (ap (λ k. k.next) same ∙ e_y) ∙ at_y)
next-Leads h n c p cur (x ∷ xs) ys there (e, some_at, (d, at_x, back, rest)) =
    next-Leads h n c x d.next xs ys there rest

pub prev-Leads :
    (h : Ptr → Option Chann) (n : Ptr) (c : Chann) (p cur : Ptr) (xs ys : List Ptr)
    → h n ≡ some c
    → Leads h p
    → Linked h p cur (xs ++ n ∷ ys)
    → Leads h c.prev
prev-Leads h n c p cur [] ys there lead (e, some_at, (d, at_n, back, rest)) =
    let same : c ≡ d = cc in subst (Leads h) (sym (ap (λ k. k.prev) same ∙ back)) lead
prev-Leads h n c p cur (x ∷ xs) ys there lead (e, some_at, (d, at_x, back, rest)) =
    prev-Leads h n c x d.next xs ys there (inr (d, at_x)) rest

-- The channel is not its own neighbour.
pub next_apart :
    (h : Ptr → Option Chann) (n : Ptr) (c : Chann) (p cur : Ptr) (xs ys : List Ptr)
    → h n ≡ some c
    → Distinct (xs ++ n ∷ ys)
    → Linked h p cur (xs ++ n ∷ ys)
    → n ≢ c.next
next_apart h n c p cur [] [] there apart (e, some_at, (d, at_n, back, rest)) =
    let same : c ≡ d = cc in λ f. some_at (f ∙ ap (λ k. k.next) same ∙ rest)
next_apart h n c p cur [] (y ∷ ys) there apart (e, some_at, (d, at_n, back, rest)) =
    let same : c ≡ d = cc in λ f. apart.0.0 (f ∙ ap (λ k. k.next) same ∙ rest.0)
next_apart h n c p cur (x ∷ xs) ys there apart (e, some_at, (d, at_x, back, rest)) =
    next_apart h n c x d.next xs ys there apart.1 rest

pub prev_apart :
    (h : Ptr → Option Chann) (n : Ptr) (c : Chann) (p cur : Ptr) (xs ys : List Ptr)
    → h n ≡ some c
    → Distinct (xs ++ n ∷ ys)
    → n ≢ p
    → Linked h p cur (xs ++ n ∷ ys)
    → n ≢ c.prev
prev_apart h n c p cur [] ys there apart not_p (e, some_at, (d, at_n, back, rest)) =
    let same : c ≡ d = cc in λ f. not_p (f ∙ ap (λ k. k.prev) same ∙ back)
prev_apart h n c p cur (x ∷ xs) ys there apart not_p (e, some_at, (d, at_x, back, rest)) =
    let not_x = (All-append_right (λ q. x ≢ q) xs (n ∷ ys) apart.0).0 in
    prev_apart h n c x d.next xs ys there apart.1 (λ f. not_x (sym f)) rest

-- The neighbours are two channels.
pub sides_apart :
    (h : Ptr → Option Chann) (n : Ptr) (c : Chann) (p cur : Ptr) (xs ys : List Ptr)
    → h n ≡ some c
    → Distinct (xs ++ n ∷ ys)
    → Out p (xs ++ n ∷ ys)
    → Linked h p cur (xs ++ n ∷ ys)
    → c.prev ≢ null
    → c.prev ≢ c.next
sides_apart h n c p cur [] ys there apart out l some_prev =
    let (e, some_at, (d, at_n, back, rest)) = l in
    let same : c ≡ d = cc in
    let prev_is : c.prev ≡ p = ap (λ k. k.prev) same ∙ back in
    λ f.
      next_elsewhere h n c p p cur [] ys there (λ z. some_prev (prev_is ∙ z)) out l
        (sym prev_is ∙ f)
sides_apart h n c p cur (x ∷ xs) ys there apart out (e, some_at, (d, at_x, back, rest)) some_prev =
    sides_apart h n c x d.next xs ys there apart.1 apart.0 rest some_prev

pub Out-null :
    (h : Ptr → Option Chann) (p cur : Ptr) (xs : List Ptr) → Linked h p cur xs → Out null xs
Out-null h p cur [] l = tt
Out-null h p cur (x ∷ xs) (e, some_at, (d, there, back, rest)) =
    ((λ f. some_at (sym f)), Out-null h x d.next xs rest)

-- The channel is first on the list exactly when it has none before it.
pub start-first :
    (h : Ptr → Option Chann) (n : Ptr) (c : Chann) (cur : Ptr) (xs ys : List Ptr)
    → h n ≡ some c
    → Linked h null cur (xs ++ n ∷ ys)
    → c.prev ≡ null
    → start xs cur c.next ≡ c.next
start-first h n c cur [] ys there l first = refl
start-first h n c cur (x ∷ xs) ys there (e, some_at, (d, at_x, back, rest)) first = absurd (
    prev_elsewhere h n c null x d.next xs ys there (λ f. some_at (sym f))
      (Out-null h x d.next (xs ++ n ∷ ys) rest) rest (sym first))

pub start-kept :
    (h : Ptr → Option Chann) (n : Ptr) (c : Chann) (cur : Ptr) (xs ys : List Ptr)
    → h n ≡ some c
    → Linked h null cur (xs ++ n ∷ ys)
    → c.prev ≢ null
    → start xs cur c.next ≡ cur
start-kept h n c cur [] ys there (e, some_at, (d, at_n, back, rest)) not_first =
    let same : c ≡ d = cc in absurd (not_first (ap (λ k. k.prev) same ∙ back))
start-kept h n c cur (x ∷ xs) ys there l not_first = refl

Out-without : (q n : Ptr) (xs ys : List Ptr) → Out q (xs ++ n ∷ ys) → Out q (xs ++ ys)
Out-without q n [] ys o = o.1
Out-without q n (x ∷ xs) ys o = (o.0, Out-without q n xs ys o.1)

pub Distinct-without : (n : Ptr) (xs ys : List Ptr) → Distinct (xs ++ n ∷ ys) → Distinct (xs ++ ys)
Distinct-without n [] ys d = d.1
Distinct-without n (x ∷ xs) ys d = (Out-without x n xs ys d.0, Distinct-without n xs ys d.1)
