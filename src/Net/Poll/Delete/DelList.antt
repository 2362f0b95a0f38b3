-- ===== src/Net/Poll/Delete/DelList.antt =====
-- The list of the channels that are to be destroyed, beside the list of all channels and the clock.
use m_net.Base.{
  ◌+◌, ◌≤◌, ◌≡◌, ◌≢◌, refl, sym, ap, subst, ◌∙◌, inl, inr, Bool-cases, Option, some, List, [], ◌∷◌,
  ◌++◌, arith, ◌==◌, if◌then◌else◌, length, false,
}
use m_net.Skiplist.{Ptr, null, Skiplist}
use m_net.Skiplist.Ring.{Out, Distinct}
use m_net.Skiplist.Entries.{Entry, IsSkiplist, In, addrs, erase}
use m_net.Skiplist.Remove.{remove-erase}
use m_net.Rwb.Contents.{contents, IsQueue}
use m_net.Net.State.{Chann, ChannState, ChannTm}
use m_net.Net.Chann.Destroy.Writes.{killed}

abbrev pub without : Ptr → List Ptr → List Ptr
without n [] = []
without n (x ∷ xs) = let rest = without n xs in if x == n then xs else x ∷ rest

-- A channel that was closed: its address, and the channel but for its links.
pub record Closed : Type 0 where
  pub at : Ptr
  pub chann : Chann

abbrev pub channs_left : List Closed → List Ptr → List Ptr
channs_left [] xs = xs
channs_left (d ∷ ds) xs = channs_left ds (without d.at xs)

-- The clock without the timer of a channel, if it has one.
abbrev pub without_timer : Chann → List (Entry ChannTm) → List (Entry ChannTm)
without_timer c es = if c.timer_node == null then es else erase c.timer_node es

abbrev pub timers_left : List Closed → List (Entry ChannTm) → List (Entry ChannTm)
timers_left [] es = es
timers_left (d ∷ ds) es = timers_left ds (without_timer d.chann es)

-- A closed channel with nothing cached, and with no timer or one of the clock.
pub record IsClosed (c : Chann) (es : List (Entry ChannTm)) : Type 0 where
  pub closed : c.state ≡ ChannState.closed
  pub queue : IsQueue c.rwb_send
  pub sent : contents c.rwb_send ≡ []
  pub timed : ((c.timer_node == null) ≡ false) → In c.timer_node (addrs es)

-- From `cur` the del_next fields lead through the closed channels `ds` to NULL; each is on the list
-- of all channels once those before are gone, and so is its timer.
abbrev pub Retired :
    (Ptr → Option Chann) → Ptr → List Closed → List Ptr → List (Entry ChannTm) → Type 0
Retired h cur [] xs es = cur ≡ null
Retired h cur (d ∷ ds) xs es =
    (cur ≡ d.at)
    × (d.at ≢ null)
    × In d.at xs
    × ((p p' : Ptr) × (h d.at ≡ some (record d.chann { prev = p; next = p' })))
    × IsClosed d.chann es
    × Retired h d.chann.del_next ds (without d.at xs) (without_timer d.chann es)

pub In-split :
    (n : Ptr) (xs : List Ptr)
    → In n xs
    → (as' bs : List Ptr) × (xs ≡ as' ++ n ∷ bs) × (without n xs ≡ as' ++ bs)
In-split n [] m = absurd m
In-split n (x ∷ xs) m = elim (Bool-cases (x == n)) [
  | inl hit ↦ let e : x ≡ n = ground (arith, hit) in ([], xs, ap (λ k. k ∷ xs) e, rw hit refl)
  | inr miss ↦
      let rest : In n xs = ground (arith, m, miss) in
      let (as', bs, split, gone) = In-split n xs rest in
      (x ∷ as', bs, ap (λ r. x ∷ r) split, rw miss (ap (λ r. x ∷ r) gone))
]

Out-without : (a n : Ptr) (xs : List Ptr) → Out a xs → Out a (without n xs)
Out-without a n [] o = tt
Out-without a n (x ∷ xs) o = elim (Bool-cases (x == n)) [
  | inl hit ↦ rw hit o.1
  | inr miss ↦ rw miss (o.0, Out-without a n xs o.1)
]

-- A list of distinct addresses does not hold what is taken out of it.
pub without-Out : (n : Ptr) (xs : List Ptr) → Distinct xs → Out n (without n xs)
without-Out n [] d = tt
without-Out n (x ∷ xs) d = elim (Bool-cases (x == n)) [
  | inl hit ↦ let e : x ≡ n = ground (arith, hit) in rw hit (subst (λ k. Out k xs) e d.0)
  | inr miss ↦ rw miss (ground (arith, miss), without-Out n xs d.1)
]

Out-In : (a b : Ptr) (xs : List Ptr) → Out a xs → In b xs → b ≢ a
Out-In a b [] o m e = m
Out-In a b (x ∷ xs) o (inl h) e = o.0 (sym e ∙ h)
Out-In a b (x ∷ xs) o (inr m) e = Out-In a b xs o.1 m e

length-without : (n : Ptr) (xs : List Ptr) → In n xs → length xs ≡ length (without n xs) + 1
length-without n [] m = absurd m
length-without n (x ∷ xs) m = elim (Bool-cases (x == n)) [
  | inl hit ↦ rw hit (omega arith)
  | inr miss ↦
      let rest : In n xs = ground (arith, m, miss) in
      rw miss (omega (arith, length-without n xs rest))
]

pub length-Retired :
    (h : Ptr → Option Chann) (cur : Ptr) (ds : List Closed) (xs : List Ptr)
    (es : List (Entry ChannTm))
    → Retired h cur ds xs es
    → length ds ≤ length xs
length-Retired h cur [] xs es r = omega arith
length-Retired h cur (d ∷ ds) xs es (e, some_at, m, there, closed, rest) = omega (
  arith,
  length-without d.at xs m,
  length-Retired h d.chann.del_next ds (without d.at xs) (without_timer d.chann es) rest,
)

-- The closed channels stay so when the links of others change.
pub Retired-kept :
    (h h' : Ptr → Option Chann) (n cur : Ptr) (ds : List Closed) (xs : List Ptr)
    (es : List (Entry ChannTm))
    → ((q : Ptr) (d : Chann)
        → q ≢ n
        → q ≢ null
        → h q ≡ some d
        → (p p' : Ptr) × (h' q ≡ some (record d { prev = p; next = p' })))
    → Out n xs
    → Retired h cur ds xs es
    → Retired h' cur ds xs es
Retired-kept h h' n cur [] xs es kept out r = r
Retired-kept h h' n cur (d ∷ ds) xs es kept out (e, some_at, m, (p, p', there), closed, rest) =
    let apart = Out-In n d.at xs out m in
    (
      e,
      some_at,
      m,
      kept d.at (record d.chann { prev = p; next = p' }) apart some_at there,
      closed,
      Retired-kept h h' n d.chann.del_next ds (without d.at xs) (without_timer d.chann es) kept
          (Out-without n d.at xs out) rest,
    )

pub kill-IsSkiplist :
    (c : Chann) (l : Skiplist ChannTm) (es : List (Entry ChannTm))
    → IsClosed c es
    → IsSkiplist l es
    → (l' : Skiplist ChannTm) × (killed c l ≡ some l') × IsSkiplist l' (without_timer c es)
kill-IsSkiplist c l es v h = elim (Bool-cases (c.timer_node == null)) [
  | inl untimed ↦ (l, rw untimed refl, rw untimed h)
  | inr timed ↦
      let (l', ran, well, nodes) = remove-erase l es c.timer_node h (v.timed timed) in
      (l', rw timed ran, rw timed well)
]
