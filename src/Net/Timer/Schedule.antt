-- ===== src/Net/Timer/Schedule.antt =====
-- `_tm_schedule` on a well-formed clock.
use m_net.Base.{
  ◌≡◌, refl, sym, ap, subst, ◌∙◌, ◌⊎◌, inl, inr, true, false, Option, some, List, [], ◌∷◌, arith,
  ltb, leb, if◌then◌else◌, Bool-cases, All,
}
use m_net.Base.Int.{ℤ, ◌≤ℤ◌, ltb_ℤ}
use m_net.Skiplist.{Ptr, null, head, Skiplist}
use m_net.Skiplist.Ring.{Chain}
use m_net.Skiplist.Entries.{Entry, IsSkiplist, at_level}
use m_net.Net.State.{Mnet, ChannTm, ◌>>=◌}
use m_net.Net.Env.{Env}
use m_net.Net.Timer.{tm_schedule}

-- Of a timer of the clock.
abbrev pub time_of : Entry ChannTm → ℤ
time_of e = e.node.value.time

-- The key of a timer is its time.
abbrev pub Keyed : Entry ChannTm → Type 0
Keyed e = e.node.key ≡ time_of e

All-later :
    (now k : ℤ) (es : List (Entry ChannTm))
    → ltb_ℤ now k ≡ true
    → All (λ x. k ≤ℤ x.node.key) es
    → All Keyed es
    → All (λ x. ltb_ℤ now (time_of x) ≡ true) es
All-later now k [] later above keyed = tt
All-later now k (x ∷ es) later above keyed =
    let later_key : ltb_ℤ now x.node.key ≡ true = ground (arith, above.0) in
    (subst (λ t. ltb_ℤ now t ≡ true) keyed.0 later_key, All-later now k es later above.1 keyed.1)

All-after :
    (k : ℤ) (es : List (Entry ChannTm))
    → All (λ x. k ≤ℤ x.node.key) es
    → All Keyed es
    → All (λ x. k ≤ℤ time_of x) es
All-after k [] above keyed = tt
All-after k (x ∷ es) above keyed =
    (subst (λ t. k ≤ℤ t) keyed.0 above.0, All-after k es above.1 keyed.1)

first_link :
    (l : Skiplist ChannTm) (e : Entry ChannTm) (es : List (Entry ChannTm))
    → IsSkiplist l (e ∷ es)
    → l.next 0 head ≡ e.addr
first_link l e es h =
    let high : ltb 0 e.node.level ≡ true = ground (arith, h.heights.0.0) in
    (subst
      (λ b.
        Chain (l.next 0) (l.prev 0) head (if b then e.addr ∷ at_level 0 es else at_level 0 es) head)
      high (h.rings 0)).0

module _ {W : Type 0} ⦃env : Env W⦄ where
  -- The time that the call reads.
  abbrev pub now_of : Mnet W → ℤ
  now_of s = (env.now s.world).0

  -- The library after the call, when the first timer is due and when it is not.
  abbrev pub chosen : Mnet W → Entry ChannTm → Mnet W
  chosen s e = record s { world = (env.now s.world).1; tm_current = now_of s; tm_pos = e.addr }

  abbrev pub waits : Mnet W → Mnet W
  waits s = record s { world = (env.now s.world).1; tm_pos = null }

  pub schedule_lem :
      (s : Mnet W) (e : Entry ChannTm) (es : List (Entry ChannTm))
      → IsSkiplist s.tm_clock (e ∷ es)
      → tm_schedule s ≡ some (tt, if ltb_ℤ (now_of s) (time_of e) then waits s else chosen s e)
  unfolding tm_schedule
  schedule_lem s e es h =
      let used : leb s.tm_clock.count 0 ≡ false = ground (arith, h.counted) in
      let link = first_link s.tm_clock e es h in
      elim (Bool-cases (ltb_ℤ (now_of s) (time_of e))) [
        | inl later ↦ rw (used, link, h.stored.0, later, ◌>>=◌) refl
        | inr due ↦
            rw (used, link, h.stored.0, due, ◌>>=◌)
              (ap
                (λ (p : Ptr).
                  some (
                    tt,
                    record s { world = (env.now s.world).1; tm_current = now_of s; tm_pos = p },
                  ))
                link)
      ]

  -- No timer is due and none is chosen; or the first is due, is chosen, and none is earlier.
  abbrev pub Scheduled : Mnet W → List (Entry ChannTm) → Option (Unit {0} × Mnet W) → Type 0
  Scheduled s es r =
      (s' : Mnet W) × (r ≡ some (tt, s'))
      × (s'.tm_clock ≡ s.tm_clock)
      × (((s'.tm_pos ≡ null) × All (λ e. ltb_ℤ (now_of s) (time_of e) ≡ true) es)
          ⊎ ((e : Entry ChannTm) × (es' : List (Entry ChannTm)) × (es ≡ e ∷ es')
              × (s'.tm_pos ≡ e.addr)
              × (s'.tm_current ≡ now_of s)
              × (ltb_ℤ (now_of s) (time_of e) ≡ false)
              × All (λ x. time_of e ≤ℤ time_of x) es'))

  -- `_tm_schedule` on a well-formed clock whose keys are the times of its timers: if no timer is due
  -- it chooses none, otherwise it chooses the first of the clock, which is due, and no timer is
  -- earlier; the clock itself stays.
  pub schedule-first :
      (s : Mnet W) (es : List (Entry ChannTm))
      → IsSkiplist s.tm_clock es
      → All Keyed es
      → Scheduled s es (tm_schedule s)
  unfolding tm_schedule
  schedule-first s [] h keyed =
      let idle : leb s.tm_clock.count 0 ≡ true = ground (arith, h.counted) in
      (record s { tm_pos = null }, rw (idle, ◌>>=◌) refl, refl, inl (refl, tt))
  schedule-first s (e ∷ es) h keyed =
      let ran = schedule_lem s e es h in
      elim (Bool-cases (ltb_ℤ (now_of s) (time_of e))) [
        | inl later ↦
            let later_key = subst (λ t. ltb_ℤ (now_of s) t ≡ true) (sym keyed.0) later in
            (
              waits s,
              ran ∙ rw later refl,
              refl,
              inl (refl, (later, All-later (now_of s) e.node.key es later_key h.sorted.0 keyed.1)),
            )
        | inr due ↦ (
          chosen s e,
          ran ∙ rw due refl,
          refl,
          inr (
            e,
            es,
            refl,
            refl,
            refl,
            due,
            subst (λ t. All (λ x. t ≤ℤ time_of x) es) keyed.0
                (All-after e.node.key es h.sorted.0 keyed.1),
          ),
        )
      ]
