-- ===== src/Net/Poll/Due.antt =====
-- The first timer after a poll: `_tm_schedule` and then `_tm_next` of src/mnet_core.c.
use m_net.Base.{
  ℕ, suc, ◌<◌, ◌≤◌, ◌≡◌, ◌≢◌, refl, sym, ap, subst, ◌∙◌, ◌||◌, ◌⊎◌, inl, inr, Bool-cases, true,
  false, none, some, List, [], ◌∷◌, arith, ltb, ◌==◌, ==_ne, ==_refl, All,
}
use m_net.Base.Int.{pos, ltb_ℤ, leb_ℤ}
use m_net.Skiplist.{null, head, Skiplist, random_level, max_level}
use m_net.Skiplist.Ring.{Out, first_or, Chain-ends, Chain}
use m_net.Skiplist.Entries.{Entry, IsSkiplist, addrs, at_level, place, erase}
use m_net.Net.State.{Mnet, Chann, ChannEvent, ChannTm, Fn, ◌>>=◌, ◌>>◌, set_heap}
use m_net.Net.Env.{Env}
use m_net.Net.Timer.{tm_schedule, tm_update}
use m_net.Net.Timer.Schedule.{time_of, now_of, chosen, waits, schedule_lem}
use m_net.Net.Timer.Update.{
  timer, next_node, after_node, clocked, due, renewed, updated, update_lem,
}
use m_net.Net.Chann.Message.{with_message, chann_msg_lem}
use m_net.Net.Poll.{tell, tm_next}
use m_net.Net.Poll.Report.{tm_next-idle}

at_level_zero :
    (es : List (Entry ChannTm))
    → All (λ e. (0 < e.node.level) × (e.node.level ≤ max_level)) es
    → at_level 0 es ≡ addrs es
at_level_zero [] h = refl
at_level_zero (x ∷ es) h =
    let high : ltb 0 x.node.level ≡ true = ground (arith, h.0.0) in
    rw high (ap (λ r. x.addr ∷ r) (at_level_zero es h.1))

second_link :
    (l : Skiplist ChannTm) (e : Entry ChannTm) (es : List (Entry ChannTm))
    → IsSkiplist l (e ∷ es)
    → l.next 0 e.addr ≡ first_or head (addrs es)
second_link l e es h =
    (Chain-ends (l.next 0) (l.prev 0) head head (e.addr ∷ []) (addrs es) (
      subst (λ r. Chain (l.next 0) (l.prev 0) head r head) (at_level_zero (e ∷ es) h.heights)
        (h.rings 0))).0

erase_first : (e : Entry ChannTm) (es : List (Entry ChannTm)) → erase e.addr (e ∷ es) ≡ es
unfolding erase
erase_first e es = rw (==_refl e.addr)

module _ {W : Type 0} ⦃env : Env W⦄ (s : Mnet W) (e : Entry ChannTm) (es : List (Entry ChannTm))
    (c : Chann) where
  abbrev tm : ChannTm
  tm = e.node.value

  -- The clock begins with the timer of the channel `c`, of a built-in type.
  pub record IsFirst : Type 0 where
    pub clock : IsSkiplist s.tm_clock (e ∷ es)
    pub some_at : e.addr ≢ null
    pub there : s.heap tm.chann ≡ some c
    pub owner : c.timer_node ≡ e.addr
    pub builtin : (s.ext_config c.ctype).filter_fn ≡ some Fn.ext_filter_fn

  -- The library with the first timer chosen and the one behind it kept for the next call.
  abbrev pub going : Mnet W
  going = record (chosen s e) { tm_pos = s.tm_clock.next 0 e.addr }

  -- The world when the timer is set anew.
  abbrev pub again : W
  again = clocked tm.chann tm.interval going c

  -- The library after the message, with the clock `l`.
  abbrev pub fired : Skiplist ChannTm → Mnet W
  fired l =
      set_heap (record going { world = after_node again; tm_clock = l }) tm.chann
        (some (
          with_message tm.chann (record c { timer_node = next_node again }) ChannEvent.timer null
            (pos 0)))

  next_lem :
      (fuel : ℕ) (l : Skiplist ChannTm)
      → IsFirst
      → ltb_ℤ (now_of s) (time_of e) ≡ false
      → tm_update tm.chann tm.interval going ≡ some (tt, updated tm.chann tm.interval going c l)
      → tm_next (suc fuel) (chosen s e) ≡ some (some tm.chann, fired l)
  unfolding tm_next tell
  next_lem fuel l f late ran =
      let going_on : ((e.addr == null) || (e.addr == head)) ≡ false =
        rw (==_ne e.addr null f.some_at, ==_ne e.addr head (λ same. f.clock.headless.0 (sym same)))
          refl in
      let is_due : leb_ℤ (time_of e) (now_of s) ≡ true = ground (arith, late) in
      let d : Chann = record c { timer_node = next_node again } in
      let u : Mnet W = record going { world = after_node again; tm_clock = l } in
      rw
        (
          going_on,
          f.clock.stored.0,
          is_due,
          ran,
          chann_msg_lem tm.chann u d ChannEvent.timer null (pos 0) f.builtin,
          ◌>>=◌,
          ◌>>◌,
        )
        refl

  due_lem :
      (level : ℕ)
      → IsFirst
      → random_level (env.draws again).0 ≡ some level
      → next_node again ≢ null
      → next_node again ≢ head
      → Out (next_node again) (addrs es)
      → (l : Skiplist ChannTm) × (tm_update tm.chann tm.interval going
          ≡ some (tt, updated tm.chann tm.interval going c l))
        × IsSkiplist l (
            place
              (timer
                (next_node again)
                level
                (due tm.chann tm.interval going c)
                (renewed tm.chann tm.interval going c tm))
              es)
  due_lem level f drawn some_node not_head fresh =
      let rest : erase c.timer_node (e ∷ es) ≡ es =
        ap (λ k. erase k (e ∷ es)) f.owner ∙ erase_first e es in
      let new =
        timer (next_node again) level (due tm.chann tm.interval going c)
          (renewed tm.chann tm.interval going c tm) in
      let (l, ran, well) =
        update_lem tm.chann tm.interval going c (e ∷ es) e.node level f.there f.clock (inl f.owner)
          (ap s.tm_clock.node f.owner ∙ f.clock.stored.0) drawn some_node not_head
          (subst (λ r. Out (next_node again) (addrs r)) (sym rest) fresh) in
      (l, ran, subst (λ r. IsSkiplist l (place new r)) rest well)

  -- The first call of `_tm_next` after `_tm_schedule`, on a well-formed clock that begins with the
  -- timer of a channel of a built-in type: if that timer is not due there is no message and no
  -- channel has changed; if it is due its channel is returned with TIMER, the timer stands in the
  -- well-formed clock where the time of the call and its interval put it, and the next call goes
  -- on with the timer that was behind it. Conditions: `rand` gives a level, and the allocator an
  -- address, not NULL, that no other timer has.
  pub first_timer_fires :
      (fuel level : ℕ)
      → IsFirst
      → random_level (env.draws again).0 ≡ some level
      → next_node again ≢ null
      → next_node again ≢ head
      → Out (next_node again) (addrs es)
      → ((ltb_ℤ (now_of s) (time_of e) ≡ true)
          × ((do tm_schedule; tm_next (suc fuel)) s ≡ some (none, waits s)))
        ⊎ ((l : Skiplist ChannTm) × (ltb_ℤ (now_of s) (time_of e) ≡ false)
            × ((do tm_schedule; tm_next (suc fuel)) s ≡ some (some tm.chann, fired l))
            × ((fired l).tm_pos ≡ first_or head (addrs es))
            × IsSkiplist l (
                place
                  (timer
                    (next_node again)
                    level
                    (due tm.chann tm.interval going c)
                    (renewed tm.chann tm.interval going c tm))
                  es))
  first_timer_fires fuel level f drawn some_node not_head fresh =
      let schedules = schedule_lem s e es f.clock in
      elim (Bool-cases (ltb_ℤ (now_of s) (time_of e))) [
        | inl later ↦
            inl (later, rw (schedules, later, ◌>>=◌, ◌>>◌) (tm_next-idle fuel (waits s) refl))
        | inr late ↦
            let (l, ran, well) = due_lem level f drawn some_node not_head fresh in
            inr (
              l,
              late,
              rw (schedules, late, ◌>>=◌, ◌>>◌) (next_lem fuel l f late ran),
              second_link s.tm_clock e es f.clock,
              well,
            )
      ]
