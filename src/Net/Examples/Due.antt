-- ===== src/Net/Examples/Due.antt =====
-- The theorem on the first timer after a poll at a clock with one timer, which is due.
use m_net.Base.{ℕ, List, ◌∷◌, ◌≤◌, ◌↔◌, inl, ◌≡◌, refl, ◌⊎◌, true, false, none, some, [], arith}
use m_net.Base.Int.{pos, ltb_ℤ}
use m_net.Skiplist.{Skiplist, Node, head}
use m_net.Skiplist
use m_net.Skiplist.Entries.{Entry, IsSkiplist, place, erase}
use m_net.Skiplist.Insert.{entry}
use m_net.Skiplist.Random.{random_level_one}
use m_net.Net.State.{Mnet, ChannTm, ◌>>◌}
use m_net.Net.Timer.{tm_schedule, tm_update}
use m_net.Net.Timer.Interval.{asked, interval_kept_iff}
use m_net.Net.Timer.Schedule.{time_of, now_of, waits}
use m_net.Net.Timer.Update.{timer, due, renewed}
use m_net.Net.Poll.{tm_next}
use m_net.Net.Poll.Due.{IsFirst, going, fired, first_timer_fires}
use m_net.Net.Examples.Kernel.{small}
use m_net.Net.Examples.Life.{tm_20, clock-IsSkiplist, with_timer, timed_chann}

abbrev first : Entry ChannTm
first = entry Skiplist.create [] 5 2 (pos 20) tm_20

first-IsFirst : IsFirst timed_chann first [] with_timer
first-IsFirst = record {
  clock = clock-IsSkiplist;
  some_at = omega arith;
  there = refl;
  owner = refl;
  builtin = refl;
}

first_timer_fires_example :
    ((ltb_ℤ (now_of timed_chann) (time_of first) ≡ true)
      × ((do tm_schedule; tm_next 2) timed_chann ≡ some (none, waits timed_chann)))
    ⊎ ((l : Skiplist ChannTm) × (ltb_ℤ (now_of timed_chann) (time_of first) ≡ false)
        × ((do tm_schedule; tm_next 2) timed_chann
            ≡ some (some 3, fired timed_chann first [] with_timer l))
        × ((fired timed_chann first [] with_timer l).tm_pos ≡ head)
        × IsSkiplist l (
            place
              (timer 9 1
                (due 3 (pos 10) (going timed_chann first [] with_timer) with_timer)
                (renewed 3 (pos 10) (going timed_chann first [] with_timer) with_timer tm_20))
              []))
first_timer_fires_example =
    first_timer_fires timed_chann first [] with_timer 1 1 first-IsFirst
      (random_level_one 65535 [] (omega arith)) (omega arith) (omega arith) tt

-- A timer of 40 minutes does not keep its interval.
interval_kept_iff_example :
    (t : Mnet (List ℕ)) × (k : Node ChannTm) × (tm_update 3
        (asked 3 timed_chann with_timer 2400000)
        timed_chann
      ≡ some (tt, t))
    × (t.heap 3 ≡ some (record with_timer { timer_node = 9 }))
    × (t.tm_clock.node 9 ≡ some k)
    × ((k.value.interval ≡ pos 2400000000) ↔ (2400000 ≤ 2147483))
unfolding erase
interval_kept_iff_example =
    interval_kept_iff 3 timed_chann with_timer 2400000 (first ∷ [])
      (record { key = pos 20; value = tm_20; level = 2 }) 1 refl clock-IsSkiplist (inl refl)
      clock-IsSkiplist.stored.0 (random_level_one 65535 [] (omega arith)) (omega arith)
      (omega arith) tt
