-- ===== src/Net/Examples/Delete.antt =====
-- The theorems on the destruction of closed channels at a channel with a timer.
use m_net.Base.{ℕ, ◌≡◌, refl, inl, none, some, List, [], ◌∷◌, arith}
use m_net.Base.Int.{negsuc}
use m_net.Skiplist.{null}
use m_net.Skiplist.Entries.{IsSkiplist, erase}
use m_net.Rwb
use m_net.Net.State.{Mnet, Chann, ChannState, ◌>>◌}
use m_net.Net.Chann.Channels.{IsList}
use m_net.Net.Chann.Disconnect.{IsLive}
use m_net.Net.Api.{mnet_chann_close}
use m_net.Net.Poll.{evt_del_channs}
use m_net.Net.Poll.Delete.{IsDeleted, del_channs-IsDeleted, close-IsDeleted}
use m_net.Net.Poll.Delete.DelList.{Closed}
use m_net.Net.Examples.Kernel.{small, tcp, with_chann, empty-IsQueue}
use m_net.Net.Examples.Life.{timers, clock, clock-IsSkiplist}

-- The channel at 3 has the timer at 5.
abbrev busy_chann : Chann
busy_chann = record (tcp Rwb.empty) { timer_node = 5 }

abbrev net : Mnet (List ℕ)
net = record (with_chann busy_chann) { tm_clock = clock }

net-IsList : IsList net (3 ∷ [])
net-IsList = record {
  linked = (refl, omega arith, (busy_chann, refl, refl, refl));
  apart = (tt, tt);
  counted = refl;
}

net-IsLive : IsLive 3 net busy_chann
net-IsLive = record {
  there = refl;
  opened = refl;
  active = refl;
  builtin = refl;
  queue = empty-IsQueue;
}

close-IsDeleted_example :
    (t : Mnet (List ℕ)) × ((do mnet_chann_close 3; evt_del_channs) net ≡ some (tt, t))
    × IsList t []
    × IsSkiplist t.tm_clock []
    × (t.heap 3 ≡ none)
unfolding erase
close-IsDeleted_example =
    close-IsDeleted 3 net busy_chann (3 ∷ []) timers net-IsList clock-IsSkiplist (inl refl)
      (omega arith) net-IsLive refl refl (λ some_at. inl refl) refl

abbrev gone : Chann
gone = record busy_chann { fd = negsuc 0; state = ChannState.closed }

abbrev closed : Mnet (List ℕ)
closed = record (with_chann gone) { tm_clock = clock; del_channs = 3 }

closed-IsList : IsList closed (3 ∷ [])
closed-IsList = record {
  linked = (refl, omega arith, (gone, refl, refl, refl));
  apart = (tt, tt);
  counted = refl;
}

abbrev one_closed : List Closed
one_closed = record { at = 3; chann = gone } ∷ []

del_channs-IsDeleted_example :
    (t : Mnet (List ℕ)) × (evt_del_channs closed ≡ some (tt, t))
    × IsDeleted closed t one_closed (3 ∷ []) timers
    × (t.del_channs ≡ null)
del_channs-IsDeleted_example =
    del_channs-IsDeleted closed one_closed (3 ∷ []) timers closed-IsList clock-IsSkiplist (
      refl,
      omega arith,
      inl refl,
      (0, 0, refl),
      record { closed = refl; queue = empty-IsQueue; sent = refl; timed = λ some_at. inl refl },
      refl,
    )
