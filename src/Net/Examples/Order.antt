-- ===== src/Net/Examples/Order.antt =====
-- The theorem on the events of one poll at three events, of which one is that of a closed channel.
use m_net.Base.{ℕ, ◌≡◌, refl, inl, inr, true, none, some, List, [], ◌∷◌, arith, ◌==◌, if◌then◌else◌}
use m_net.Base.Int.{pos, negsuc, ◌+ℤ◌}
use m_net.Skiplist.{Ptr}
use m_net.Rwb
use m_net.Net.State.{Mnet, Chann, ChannState, Kev, no_events}
use m_net.Net.Poll.Order.{messages, messages-readable}
use m_net.Net.Poll.Order.Events.{IsReadable, IsAt}
use m_net.Net.Examples.Kernel.{small, tcp, with_chann}

abbrev in_event : Ptr → Kev
in_event n = record { events = record no_events { ep_in = true }; opaque = n }

abbrev closed : Chann
closed = record (tcp Rwb.empty) { fd = negsuc 0; state = ChannState.closed }

abbrev three : List Kev
three = in_event 3 ∷ in_event 4 ∷ in_event 3 ∷ []

abbrev net : Mnet (List ℕ)
net = record (with_chann (tcp Rwb.empty)) {
  evt = three;
  fd_count = pos 3;
  heap = λ p. if p == 3 then some (tcp Rwb.empty) else (if p == 4 then some closed else none);
}

tcp-IsReadable : IsReadable (tcp Rwb.empty) (in_event 3)
tcp-IsReadable = record {
  connected = refl;
  opened = refl;
  ep_in = refl;
  no_err = refl;
  no_hup = refl;
}

start_index : negsuc 0 +ℤ pos 1 ≡ pos 0
unfolding ◌+ℤ◌
start_index = refl

net-IsAt : IsAt net [] three
net-IsAt = record {
  idle = refl;
  none_failed = refl;
  events = refl;
  index = start_index;
  count = refl;
  items = (
    (tcp Rwb.empty, refl, refl, inr tcp-IsReadable),
    ((closed, refl, refl, inl refl), ((tcp Rwb.empty, refl, refl, inr tcp-IsReadable), tt)),
  );
}

-- The channel at 3 is told twice, the closed one not.
messages-readable_example : (t : Mnet (List ℕ)) × (messages 6 net ≡ some (3 ∷ 3 ∷ [], t))
messages-readable_example = messages-readable 6 net [] three net-IsAt (omega arith)
