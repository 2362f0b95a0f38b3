-- ===== src/Net/Examples/Fini.antt =====
-- The theorem on the end of the library at one channel that is connected and has a timer.
use m_net.Base.{ℕ, ◌≡◌, refl, inl, none, some, List, [], ◌∷◌, All, arith}
use m_net.Rwb
use m_net.Net.State.{Mnet, Chann}
use m_net.Net.Chann.Channels.{IsList}
use m_net.Net.Init.{mnet_fini, zeroed}
use m_net.Net.Init.Fini.{fini-Frees}
use m_net.Net.Init.Fini.AllChanns.{Listed, Ready}
use m_net.Net.Examples.Kernel.{small, tcp, with_chann, empty-IsQueue}
use m_net.Net.Examples.Life.{timers, clock, clock-IsSkiplist}

abbrev timed : Chann
timed = record (tcp Rwb.empty) { timer_node = 5 }

abbrev net : Mnet (List ℕ)
net = record (with_chann timed) { tm_clock = clock }

net-IsList : IsList net (3 ∷ [])
net-IsList = record {
  linked = (refl, omega arith, (timed, refl, refl, refl));
  apart = (tt, tt);
  counted = refl;
}

abbrev one_listed : List Listed
one_listed = record { at = 3; chann = timed } ∷ []

net-Ready : Ready net.heap net.ext_config one_listed timers
net-Ready = (
  (0, 0, refl),
  record {
    disconnect_cb = refl;
    close_cb = refl;
    queue = empty-IsQueue;
    sent = refl;
    timed = λ some_at. inl refl;
  },
  tt,
)

fini-Frees_example :
    (t : Mnet (List ℕ)) × (mnet_fini net ≡ some (tt, zeroed t))
    × All (λ x. t.heap x.at ≡ none) one_listed
fini-Frees_example = fini-Frees net one_listed timers refl net-IsList clock-IsSkiplist net-Ready
