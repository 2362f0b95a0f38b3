-- ===== src/Net/Examples/Destroy.antt =====
-- The theorem on the destruction of a channel at a list of two, of which the second is closed.
use m_net.Base.{ℕ, ◌≡◌, refl, none, some, List, [], ◌∷◌, arith, ◌==◌, if◌then◌else◌}
use m_net.Base.Int.{negsuc}
use m_net.Rwb
use m_net.Net.State.{Mnet, Chann, ChannState}
use m_net.Net.Chann.{chann_destroy}
use m_net.Net.Chann.Channels.{IsList}
use m_net.Net.Chann.Destroy.{destroy-IsList}
use m_net.Net.Examples.Kernel.{small, tcp, with_chann, empty-IsQueue}

abbrev in_front : Chann
in_front = record (tcp Rwb.empty) { next = 4 }

abbrev closed : Chann
closed = record (tcp Rwb.empty) { fd = negsuc 0; state = ChannState.closed; prev = 3 }

abbrev two_channs : Mnet (List ℕ)
two_channs = record (with_chann in_front) {
  chann_count = 2;
  heap = λ p. if p == 3 then some in_front else (if p == 4 then some closed else none);
}

two-IsList : IsList two_channs (3 ∷ 4 ∷ [])
two-IsList = record {
  linked =
      (refl, omega arith, (in_front, refl, refl, (refl, omega arith, (closed, refl, refl, refl))));
  apart = ((omega arith, tt), (tt, tt));
  counted = refl;
}

destroy-IsList_example :
    (t : Mnet (List ℕ)) × (chann_destroy 4 two_channs ≡ some (tt, t))
    × IsList t (3 ∷ [])
    × (t.heap 4 ≡ none)
destroy-IsList_example =
    destroy-IsList two_channs 4 closed (3 ∷ []) [] two-IsList refl refl empty-IsQueue refl refl
