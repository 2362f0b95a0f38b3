-- ===== src/Wrapper/Examples.antt =====
-- The theorems on the classes for C++ at a concrete library with one channel.
use m_net.Base.{ℕ, suc, true, ◌≡◌, refl, none, some, [], ◌∷◌, arith, ◌==◌, if◌then◌else◌}
use m_net.Base.Int.{pos, negsuc}
use m_net.Skiplist.{null}
use m_net.Net.State.{
  Mnet, Chann, ChannState, ChannEvent, rank, zero_chann, type_stream, ◌>>=◌, ◌>>◌, set_heap,
}
use m_net.Net.Env.{Env}
use m_net.Net.Send.Kernel.{stream_config}
use m_net.Net.Send.{mnet_chann_send}
use m_net.Net.Poll.{tell}
use m_net.Net.Quiet.{quiet, one_chann}
use m_net.Wrapper.World.{Handler, CppChann, CppWorld, Program}
use m_net.Wrapper.Object.{
  object, chann_send, take_chann, delete_chann, accept_chann, set_event_handler,
  chann_dispatch_event,
}
use m_net.Wrapper.Dispatch.{IsOwned, send_guarded, take_moves}
use m_net.Wrapper.Accept.{with_obj, told, accepted_dispatch}

-- The rest of the world counts the messages that the handler has got.
instance abbrev counting : Program ℕ
counting = record {
  new = λ v. (8, v);
  atoi = λ text. pos 80;
  decimal = λ k. 56 ∷ 48 ∷ [];
  inet_ntoa = λ host. 48 ∷ [];
  stack_byte = 1;
  handler = λ k self accept event err s.
      some (tt, record s { world = record s.world { rest = suc s.world.rest } });
}

instance abbrev kernel : Env (CppWorld ℕ)
kernel = quiet

abbrev chann : Chann
chann = record zero_chann { fd = pos 5; state = ChannState.listening; ctype = type_stream }

abbrev owner : CppChann
owner = object 3 Handler.no_handler

abbrev net : Mnet (CppWorld ℕ)
net =
    one_chann (λ t. stream_config) chann
      (record { rest = 0; objs = λ p. if p == 6 then some owner else none; running = true })

net-IsOwned : IsOwned 6 net owner chann
net-IsOwned = record { known = refl; some_obj = refl; some_chann = refl; there = refl }

send_guarded_example : chann_send 6 (some (1 ∷ [])) 1 net ≡ (
    if rank chann.state == rank ChannState.listening
    then some (negsuc 0, net)
    else mnet_chann_send 3 (some (1 ∷ [])) 1 net)
send_guarded_example = send_guarded 6 net owner chann (1 ∷ []) 1 refl refl refl refl

take_moves_example :
    (t : Mnet (CppWorld ℕ)) × ((do take_chann 7 6; delete_chann 6) net ≡ some (tt, t))
    × (t.heap 3 ≡ some (record chann { opaque = 7 }))
    × (t.world.objs 7 ≡ some (object 3 Handler.no_handler))
    × (t.world.objs 6 ≡ none)
take_moves_example = take_moves 7 6 net owner chann net-IsOwned (omega arith)

accepted_dispatch_example :
    ((do
      o ← accept_chann 3
      set_event_handler o 1
      _ ← tell 3 ChannEvent.disconnect null (pos 104)
      chann_dispatch_event 3)
        net
      ≡ counting.handler 1 8 null ChannEvent.disconnect (pos 104) (
          set_heap
            (with_obj 3 net chann (object 3 (Handler.external 1)))
            3
            (some (told 3 net chann ChannEvent.disconnect (pos 104)))))
    × ((do
      _ ← accept_chann 3
      _ ← tell 3 ChannEvent.disconnect null (pos 104)
      chann_dispatch_event 3)
          net
        ≡ none)
accepted_dispatch_example =
    accepted_dispatch 3 net chann 1 ChannEvent.disconnect (pos 104) (λ e. cc) refl refl refl
