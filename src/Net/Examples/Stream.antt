-- ===== src/Net/Examples/Stream.antt =====
-- Runs of a TCP stream on a small kernel, and its theorems at concrete states.
use m_net.Base.{ℕ, ◌≤◌, ◌≡◌, ◌⊎◌, inl, refl, ap, some, List, [], ◌∷◌, ◌++◌, arith, length, take}
use m_net.Base.Int.{◌+ℤ◌, pos}
use m_net.Rwb
use m_net.Rwb.{Rwb, RwbHead}
use m_net.Net.State.{Mnet, Chann, no_events, set_heap}
use m_net.Net.Ext.{call_state, call_send, ext_stream_send, blocked_as_zero}
use m_net.Net.Event.{EvtSet, added, evt_add, evt_check_expand}
use m_net.Net.Send.Steps.{start, send, Delivers}
use m_net.Net.Send.Session.{Session-Delivers}
use m_net.Net.Send.{chann_send, shown_state, mnet_chann_send, chann_sended_rwb}
use m_net.Net.Send.Kernel.{IsKernel, IsOpen, reply}
use m_net.Net.Send.Stream.{Accepts, Fails, send-accounts}
use m_net.Net.Send.Round.{Flushed, Stuck}
use m_net.Net.Send.Flush.{flush-accounts}
use m_net.Net.Examples.Kernel.{
  small, tcp, with_chann, empty-IsQueue, last_byte, busy, last_byte-IsQueue,
}

-- What `send` takes is a first part of the bytes.
taken :
    (bs : List ℕ) → (length (take 2 bs) ≤ length bs) × (take 2 bs ≡ take (length (take 2 bs)) bs)
taken [] = (omega arith, refl)
taken (b ∷ []) = (omega arith, refl)
taken (b ∷ c ∷ bs) = (omega arith, refl)

small-IsKernel : IsKernel (pos 5) (λ (w : List ℕ). w)
small-IsKernel = record {
  send_law = λ bs w. inl (length (take 2 bs), (taken bs).0, refl, ap (λ r. w ++ r) (taken bs).1);
  ctl_law = λ op v p w. refl;
  realloc_law = λ w. refl;
}

idle-IsOpen : IsOpen 3 (with_chann (tcp Rwb.empty)) (tcp Rwb.empty)
idle-IsOpen = record { there = refl; connected = refl; stream = refl; queue = empty-IsQueue }

send-accounts_example :
    Accepts 3
      (λ w. w)
      (with_chann (tcp Rwb.empty))
      (tcp Rwb.empty)
      (10 ∷ 11 ∷ 12 ∷ [])
      3
      (mnet_chann_send 3 (some (10 ∷ 11 ∷ 12 ∷ [])) 3 (with_chann (tcp Rwb.empty)))
    ⊎ Fails 3
        (λ w. w)
        (with_chann (tcp Rwb.empty))
        (tcp Rwb.empty)
        (10 ∷ 11 ∷ 12 ∷ [])
        3
        (mnet_chann_send 3 (some (10 ∷ 11 ∷ 12 ∷ [])) 3 (with_chann (tcp Rwb.empty)))
send-accounts_example =
    send-accounts 3 (λ w. w) (with_chann (tcp Rwb.empty)) (tcp Rwb.empty) (10 ∷ 11 ∷ 12 ∷ []) 3
      idle-IsOpen small-IsKernel (omega arith) (omega arith)

busy-IsOpen : IsOpen 3 busy (tcp last_byte)
busy-IsOpen = record { there = refl; connected = refl; stream = refl; queue = last_byte-IsQueue }

flush-accounts_example :
    Flushed 3 (λ w. w) busy (tcp last_byte) (chann_sended_rwb 3 busy)
    ⊎ Stuck 3 (λ w. w) busy (tcp last_byte) (chann_sended_rwb 3 busy)
flush-accounts_example =
    flush-accounts 3 (λ w. w) busy (tcp last_byte) busy-IsOpen small-IsKernel refl

-- A session: three bytes are sent, of which the kernel takes two and one is cached.
abbrev three : List ℕ
three = 10 ∷ 11 ∷ 12 ∷ []

abbrev after_send : Chann
after_send = record (tcp Rwb.empty) {
  bytes_send = pos 2;
  rwb_send = Rwb.cache Rwb.empty (12 ∷ []) 1;
}

abbrev interested : Chann
interested = record after_send { epoll_events = added EvtSet.write no_events }

abbrev sent_two : Mnet (List ℕ)
sent_two =
    let s = record (with_chann (tcp Rwb.empty)) { world = 10 ∷ 11 ∷ [] } in
    set_heap
      (set_heap (set_heap s 3 (some (record (tcp Rwb.empty) { bytes_send = pos 2 }))) 3
        (some after_send))
      3 (some interested)

send_run : mnet_chann_send 3 (some three) 3 (with_chann (tcp Rwb.empty)) ≡ some (pos 3, sent_two)
unfolding mnet_chann_send chann_send shown_state call_state call_send ext_stream_send
    blocked_as_zero evt_add evt_check_expand ◌+ℤ◌
send_run = refl

Session-Delivers_example :
    Delivers 3 (λ w. w) (with_chann (tcp Rwb.empty)) (tcp Rwb.empty) sent_two interested three
    × (Accepts 3 (λ w. w) sent_two interested three 2 (mnet_chann_send 3 (some three) 2 sent_two)
        ⊎ (Fails 3 (λ w. w) sent_two interested three 2 (mnet_chann_send 3 (some three) 2 sent_two)
            × ((reply 3 (λ w. w) sent_two interested three 2).1 ≡ three)))
Session-Delivers_example =
    Session-Delivers 3 (λ w. w) three 2 idle-IsOpen small-IsKernel refl
      (send three 3 start (omega arith) (omega arith) send_run refl refl) (omega arith)
      (omega arith)
