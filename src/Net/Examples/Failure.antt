-- ===== src/Net/Examples/Failure.antt =====
-- The theorems on `recv` and its failure at concrete states.
use m_net.Base.{inl, ◌≡◌, refl, true, some, arith}
use m_net.Base.Int.{◌+ℤ◌, pos}
use m_net.Rwb
use m_net.Net.State.{◌>>=◌, set_heap}
use m_net.Net.Ext.{blocked_as_zero}
use m_net.Net.Send.{mnet_chann_recv}
use m_net.Net.Send.Kernel.{IsOpen}
use m_net.Net.Send.Failure.{answered, received, after_recv, failed_chann, recv_failed, recv-returns}
use m_net.Net.Poll.{evt_result_next}
use m_net.Net.Poll.Report.{recv_failure_reported}
use m_net.Net.Examples.Kernel.{small, tcp, with_chann, empty-IsQueue}

quiet-IsOpen : IsOpen 3 (with_chann (tcp Rwb.empty)) (tcp Rwb.empty)
quiet-IsOpen = record { there = refl; connected = refl; stream = refl; queue = empty-IsQueue }

recv-returns_example :
    let s = with_chann (tcp Rwb.empty) in
    let c = tcp Rwb.empty in
    mnet_chann_recv 3 true 5 s
    ≡ some (
      (pos 2, received 3 s c 5),
      set_heap (after_recv 3 s c 5) 3 (some (record c { bytes_recv = c.bytes_recv +ℤ pos 2 })),
    )
recv-returns_example =
    recv-returns 3 (with_chann (tcp Rwb.empty)) (tcp Rwb.empty) 5 2 quiet-IsOpen (omega arith)
      (inl refl)

recv_failure_reported_example :
    let s = with_chann (tcp Rwb.empty) in
    let c = tcp Rwb.empty in
    let t = recv_failed 3 s c 9 in
    ((do _ ← mnet_chann_recv 3 true 9; evt_result_next 2) s
      ≡ some (some 3, record t { dis_channs = s.dis_channs }))
    × (t.heap 3
        ≡ some (record (failed_chann 3 (after_recv 3 s c 9) c) {
          bytes_recv = c.bytes_recv +ℤ answered 3 s c 9;
        }))
unfolding blocked_as_zero
recv_failure_reported_example =
    recv_failure_reported 3 (with_chann (tcp Rwb.empty)) (tcp Rwb.empty) 9 0 quiet-IsOpen refl refl
      (omega arith) refl refl (omega arith)
