-- ===== src/Net/Poll/Report.antt =====
-- How `mnet_result_next` reports a failed `recv`.
use m_net.Base.{ℕ, suc, ◌<◌, ◌≡◌, ◌≢◌, refl, ap, true, false, ◌||◌, none, some, [], ◌==◌, ==_ne}
use m_net.Base.Int.{pos, ◌+ℤ◌, ltb_ℤ}
use m_net.Skiplist.{Ptr, null, head}
use m_net.Rwb.Contents.{contents}
use m_net.Net.State.{Mnet, Chann, ◌>>=◌, ◌>>◌}
use m_net.Net.State.Heap.{heap-set_self}
use m_net.Net.Env.{Env}
use m_net.Net.Send.Kernel.{IsOpen}
use m_net.Net.Send.Failure.{
  answered, after_recv, closed_world, failed_chann, recv_failed, recv_fails,
}
use m_net.Net.Send.{mnet_chann_recv}
use m_net.Net.Poll.{tm_next, evt_result_next}

module _ {W : Type 0} ⦃env : Env W⦄ where
  pub tm_next-idle :
      (fuel : ℕ) (s : Mnet W) → s.tm_pos ≡ null → tm_next (suc fuel) s ≡ some (none, s)
  unfolding tm_next
  tm_next-idle fuel s idle =
      let at_null : (s.tm_pos == null) || (s.tm_pos == head) ≡ true =
        ap (λ (p : Ptr). (p == null) || (p == head)) idle in
      rw (at_null, ◌>>=◌)

  next_failed :
      (fuel : ℕ) (s : Mnet W) (c : Chann)
      → s.tm_pos ≡ null
      → s.dis_channs ≢ null
      → s.heap s.dis_channs ≡ some c
      → evt_result_next (suc (suc fuel)) s
        ≡ some (some s.dis_channs, record s { dis_channs = c.dis_next })
  unfolding evt_result_next
  next_failed fuel s c idle some_at there =
      let not_null : (s.dis_channs == null) ≡ false = ==_ne s.dis_channs null some_at in
      rw (tm_next-idle fuel s idle, not_null, there, ◌>>=◌, ◌>>◌) refl

module _ {W : Type 0} ⦃env : Env W⦄ (n : Ptr) where
  -- On a connected TCP channel with an open descriptor and nothing cached, when no timer is due: a
  -- `recv` that the kernel refuses disconnects the channel, and the next `mnet_result_next` returns
  -- its message, which is DISCONNECT with the error that the library saw, and takes the channel off
  -- the list of failed ones again. The result -1 has been added to the bytes counted as received.
  pub recv_failure_reported :
      (s : Mnet W) (c : Chann) (len fuel : ℕ)
      → IsOpen n s c
      → ltb_ℤ (pos 0) c.fd ≡ true
      → contents c.rwb_send ≡ []
      → 0 < len
      → ltb_ℤ (answered n s c len) (pos 0) ≡ true
      → s.tm_pos ≡ null
      → n ≢ null
      → let t = recv_failed n s c len in
        ((do _ ← mnet_chann_recv n true len; evt_result_next (suc (suc fuel))) s
          ≡ some (some n, record t { dis_channs = s.dis_channs }))
        × (t.heap n
            ≡ some (record (failed_chann n (after_recv n s c len) c) {
              bytes_recv = c.bytes_recv +ℤ answered n s c len;
            }))
  recv_failure_reported s c len fuel o opened sent_all some_len bad idle some_at =
      let t = recv_failed n s c len in
      let d : Chann = record (failed_chann n (after_recv n s c len) c) {
        bytes_recv = c.bytes_recv +ℤ answered n s c len;
      } in
      let here : t.heap n ≡ some d =
        heap-set_self
          (record (after_recv n s c len) { world = closed_world n (after_recv n s c len) c }) n
          (some d) in
      (
        rw
            (
              recv_fails n s c len o opened sent_all some_len bad,
              next_failed fuel t d idle some_at here,
              ◌>>=◌,
            )
            refl,
        here,
      )
