-- ===== src/Net/Send/Failure.antt =====
-- What a failed `send` or `recv` comes to on a TCP channel of the built-in type, and how it is
-- reported.
use m_net.Base.{
  ℕ, ◌<◌, ◌∙◌, ◌⊎◌, inl, inr, ◌≡◌, refl, ap, true, false, ◌||◌, not, some, List, [], arith, leb,
}
use m_net.Base.Int.{ℤ, pos, negsuc, ◌+ℤ◌, ltb_ℤ}
use m_net.Skiplist.{Ptr, null}
use m_net.Rwb
use m_net.Rwb.Contents.{contents}
use m_net.Net.State.{Mnet, Chann, ChannState, ChannEvent, no_events, ◌>>=◌, ◌>>◌, set_heap}
use m_net.Net.State.Heap.{heap-set_self, set_heap_twice}
use m_net.Net.Env.{Env, SysCall, ewouldblock}
use m_net.Net.Ext.{blocked_as_zero, call_recv, ext_stream_recv}
use m_net.Net.Chann.Disconnect.{IsLive, disconnect_closes}
use m_net.Net.Chann.Message.{with_message, chann_msg_lem}
use m_net.Net.Send.Kernel.{IsOpen, shown_connected}
use m_net.Net.Send.{push_dis, chann_fail, mnet_chann_recv}

module _ {W : Type 0} ⦃env : Env W⦄ (n : Ptr) where
  push_dis_lem :
      (t : Mnet W) (d : Chann)
      → push_dis n (set_heap t n (some d))
        ≡ some (
          tt,
          record (set_heap t n (some (record d { dis_next = t.dis_channs }))) { dis_channs = n },
        )
  unfolding push_dis
  push_dis_lem t d =
      rw (heap-set_self t n (some d), ◌>>=◌, ◌>>◌)
        (ap (λ (u : Mnet W). some (tt, record u { dis_channs = n }))
          (set_heap_twice t n (some d) (some (record d { dis_next = t.dis_channs }))))

  -- The world after the descriptor is closed.
  abbrev pub closed_world : Mnet W → Chann → W
  closed_world s c = (env.call (SysCall.close c.fd) s.world).1

  -- The channel then: disconnected, with a message that holds the error.
  abbrev pub failed_chann : Mnet W → Chann → Chann
  failed_chann s c =
      let d : Chann = record c {
        rwb_send = Rwb.empty;
        fd = negsuc 0;
        state = ChannState.disconnect;
        epoll_events = no_events;
      } in
      record (with_message n d ChannEvent.disconnect null (pos (env.errno (closed_world s c)))) {
        dis_next = s.dis_channs;
      }

  -- The library then: the channel is first on the list of failed ones.
  abbrev pub failed : Mnet W → Chann → Mnet W
  failed s c =
      record (set_heap (record s { world = closed_world s c }) n (some (failed_chann s c))) {
        dis_channs = n;
      }

  open_live : (s : Mnet W) (c : Chann) → IsOpen n s c → ltb_ℤ (pos 0) c.fd ≡ true → IsLive n s c
  open_live s c o opened = record {
    there = o.there;
    opened = opened;
    active = rw o.connected refl;
    builtin = rw o.stream refl;
    queue = o.queue;
  }

  pub chann_fail_lem :
      (s : Mnet W) (c : Chann)
      → IsOpen n s c
      → ltb_ℤ (pos 0) c.fd ≡ true
      → contents c.rwb_send ≡ []
      → chann_fail n s ≡ some (tt, failed s c)
  unfolding chann_fail
  chann_fail_lem s c o opened sent_all =
      let t : Mnet W = record s { world = closed_world s c } in
      let d : Chann = record c {
        rwb_send = Rwb.empty;
        fd = negsuc 0;
        state = ChannState.disconnect;
        epoll_events = no_events;
      } in
      let err = pos (env.errno (closed_world s c)) in
      rw
        (
          disconnect_closes n s c (open_live s c o opened) sent_all,
          chann_msg_lem n t d ChannEvent.disconnect null err (rw o.stream refl),
          push_dis_lem t (with_message n d ChannEvent.disconnect null err),
          ◌>>=◌,
          ◌>>◌,
        )
        refl

  -- What the kernel answers to a `recv` of `len` bytes: the result, the bytes, the world then.
  abbrev pub answered : Mnet W → Chann → ℕ → ℤ
  answered s c len =
      let (ret, bytes, w) = env.recv c.fd len s.world in blocked_as_zero ret (env.errno w)

  abbrev pub received : Mnet W → Chann → ℕ → List ℕ
  received s c len = (env.recv c.fd len s.world).1

  abbrev pub after_recv : Mnet W → Chann → ℕ → Mnet W
  after_recv s c len = record s { world = (env.recv c.fd len s.world).2 }

  recv_stream :
      (s : Mnet W) (c : Chann) (len : ℕ)
      → IsOpen n s c
      → call_recv (s.ext_config c.ctype).recv_fn (s.ext_config c.ctype).ext_ctx n len s
        ≡ some ((answered s c len, received s c len), after_recv s c len)
  unfolding call_recv ext_stream_recv
  recv_stream s c len o = rw (o.stream, o.there, ◌>>=◌, ◌>>◌)

  recv_good :
      (s : Mnet W) (c : Chann) (len : ℕ)
      → IsOpen n s c
      → 0 < len
      → ltb_ℤ (answered s c len) (pos 0) ≡ false
      → mnet_chann_recv n true len s
        ≡ some (
          (answered s c len, received s c len),
          set_heap
              (after_recv s c len)
              n
              (some (record c { bytes_recv = c.bytes_recv +ℤ answered s c len })),
        )
  unfolding mnet_chann_recv
  recv_good s c len o some_len good =
      let room : not true || leb len 0 ≡ false = ground arith in
      rw (
        o.there,
        room,
        shown_connected n (λ _. []) s c o,
        recv_stream s c len o,
        good,
        o.there,
        ◌>>=◌,
        ◌>>◌,
      )

  -- The kernel gave `k` bytes; or it answered with a negative number and EWOULDBLOCK, and `k` is 0.
  abbrev pub Gives : Mnet W → Chann → ℕ → ℕ → Type 0
  Gives s c len k =
      let (ret, bytes, w) = env.recv c.fd len s.world in
      (ret ≡ pos k) ⊎ ((k ≡ 0) × (ltb_ℤ ret (pos 0) ≡ true) × (env.errno w ≡ ewouldblock))

  answered_lem : (s : Mnet W) (c : Chann) (len k : ℕ) → Gives s c len k → answered s c len ≡ pos k
  unfolding blocked_as_zero
  answered_lem s c len k (inl ret) = ground (arith, ret)
  answered_lem s c len k (inr (none_read, low, blocked)) = ground (arith, low, blocked, none_read)

  -- `mnet_chann_recv` on a connected TCP channel, with a buffer: if the kernel gives `k` bytes the
  -- result is `k`, and if it answers with a negative number and EWOULDBLOCK the result is 0 and the
  -- channel stays open; the result is added to the bytes counted as received, and nothing else of the
  -- library changes.
  pub recv-returns :
      (s : Mnet W) (c : Chann) (len k : ℕ)
      → IsOpen n s c
      → 0 < len
      → Gives s c len k
      → mnet_chann_recv n true len s
        ≡ some (
          (pos k, received s c len),
          set_heap (after_recv s c len) n (some (record c { bytes_recv = c.bytes_recv +ℤ pos k })),
        )
  recv-returns s c len k o some_len gives =
      let e = answered_lem s c len k gives in
      let good : ltb_ℤ (answered s c len) (pos 0) ≡ false = rw e (ground arith) in
      recv_good s c len o some_len good
      ∙ ap
          (λ (r : ℤ). some (
            (r, received s c len),
            set_heap (after_recv s c len) n (some (record c { bytes_recv = c.bytes_recv +ℤ r })),
          ))
          e

  -- The library after a refused `recv`: the failed channel also counts the result, -1, as received.
  abbrev pub recv_failed : Mnet W → Chann → ℕ → Mnet W
  recv_failed s c len =
      let t = after_recv s c len in
      record (set_heap (record t { world = closed_world t c }) n
        (some (record (failed_chann t c) { bytes_recv = c.bytes_recv +ℤ answered s c len }))) {
          dis_channs = n;
        }

  pub recv_fails :
      (s : Mnet W) (c : Chann) (len : ℕ)
      → IsOpen n s c
      → ltb_ℤ (pos 0) c.fd ≡ true
      → contents c.rwb_send ≡ []
      → 0 < len
      → ltb_ℤ (answered s c len) (pos 0) ≡ true
      → mnet_chann_recv n true len s
        ≡ some ((answered s c len, received s c len), recv_failed s c len)
  unfolding mnet_chann_recv
  recv_fails s c len o opened sent_all some_len bad =
      let room : not true || leb len 0 ≡ false = ground arith in
      let t = after_recv s c len in
      let o' : IsOpen n t c = record {
        there = o.there;
        connected = o.connected;
        stream = o.stream;
        queue = o.queue;
      } in
      rw
        (
          o.there,
          room,
          shown_connected n (λ _. []) s c o,
          recv_stream s c len o,
          bad,
          chann_fail_lem t c o' opened sent_all,
          heap-set_self (record t { world = closed_world t c }) n (some (failed_chann t c)),
          ◌>>=◌,
          ◌>>◌,
        )
        (ap
          (λ (u : Mnet W). some ((answered s c len, received s c len), record u { dis_channs = n }))
          (set_heap_twice (record t { world = closed_world t c }) n (some (failed_chann t c))
            (some (record (failed_chann t c) { bytes_recv = c.bytes_recv +ℤ answered s c len }))))
