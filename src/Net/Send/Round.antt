-- ===== src/Net/Send/Round.antt =====
-- One round of `_chann_sended_rwb` on a TCP channel of the built-in type, and what the call comes to.
use m_net.Base.{
  ℕ, suc, ◌≤◌, ◌≡◌, ◌≢◌, ◌↔◌, refl, ap, ◌∙◌, ◌⊎◌, inl, inr, Bool, true, false, ◌&&◌, Option, none,
  some, List, [], ◌∷◌, ◌++◌, append_assoc, arith, ltb, leb, All, length, take, drop,
  take-append_drop_le,
}
use m_net.Base.Int.{ℤ, pos, negsuc, ltb_ℤ, leb_ℤ}
use m_net.Skiplist.{Ptr}
use m_net.Rwb
use m_net.Rwb.{Rwb, RwbHead}
use m_net.Rwb.Contents.{contents, IsBlock, IsQueue, queue, queue_lem}
use m_net.Net.State.{Mnet, Chann, ◌>>=◌, ◌>>◌, set_heap}
use m_net.Net.State.Heap.{heap-set_self}
use m_net.Net.Env.{Env}
use m_net.Net.Chann.Disconnect.{IsLive, disconnect-none}
use m_net.Net.Send.Kernel.{IsOpen, accepted, outcome}
use m_net.Net.Send.{chann_send, chann_fail, drain_queue, sended_loop}

-- A queue that is in use has a head.
abbrev pub Head : RwbHead → Type 0
Head h = (b : Rwb) × (bs : List Rwb) × (h ≡ queue (b ∷ bs)) × All IsBlock (b ∷ bs)

pub Head-cases : (h : RwbHead) → IsQueue h → ltb 0 h.count ≡ true → Head h
Head-cases h q used = go h.blocks (queue_lem h q) q.all_pending used
  where
    go : (bs : List Rwb) → h ≡ queue bs → All IsBlock bs → ltb 0 h.count ≡ true → Head h
    go [] e p u = absurd (cc (ap (λ k. ltb 0 k.count) e))
    go (b ∷ bs) e p u = (b, bs, e, p)

module _ {W : Type 0} ⦃env : Env W⦄ (n : Ptr) (sent : W → List ℕ) where
  -- The call returns; nothing of what was accepted is lost, and the result says whether all of it
  -- is with the kernel.
  abbrev pub Flushed : Mnet W → Chann → Option (Bool × Mnet W) → Type 0
  Flushed s c r =
      (s' : Mnet W) × (c' : Chann) × (b : Bool) × (r ≡ some (b, s'))
      × IsOpen n s' c'
      × (c'.fd ≡ c.fd)
      × (accepted sent s' c' ≡ accepted sent s c)
      × ((b ≡ true) ↔ (contents c'.rwb_send ≡ []))

  -- The kernel refused the bytes of the head, and the call does not return.
  abbrev pub Stuck : Mnet W → Chann → Option (Bool × Mnet W) → Type 0
  Stuck s c r =
      (t : Mnet W) × (d : Chann) × (buf : List ℕ) × (len : ℕ) × IsOpen n t d
      × (accepted sent t d ≡ accepted sent s c)
      × (contents d.rwb_send ≢ [])
      × (Rwb.drain_param d.rwb_send ≡ some (buf, len))
      × (outcome n sent t d buf len ≡ negsuc 0)
      × (r ≡ none)

  pub fail_hangs :
      (s : Mnet W) (c : Chann)
      → IsOpen n s c
      → ltb_ℤ (pos 0) c.fd ≡ true
      → contents c.rwb_send ≢ []
      → chann_fail n s ≡ none
  unfolding chann_fail
  fail_hangs s c o opened pending =
      let live : IsLive n s c = record {
        there = o.there;
        opened = opened;
        active = rw o.connected refl;
        builtin = rw o.stream refl;
        queue = o.queue;
      } in
      rw (disconnect-none n s c live pending, ◌>>=◌)

  -- The kernel would have blocked.
  pub round_blocked :
      (fuel : ℕ) (s t : Mnet W) (c : Chann) (buf : List ℕ) (len : ℕ)
      → IsOpen n s c
      → Rwb.drain_param c.rwb_send ≡ some (buf, len)
      → chann_send n buf len s ≡ some (pos 0, t)
      → (b : ℤ) → t.heap n ≡ some (record c { bytes_send = b })
      → sended_loop (suc fuel) n s ≡ some (leb c.rwb_send.count 0, t)
  unfolding sended_loop
  round_blocked fuel s t c buf len o param ran b there =
      rw (o.there, param, ran, there, ◌>>=◌, ◌>>◌)

  -- The kernel refused.
  pub round_refused :
      (fuel : ℕ) (s t : Mnet W) (c : Chann) (buf : List ℕ) (len : ℕ)
      → IsOpen n s c
      → Rwb.drain_param c.rwb_send ≡ some (buf, len)
      → chann_send n buf len s ≡ some (negsuc 0, t)
      → chann_fail n t ≡ none
      → sended_loop (suc fuel) n s ≡ none
  unfolding sended_loop
  round_refused fuel s t c buf len o param ran fails = rw (o.there, param, ran, fails, ◌>>=◌, ◌>>◌)

  -- The kernel took bytes, and the loop stops or goes on.
  pub round_stops :
      (fuel : ℕ) (s t : Mnet W) (c : Chann) (buf : List ℕ) (len k : ℕ) (b : ℤ) (h : RwbHead)
      → IsOpen n s c
      → Rwb.drain_param c.rwb_send ≡ some (buf, len)
      → chann_send n buf len s ≡ some (pos (suc k), t)
      → t.heap n ≡ some (record c { bytes_send = b })
      → Rwb.drain c.rwb_send (suc k) ≡ some h
      → ltb_ℤ (pos 0) (pos (suc k)) && leb_ℤ (pos len) (pos (suc k)) && ltb 0 h.count ≡ false
      → sended_loop (suc fuel) n s
        ≡ some (leb h.count 0, set_heap t n (some (record c { bytes_send = b; rwb_send = h })))
  unfolding sended_loop drain_queue
  round_stops fuel s t c buf len k b h o param ran there drained stops =
      let took : ltb_ℤ (pos 0) (pos (suc k)) ≡ true = ground arith in
      rw (o.there, param, ran, took, there, drained, there, heap-set_self t n, stops, ◌>>=◌, ◌>>◌)

  pub round_goes_on :
      (fuel : ℕ) (s t : Mnet W) (c : Chann) (buf : List ℕ) (len k : ℕ) (b : ℤ) (h : RwbHead)
      → IsOpen n s c
      → Rwb.drain_param c.rwb_send ≡ some (buf, len)
      → chann_send n buf len s ≡ some (pos (suc k), t)
      → t.heap n ≡ some (record c { bytes_send = b })
      → Rwb.drain c.rwb_send (suc k) ≡ some h
      → ltb_ℤ (pos 0) (pos (suc k)) && leb_ℤ (pos len) (pos (suc k)) && ltb 0 h.count ≡ true
      → sended_loop (suc fuel) n s
        ≡ sended_loop fuel n (set_heap t n (some (record c { bytes_send = b; rwb_send = h })))
  unfolding sended_loop drain_queue
  round_goes_on fuel s t c buf len k b h o param ran there drained goes =
      let took : ltb_ℤ (pos 0) (pos (suc k)) ≡ true = ground arith in
      rw (o.there, param, ran, took, there, drained, there, heap-set_self t n, goes, ◌>>=◌, ◌>>◌)
        refl

  -- The channel after a round in which the kernel took `k` bytes of the head.
  pub drained_accepted :
      (s t : Mnet W) (c d : Chann) (buf rest : List ℕ) (k : ℕ)
      → contents c.rwb_send ≡ buf ++ rest
      → k ≤ length buf
      → sent t.world ≡ sent s.world ++ take k buf
      → contents d.rwb_send ≡ drop k (contents c.rwb_send)
      → accepted sent t d ≡ accepted sent s c
  drained_accepted s t c d buf rest k front le took left =
      rw (took, left, front)
        (append_assoc (sent s.world) (take k buf) (drop k (buf ++ rest))
          ∙ ap (λ r. sent s.world ++ r) (take-append_drop_le k buf rest le))

  -- What holds of the rounds that are left holds of all of them.
  pub Flushed-back :
      (s s1 : Mnet W) (c c1 : Chann) (r r1 : Option (Bool × Mnet W))
      → r ≡ r1
      → c1.fd ≡ c.fd
      → accepted sent s1 c1 ≡ accepted sent s c
      → Flushed s1 c1 r1 ⊎ Stuck s1 c1 r1
      → Flushed s c r ⊎ Stuck s c r
  Flushed-back s s1 c c1 r r1 same fds accs (inl (s', c', b, ran, o, fd, acc, iff)) =
      inl (s', c', b, same ∙ ran, o, fd ∙ fds, acc ∙ accs, iff)
  Flushed-back s s1 c c1 r r1 same fds accs
        (inr (t, d, buf, len, o, acc, left, param, refused, ran)) =
      inr (t, d, buf, len, o, acc ∙ accs, left, param, refused, same ∙ ran)
