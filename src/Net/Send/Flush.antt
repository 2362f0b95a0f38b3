-- ===== src/Net/Send/Flush.antt =====
-- `_chann_sended_rwb` on a TCP channel of the built-in type: it ends, and neither loses, repeats nor
-- reorders a byte, unless the kernel refuses.
use m_net.Base.{
  ℕ, zero, suc, ◌+◌, ◌-◌, ◌≤◌, ◌≡◌, ◌≢◌, refl, sym, ap, ◌∙◌, ◌⊎◌, inl, inr, true, ◌&&◌, Option,
  none, some, List, [], ◌∷◌, ◌++◌, arith, ltb, leb, Bool-cases, length, take, drop, length-drop,
}
use m_net.Base.Int.{pos, negsuc, ltb_ℤ, leb_ℤ}
use m_net.Skiplist.{Ptr}
use m_net.Rwb
use m_net.Rwb.{Rwb, RwbHead}
use m_net.Rwb.Contents.{unsent, contents, IsBlock, queue, drain_param_lem}
use m_net.Rwb.Drain.{drain-contents, drain_head}
use m_net.Rwb.Destroy.{count-zero_iff}
use m_net.Net.State.{Mnet, Chann, ◌>>=◌, set_heap}
use m_net.Net.State.Heap.{heap-set_self}
use m_net.Net.Env.{Env}
use m_net.Net.Send.Kernel.{
  IsKernel, IsOpen, reply, outcome, outcome_cases, chann_send_ok, chann_send_err,
}
use m_net.Net.Send.Round.{
  Flushed, Stuck, Head-cases, fail_hangs, round_blocked, round_refused, round_stops, round_goes_on,
  drained_accepted, Flushed-back,
}
use m_net.Net.Send.{sended_loop, chann_sended_rwb}

-- A drain of the whole head leaves the blocks behind it.
head_gone :
    (q h : RwbHead) (b : Rwb) (bs : List Rwb) (k : ℕ)
    → q ≡ queue (b ∷ bs)
    → IsBlock b
    → k ≡ b.len - b.ptr
    → Rwb.drain q k ≡ some h
    → h.count ≡ length bs
head_gone q h b bs k e p same drained =
    let count_of : Option RwbHead → ℕ = λ r. elim r [ none ↦ 0 | some x ↦ x.count ] in
    ap count_of (
      sym drained
      ∙ ap (λ x. Rwb.drain x k) e
      ∙ ap (Rwb.drain (queue (b ∷ bs))) same
      ∙ drain_head b bs p)

module _ {W : Type 0} ⦃env : Env W⦄ (n : Ptr) (sent : W → List ℕ) where
  -- The theorem for a loop with `fuel` rounds.
  abbrev Ends : ℕ → Type 0
  Ends fuel =
      (s : Mnet W) (c : Chann)
      → IsOpen n s c
      → IsKernel c.fd sent
      → ltb_ℤ (pos 0) c.fd ≡ true
      → ltb 0 c.rwb_send.count ≡ true
      → c.rwb_send.count ≤ fuel
      → Flushed n sent s c (sended_loop fuel n s) ⊎ Stuck n sent s c (sended_loop fuel n s)

  -- A round in which the kernel took `k` bytes of the head.
  flush_round :
      (fuel : ℕ) (s : Mnet W) (c : Chann) (b : Rwb) (bs : List Rwb) (k : ℕ)
      → Ends fuel
      → IsOpen n s c
      → IsKernel c.fd sent
      → ltb_ℤ (pos 0) c.fd ≡ true
      → c.rwb_send.count ≤ suc fuel
      → c.rwb_send ≡ queue (b ∷ bs)
      → IsBlock b
      → k ≤ b.len - b.ptr
      → outcome n sent s c (drop b.ptr b.buf) (b.len - b.ptr) ≡ pos k
      → sent (reply n sent s c (drop b.ptr b.buf) (b.len - b.ptr)).1
        ≡ sent s.world ++ take k (drop b.ptr b.buf)
      → Flushed n sent s c (sended_loop (suc fuel) n s)
        ⊎ Stuck n sent s c (sended_loop (suc fuel) n s)
  flush_round fuel s c b bs zero next o kernel opened enough e p le answer took =
      let buf = drop b.ptr b.buf in
      let len = b.len - b.ptr in
      let (t, bytes, ran, there, exts, worlds) = chann_send_ok n sent s c buf len 0 o answer in
      let d : Chann = record c { bytes_send = bytes } in
      inl (
        t,
        d,
        leb c.rwb_send.count 0,
        round_blocked n sent fuel s t c buf len o (drain_param_lem c.rwb_send b bs e) ran bytes
            there,
        record {
          there = there;
          connected = o.connected;
          stream = ap (λ f. f c.ctype) exts ∙ o.stream;
          queue = o.queue;
        },
        refl,
        drained_accepted n sent s t c d buf (unsent bs) 0 (ap contents e) (omega arith)
            (ap sent worlds ∙ took) refl,
        count-zero_iff c.rwb_send o.queue,
      )
  flush_round fuel s c b bs (suc k) next o kernel opened enough e p le answer took =
      let buf = drop b.ptr b.buf in
      let len = b.len - b.ptr in
      let param = drain_param_lem c.rwb_send b bs e in
      let sized : length buf ≡ len = length-drop b.ptr b.buf ∙ ap (λ m. m - b.ptr) p.sized in
      let (t, bytes, ran, there, exts, worlds) =
        chann_send_ok n sent s c buf len (suc k) o answer in
      let (h, drained, q, left) = drain-contents c.rwb_send (suc k) o.queue in
      let d : Chann = record c { bytes_send = bytes; rwb_send = h } in
      let t' = set_heap t n (some d) in
      let o' : IsOpen n t' d = record {
        there = heap-set_self t n (some d);
        connected = o.connected;
        stream = ap (λ f. f c.ctype) exts ∙ o.stream;
        queue = q;
      } in
      let kept =
        drained_accepted n sent s t' c d buf (unsent bs) (suc k) (ap contents e)
          (omega (arith, sized)) (ap sent worlds ∙ took) left in
      elim (Bool-cases
        (ltb_ℤ (pos 0) (pos (suc k)) && leb_ℤ (pos len) (pos (suc k)) && ltb 0 h.count)) [
          | inr stops ↦ inl (
            t',
            d,
            leb h.count 0,
            round_stops n sent fuel s t c buf len k bytes h o param ran there drained stops,
            o',
            refl,
            kept,
            count-zero_iff h q,
          )
          | inl goes ↦
              let whole : suc k ≡ len = ground (arith, goes, le) in
              let gone = head_gone c.rwb_send h b bs (suc k) e p whole drained in
              Flushed-back n sent s t' c d _ _
                (round_goes_on n sent fuel s t c buf len k bytes h o param ran there drained goes)
                refl kept
                (next t' d o' kernel opened (ground (arith, goes))
                  (omega (arith, gone, ap (λ x. x.count) e, enough)))
        ]

  -- A round in which the kernel refused.
  flush_refused :
      (fuel : ℕ) (s : Mnet W) (c : Chann) (b : Rwb) (bs : List Rwb)
      → IsOpen n s c
      → ltb_ℤ (pos 0) c.fd ≡ true
      → c.rwb_send ≡ queue (b ∷ bs)
      → ltb 0 c.rwb_send.count ≡ true
      → outcome n sent s c (drop b.ptr b.buf) (b.len - b.ptr) ≡ negsuc 0
      → Stuck n sent s c (sended_loop (suc fuel) n s)
  flush_refused fuel s c b bs o opened e used answer =
      let buf = drop b.ptr b.buf in
      let len = b.len - b.ptr in
      let param = drain_param_lem c.rwb_send b bs e in
      let t = record s { world = (reply n sent s c buf len).1 } in
      let pending : contents c.rwb_send ≢ [] = λ none_left.
        absurd (ground (arith, (count-zero_iff c.rwb_send o.queue).1 none_left, used)) in
      let o' : IsOpen n t c = record {
        there = o.there;
        connected = o.connected;
        stream = o.stream;
        queue = o.queue;
      } in
      (
        s,
        c,
        buf,
        len,
        o,
        refl,
        pending,
        param,
        answer,
        round_refused n sent fuel s t c buf len o param (chann_send_err n sent s c buf len o answer)
            (fail_hangs n sent t c o' opened pending),
      )

  flush_loop : (fuel : ℕ) → Ends fuel
  flush_loop zero s c o kernel opened used enough = absurd (ground (arith, used, enough))
  flush_loop (suc fuel) s c o kernel opened used enough =
      let (b, bs, e, p) = Head-cases c.rwb_send o.queue used in
      let buf = drop b.ptr b.buf in
      let len = b.len - b.ptr in
      let sized : length buf ≡ len = length-drop b.ptr b.buf ∙ ap (λ m. m - b.ptr) p.0.sized in
      elim (outcome_cases n sent s c buf len kernel (omega (arith, sized))) [
        | inl (k, le, answer, took) ↦
            flush_round fuel s c b bs k (flush_loop fuel) o kernel opened enough e p.0 le answer
              took
        | inr (answer, same) ↦ inr (flush_refused fuel s c b bs o opened e used answer)
      ]

  -- `_chann_sended_rwb` on a connected TCP channel with an open descriptor either returns, and then
  -- the bytes that the kernel has taken, followed by the cached ones, are those of before, in order,
  -- and the result is true exactly when nothing is cached; or the kernel refused the bytes of the
  -- oldest block, and then the call does not return. Condition: the kernel is as `IsKernel` says.
  pub flush-accounts :
      (s : Mnet W) (c : Chann)
      → IsOpen n s c
      → IsKernel c.fd sent
      → ltb_ℤ (pos 0) c.fd ≡ true
      → Flushed n sent s c (chann_sended_rwb n s) ⊎ Stuck n sent s c (chann_sended_rwb n s)
  unfolding chann_sended_rwb
  flush-accounts s c o kernel opened = elim (Bool-cases (leb c.rwb_send.count 0)) [
    | inl idle ↦ inl (
      s,
      c,
      true,
      rw (o.there, idle, ◌>>=◌),
      o,
      refl,
      refl,
      (λ _. (count-zero_iff c.rwb_send o.queue).0 idle, λ _. refl),
    )
    | inr busy ↦
        let all =
          flush_loop (c.rwb_send.count + 1) s c o kernel opened (ground (arith, busy))
            (omega arith) in
        Flushed-back n sent s s c c _ _ (rw (o.there, busy, ◌>>=◌)) refl refl all
  ]
