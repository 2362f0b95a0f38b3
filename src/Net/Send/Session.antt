-- ===== src/Net/Send/Session.antt =====
-- What holds of a TCP channel after any session, and what the next send comes to.
use m_net.Base.{
  ℕ, ◌≤◌, ◌<◌, ◌≡◌, refl, sym, ap, subst, ◌∙◌, ◌⊎◌, inl, inr, true, some, List, ◌++◌, append_assoc,
  append-nil, length, take,
}
use m_net.Base.Int.{pos, ltb_ℤ, ◌+ℤ◌}
use m_net.Skiplist.{Ptr}
use m_net.Rwb.Contents.{contents}
use m_net.Net.State.{Mnet, Chann, ExtConfig, Fn, set_heap}
use m_net.Net.State.Heap.{heap-set_self}
use m_net.Net.Event.{evt_add, evt_del}
use m_net.Net.Chann.{chann_msg}
use m_net.Net.Chann.Message.{with_message, chann_msg_here}
use m_net.Net.Send.Failure.{received, after_recv, recv-returns}
use m_net.Net.Send.Interest.{evt_add_keeps, evt_del_keeps}
use m_net.Net.Env.{Env}
use m_net.Net.Send.Kernel.{IsKernel, IsOpen, accepted, reply}
use m_net.Net.Send.Stream.{Accepts, Fails, send-accounts}
use m_net.Net.Send.Flush.{flush-accounts}
use m_net.Net.Send.{mnet_chann_send, mnet_chann_recv, chann_sended_rwb}
use m_net.Net.Send.Steps.{
  Session, start, send, writable, read, watch, unwatch, told, elsewhere, Delivers, not_failed,
  same_result, moved, kept, interest,
}

module _ {W : Type 0} ⦃env : Env W⦄ (n : Ptr) (sent : W → List ℕ) where
  session_lem :
      {s0 : Mnet W} {c0 : Chann} {s : Mnet W} {c : Chann} {bs : List ℕ}
      → IsOpen n s0 c0
      → IsKernel c0.fd sent
      → ltb_ℤ (pos 0) c0.fd ≡ true
      → Session n sent s0 c0 s c bs
      → Delivers n sent s0 c0 s c bs
  session_lem o kernel opened start = (o, refl, sym (append-nil _))
  session_lem {s0} {c0} o kernel opened
        (send {s} {s'} {c} {c'} {bs} buf len {cs} before some_len enough ran there grown) =
      let (o', fd, acc) = session_lem o kernel opened before in
      let kernel' : IsKernel c.fd sent = subst (λ k. IsKernel k sent) (sym fd) kernel in
      elim (send-accounts n sent s c buf len o' kernel' some_len enough) [
        | inl (t, d, ran', o'', fd', acc') ↦
            let (e, f) =
              same_result n sent (pos len) (pos len) (mnet_chann_send n (some buf) len s) t s' d c'
                ran' ran o''.there there in
            moved n sent s0 t s' c0 d c' cs e f (
              o'',
              fd' ∙ fd,
              acc'
                  ∙ ap (λ k. k ++ take len buf) acc
                  ∙ append_assoc (accepted sent s0 c0) bs (take len buf)
                  ∙ ap (λ k. accepted sent s0 c0 ++ k) (sym grown),
            )
        | inr (t, same, raw, other, worlds, left, failed) ↦
            absurd (not_failed n sent t s' len (sym failed ∙ ran))
      ]
  session_lem {s0} {c0} o kernel opened (writable {s} {s'} {c} {c'} {bs} b before ran there) =
      let (o', fd, acc) = session_lem o kernel opened before in
      let kernel' : IsKernel c.fd sent = subst (λ k. IsKernel k sent) (sym fd) kernel in
      let opened' : ltb_ℤ (pos 0) c.fd ≡ true = ap (ltb_ℤ (pos 0)) fd ∙ opened in
      elim (flush-accounts n sent s c o' kernel' opened') [
        | inl (t, d, b', ran', o'', fd', acc', iff) ↦
            let (e, f) =
              same_result n sent b' b (chann_sended_rwb n s) t s' d c' ran' ran o''.there there in
            moved n sent s0 t s' c0 d c' bs e f (o'', fd' ∙ fd, acc' ∙ acc)
        | inr (t, d, buf, len, o'', acc', left, param, refused, hangs) ↦ cc
      ]
  session_lem {s0} {c0} o kernel opened
        (read {s} {s'} {c} {c'} {bs} len k {out} before some_len gives none_sent ran there) =
      let h = session_lem o kernel opened before in
      let d : Chann = record c { bytes_recv = c.bytes_recv +ℤ pos k } in
      let t = set_heap (after_recv n s c len) n (some d) in
      let now : t.heap n ≡ some d = heap-set_self (after_recv n s c len) n (some d) in
      let (e, f) =
        same_result n sent (pos k, received n s c len) (pos k, out) (mnet_chann_recv n true len s) t
          s' d c' (recv-returns n s c len k h.0 some_len gives) ran now there in
      moved n sent s0 t s' c0 d c' bs e f
        (kept n sent s0 s t c0 c d bs h now refl refl refl refl refl none_sent)
  session_lem {s0} {c0} o kernel opened (watch {s} {s'} {c} {c'} {bs} set b before ran there) =
      let h = session_lem o kernel opened before in
      let kernel' : IsKernel c.fd sent = subst (λ k. IsKernel k sent) (sym h.1) kernel in
      interest n sent s0 s s' c0 c c' bs b (evt_add n set s) h
        (evt_add_keeps n sent s c set kernel' h.0.there) ran there
  session_lem {s0} {c0} o kernel opened (unwatch {s} {s'} {c} {c'} {bs} set b before ran there) =
      let h = session_lem o kernel opened before in
      let kernel' : IsKernel c.fd sent = subst (λ k. IsKernel k sent) (sym h.1) kernel in
      interest n sent s0 s s' c0 c c' bs b (evt_del n set s) h
        (evt_del_keeps n sent s c set kernel' h.0.there) ran there
  session_lem {s0} {c0} o kernel opened
        (told {s} {s'} {c} {c'} {bs} event r err b before ran there) =
      let h = session_lem o kernel opened before in
      let d = with_message n c event r err in
      let t = set_heap s n (some d) in
      let now : t.heap n ≡ some d = heap-set_self s n (some d) in
      let builtin : (s.ext_config c.ctype).filter_fn ≡ some Fn.ext_filter_fn =
        ap (λ (x : ExtConfig). x.filter_fn) h.0.stream in
      let (e, f) =
        same_result n sent true b (chann_msg n event r err s) t s' d c'
          (chann_msg_here n s c event r err h.0.there builtin) ran now there in
      moved n sent s0 t s' c0 d c' bs e f
        (kept n sent s0 s t c0 c d bs h now refl refl refl refl refl refl)
  session_lem {s0} {c0} o kernel opened (elsewhere {s} {s'} {c} {bs} before heaps exts sents) =
      let (o', fd, acc) = session_lem o kernel opened before in
      (
        record {
          there = heaps ∙ o'.there;
          connected = o'.connected;
          stream = ap (λ f. f c.ctype) exts ∙ o'.stream;
          queue = o'.queue;
        },
        fd,
        ap (λ k. k ++ contents c.rwb_send) sents ∙ acc,
      )

  -- A TCP channel of the built-in type that starts connected, with an open descriptor, after any
  -- session, that is any sequence of accepted sends, flushes that return, reads that do not fail,
  -- changes of its interest, messages of it, and work elsewhere: the channel is connected on the
  -- same descriptor, and the bytes that the kernel has taken on it, followed by the cached ones, are
  -- those of the start followed by all accepted ones, each once and in order. The next call of
  -- `mnet_chann_send` either accepts all its bytes, in order behind these, or fails the channel, and
  -- then the kernel has taken everything that was accepted. Conditions: the kernel is as `IsKernel`
  -- says, and takes no byte in a read; the call has a length, and that many bytes.
  pub Session-Delivers :
      {s0 : Mnet W} {c0 : Chann} {s : Mnet W} {c : Chann} {bs : List ℕ} (buf : List ℕ) (len : ℕ)
      → IsOpen n s0 c0
      → IsKernel c0.fd sent
      → ltb_ℤ (pos 0) c0.fd ≡ true
      → Session n sent s0 c0 s c bs
      → 0 < len
      → len ≤ length buf
      → Delivers n sent s0 c0 s c bs
        × (Accepts n sent s c buf len (mnet_chann_send n (some buf) len s)
            ⊎ (Fails n sent s c buf len (mnet_chann_send n (some buf) len s)
                × (sent (reply n sent s c buf len).1 ≡ accepted sent s0 c0 ++ bs)))
  Session-Delivers {s0} {c0} {s} {c} {bs} buf len o kernel opened session some_len enough =
      let h = session_lem o kernel opened session in
      let kernel' : IsKernel c.fd sent = subst (λ k. IsKernel k sent) (sym h.1) kernel in
      (
        h,
        elim (send-accounts n sent s c buf len h.0 kernel' some_len enough) [
          | inl accepts ↦ inl accepts
          | inr fails ↦ inr (fails, all_taken s0 s c0 c bs buf len h fails)
        ],
      )
    where
      all_taken :
          (s0 s : Mnet W) (c0 c : Chann) (bs buf : List ℕ) (len : ℕ)
          → Delivers n sent s0 c0 s c bs
          → Fails n sent s c buf len (mnet_chann_send n (some buf) len s)
          → sent (reply n sent s c buf len).1 ≡ accepted sent s0 c0 ++ bs
      all_taken s0 s c0 c bs buf len (o, fd, acc) (t, same, raw, other, worlds, left, failed) =
          sym (ap (λ (u : Mnet W). sent u.world) same)
          ∙ worlds
          ∙ sym (append-nil (sent s.world))
          ∙ ap (λ q. sent s.world ++ q) (sym left)
          ∙ acc
