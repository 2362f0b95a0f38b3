-- ===== src/Net/Send/Stream.antt =====
-- `mnet_chann_send` on a TCP channel of the built-in type neither loses, repeats nor reorders a
-- byte: what the kernel has taken and what is cached make up what was accepted.
use m_net.Base.{
  ℕ, ◌-◌, ◌≤◌, ◌<◌, ◌≡◌, refl, sym, ap, subst, ◌∙◌, ◌⊎◌, inl, inr, true, false, Option, some, List,
  [], ◌++◌, append_assoc, append-nil, arith, ltb, leb, ◌==◌, Bool-cases, length, take, drop,
  length-drop, take-append_drop,
}
use m_net.Base.Int.{ℤ, pos, negsuc, ltb_ℤ}
use m_net.Skiplist.{Ptr}
use m_net.Rwb
use m_net.Rwb.{RwbHead}
use m_net.Rwb.Contents.{contents, contents-cache, cache-IsQueue, contents-nil_of_count}
use m_net.Net.State.{Mnet, Chann, pure, ◌>>=◌, ◌>>◌, set_heap}
use m_net.Net.Env.{Env, ewouldblock}
use m_net.Net.Event.{EvtSet, added}
use m_net.Net.Send.Interest.{evt_add_keeps}
use m_net.Net.Send.Kernel.{
  IsKernel, IsOpen, accepted, shown_connected, reply, outcome, outcome_cases, refusal_lem,
  chann_send_ok, chann_send_err,
}
use m_net.Net.Send.{chann_send, mnet_chann_send, chann_fail}

module _ {W : Type 0} ⦃env : Env W⦄ (n : Ptr) (sent : W → List ℕ) where
  -- All `len` bytes are accepted: the channel stays open.
  abbrev pub Accepts : Mnet W → Chann → List ℕ → ℕ → Option (ℤ × Mnet W) → Type 0
  Accepts s c buf len r =
      (s' : Mnet W) × (c' : Chann) × (r ≡ some (pos len, s'))
      × IsOpen n s' c'
      × (c'.fd ≡ c.fd)
      × (accepted sent s' c' ≡ accepted sent s c ++ take len buf)

  -- The kernel refused: it answered the bytes with -1 and another error than EWOULDBLOCK, and has
  -- taken nothing; no byte was cached, and the channel is failed in the state after that answer.
  abbrev pub Fails : Mnet W → Chann → List ℕ → ℕ → Option (ℤ × Mnet W) → Type 0
  Fails s c buf len r =
      (t : Mnet W) × (t ≡ record s { world = (reply n sent s c buf len).1 })
      × ((reply n sent s c buf len).0 ≡ negsuc 0)
      × ((env.errno t.world == ewouldblock) ≡ false)
      × (sent t.world ≡ sent s.world)
      × (contents c.rwb_send ≡ [])
      × (r ≡ (do chann_fail n; pure (negsuc 0)) t)

  -- The queue is in use: the bytes join it.
  send_queued :
      (s : Mnet W) (c : Chann) (buf : List ℕ) (len : ℕ)
      → IsOpen n s c
      → 0 < len
      → len ≤ length buf
      → ltb 0 c.rwb_send.count ≡ true
      → Accepts s c buf len (mnet_chann_send n (some buf) len s)
  unfolding mnet_chann_send
  send_queued s c buf len o pos_len enough used =
      let some_len : leb len 0 ≡ false = ground arith in
      let q = Rwb.cache c.rwb_send buf len in
      (
        set_heap s n (some (record c { rwb_send = q })),
        record c { rwb_send = q },
        rw (o.there, some_len, shown_connected n sent s c o, used, o.there, ◌>>=◌, ◌>>◌),
        record {
          there = ground arith;
          connected = o.connected;
          stream = o.stream;
          queue = cache-IsQueue c.rwb_send buf len o.queue pos_len enough;
        },
        refl,
        ap (λ r. sent s.world ++ r) (contents-cache c.rwb_send buf len o.queue)
            ∙ sym (append_assoc (sent s.world) (contents c.rwb_send) (take len buf)),
      )

  -- The rest of a send that the kernel took in part.
  send_partial :
      (s t : Mnet W) (c : Chann) (buf : List ℕ) (len k : ℕ) (b : ℤ)
      → IsOpen n s c
      → IsKernel c.fd sent
      → 0 < len
      → len ≤ length buf
      → ltb 0 c.rwb_send.count ≡ false
      → k < len
      → chann_send n buf len s ≡ some (pos k, t)
      → t.heap n ≡ some (record c { bytes_send = b })
      → t.ext_config ≡ s.ext_config
      → sent t.world ≡ sent s.world ++ take k buf
      → Accepts s c buf len (mnet_chann_send n (some buf) len s)
  unfolding mnet_chann_send
  send_partial s t c buf len k b o kernel pos_len enough unused part ran there exts took =
      let some_len : leb len 0 ≡ false = ground arith in
      let good : ltb_ℤ (pos k) (pos 0) ≡ false = ground arith in
      let less : ltb_ℤ (pos k) (pos len) ≡ true = ground arith in
      let q = Rwb.cache c.rwb_send (drop k buf) (len - k) in
      let c' : Chann = record c { bytes_send = b; rwb_send = q } in
      let t' = set_heap t n (some c') in
      let (r, s', v, added, now_there, exts', sents) =
        evt_add_keeps n sent t' c' EvtSet.write kernel (ground arith) in
      (
        s',
        record c' { epoll_events = v },
        rw (
          o.there,
          some_len,
          shown_connected n sent s c o,
          unused,
          ran,
          good,
          less,
          there,
          added,
          ◌>>=◌,
          ◌>>◌,
        ),
        record {
          there = now_there;
          connected = o.connected;
          stream = ap (λ f. f c.ctype) (exts' ∙ exts) ∙ o.stream;
          queue =
              cache-IsQueue c.rwb_send (drop k buf) (len - k) o.queue (omega arith)
                (omega (arith, length-drop k buf));
        },
        refl,
        rw
            (
              sents,
              took,
              contents-cache c.rwb_send (drop k buf) (len - k) o.queue,
              contents-nil_of_count c.rwb_send o.queue unused,
              append-nil (sent s.world),
            )
            (append_assoc (sent s.world) (take k buf) (take (len - k) (drop k buf))
              ∙ ap (λ r. sent s.world ++ r) (take-append_drop k len buf (omega arith))),
      )

  -- The kernel took everything.
  send_whole :
      (s t : Mnet W) (c : Chann) (buf : List ℕ) (len : ℕ) (b : ℤ)
      → IsOpen n s c
      → 0 < len
      → ltb 0 c.rwb_send.count ≡ false
      → chann_send n buf len s ≡ some (pos len, t)
      → t.heap n ≡ some (record c { bytes_send = b })
      → t.ext_config ≡ s.ext_config
      → sent t.world ≡ sent s.world ++ take len buf
      → Accepts s c buf len (mnet_chann_send n (some buf) len s)
  unfolding mnet_chann_send
  send_whole s t c buf len b o pos_len unused ran there exts took =
      let some_len : leb len 0 ≡ false = ground arith in
      let good : ltb_ℤ (pos len) (pos 0) ≡ false = ground arith in
      let all : ltb_ℤ (pos len) (pos len) ≡ false = ground arith in
      (
        t,
        record c { bytes_send = b },
        rw (o.there, some_len, shown_connected n sent s c o, unused, ran, good, all, ◌>>=◌),
        record {
          there = there;
          connected = o.connected;
          stream = ap (λ f. f c.ctype) exts ∙ o.stream;
          queue = o.queue;
        },
        refl,
        rw (took, contents-nil_of_count c.rwb_send o.queue unused)
            (append-nil (sent s.world ++ take len buf)
              ∙ ap (λ r. r ++ take len buf) (sym (append-nil (sent s.world)))),
      )

  send_refused :
      (s : Mnet W) (c : Chann) (buf : List ℕ) (len : ℕ)
      → IsOpen n s c
      → IsKernel c.fd sent
      → 0 < len
      → ltb 0 c.rwb_send.count ≡ false
      → outcome n sent s c buf len ≡ negsuc 0
      → sent (reply n sent s c buf len).1 ≡ sent s.world
      → Fails s c buf len (mnet_chann_send n (some buf) len s)
  unfolding mnet_chann_send
  send_refused s c buf len o kernel pos_len unused e same =
      let (raw, other) = refusal_lem n sent s c buf len kernel e in
      let some_len : leb len 0 ≡ false = ground arith in
      (
        record s { world = (reply n sent s c buf len).1 },
        refl,
        raw,
        other,
        same,
        contents-nil_of_count c.rwb_send o.queue unused,
        rw (
          o.there,
          some_len,
          shown_connected n sent s c o,
          unused,
          chann_send_err n sent s c buf len o e,
          ◌>>=◌,
          ◌>>◌,
        ),
      )

  -- `mnet_chann_send` on a connected TCP channel either accepts all `len` bytes, and then the bytes
  -- that the kernel has taken, followed by the cached ones, are those of before followed by the new
  -- ones, in order; or, only with an empty cache, the kernel answered -1 with another error than
  -- EWOULDBLOCK, has taken no byte, and the channel is failed. Conditions: the kernel is as `IsKernel` says, `len` is not 0, and `buf`
  -- has that many bytes.
  pub send-accounts :
      (s : Mnet W) (c : Chann) (buf : List ℕ) (len : ℕ)
      → IsOpen n s c
      → IsKernel c.fd sent
      → 0 < len
      → len ≤ length buf
      → Accepts s c buf len (mnet_chann_send n (some buf) len s)
        ⊎ Fails s c buf len (mnet_chann_send n (some buf) len s)
  send-accounts s c buf len o kernel pos_len enough = elim (Bool-cases (ltb 0 c.rwb_send.count)) [
    | inl used ↦ inl (send_queued s c buf len o pos_len enough used)
    | inr unused ↦ elim (outcome_cases n sent s c buf len kernel enough) [
      | inl (k, le, e, took) ↦
          let (t, b, ran, there, exts, worlds) = chann_send_ok n sent s c buf len k o e in
          elim (Bool-cases (ltb k len)) [
            | inl part ↦ inl (
                send_partial s t c buf len k b o kernel pos_len enough unused (ground (arith, part))
                  ran there exts (ap sent worlds ∙ took))
            | inr not_less ↦
                let same : k ≡ len = ground (arith, not_less, le) in
                inl (
                  send_whole s t c buf len b o pos_len unused
                    (subst (λ m. chann_send n buf len s ≡ some (pos m, t)) same ran) there exts
                    (ap sent worlds
                      ∙ subst (λ m. sent (reply n sent s c buf len).1 ≡ sent s.world ++ take m buf)
                          same took))
          ]
      | inr (e, same) ↦ inr (send_refused s c buf len o kernel pos_len unused e same)
    ]
  ]
