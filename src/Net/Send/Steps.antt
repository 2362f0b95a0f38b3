-- ===== src/Net/Send/Steps.antt =====
-- A TCP channel as a byte stream: any sequence of calls of `mnet_chann_send` and `mnet_chann_recv`, of
-- flushes, of changes of its interest, of its messages and of work elsewhere.
use m_net.Base.{
  ℕ, ◌≤◌, ◌<◌, ◌≡◌, refl, sym, ap, subst, ◌∙◌, inl, inr, Bool, true, Option, none, some, List, [],
  ◌++◌, length, take, Option-cases,
}
use m_net.Base.Int.{ℤ, pos, negsuc}
use m_net.Skiplist.{Ptr}
use m_net.Rwb.Contents.{contents, IsQueue}
use m_net.Net.State.{Mnet, Chann, ChannEvent, pure, ◌>>◌}
use m_net.Net.Event.{EvtSet, evt_add, evt_del}
use m_net.Net.Chann.{chann_msg}
use m_net.Net.Send.Failure.{Gives, after_recv}
use m_net.Net.Send.Interest.{Kept}
use m_net.Net.Env.{Env}
use m_net.Net.Send.Kernel.{IsOpen, accepted}
use m_net.Net.Send.{mnet_chann_send, mnet_chann_recv, chann_sended_rwb, chann_fail}

module _ {W : Type 0} ⦃env : Env W⦄ (n : Ptr) (sent : W → List ℕ) where
  -- A session of the channel at `n`: the library's state, the channel, and the bytes that calls of
  -- `mnet_chann_send` have accepted since the start. Its steps are accepted sends, flushes that
  -- return, reads that do not fail, `_evt_add` and `_evt_del` of the channel with any outcome,
  -- messages of the channel, and work elsewhere, which leaves the channel alone and sends nothing on
  -- its socket.
  pub data Session (s0 : Mnet W) (c0 : Chann) : Mnet W → Chann → List ℕ → Type 0 where
    start : Session s0 c0 s0 c0 []
    send :
        {s s' : Mnet W} {c c' : Chann} {bs : List ℕ} (buf : List ℕ) (len : ℕ) {cs : List ℕ}
        → Session s0 c0 s c bs
        → 0 < len
        → len ≤ length buf
        → mnet_chann_send n (some buf) len s ≡ some (pos len, s')
        → s'.heap n ≡ some c'
        → cs ≡ bs ++ take len buf
        → Session s0 c0 s' c' cs
    writable :
        {s s' : Mnet W} {c c' : Chann} {bs : List ℕ} (b : Bool)
        → Session s0 c0 s c bs
        → chann_sended_rwb n s ≡ some (b, s')
        → s'.heap n ≡ some c'
        → Session s0 c0 s' c' bs
    read :
        {s s' : Mnet W} {c c' : Chann} {bs : List ℕ} (len k : ℕ) {out : List ℕ}
        → Session s0 c0 s c bs
        → 0 < len
        → Gives n s c len k
        → sent (after_recv n s c len).world ≡ sent s.world
        → mnet_chann_recv n true len s ≡ some ((pos k, out), s')
        → s'.heap n ≡ some c'
        → Session s0 c0 s' c' bs
    watch :
        {s s' : Mnet W} {c c' : Chann} {bs : List ℕ} (set : EvtSet) (b : Bool)
        → Session s0 c0 s c bs
        → evt_add n set s ≡ some (b, s')
        → s'.heap n ≡ some c'
        → Session s0 c0 s' c' bs
    unwatch :
        {s s' : Mnet W} {c c' : Chann} {bs : List ℕ} (set : EvtSet) (b : Bool)
        → Session s0 c0 s c bs
        → evt_del n set s ≡ some (b, s')
        → s'.heap n ≡ some c'
        → Session s0 c0 s' c' bs
    told :
        {s s' : Mnet W} {c c' : Chann} {bs : List ℕ} (event : ChannEvent) (r : Ptr) (err : ℤ)
        (b : Bool)
        → Session s0 c0 s c bs
        → chann_msg n event r err s ≡ some (b, s')
        → s'.heap n ≡ some c'
        → Session s0 c0 s' c' bs
    elsewhere :
        {s s' : Mnet W} {c : Chann} {bs : List ℕ}
        → Session s0 c0 s c bs
        → s'.heap n ≡ s.heap n
        → s'.ext_config ≡ s.ext_config
        → sent s'.world ≡ sent s.world
        → Session s0 c0 s' c bs

  -- What holds of the channel in a session.
  abbrev pub Delivers : Mnet W → Chann → Mnet W → Chann → List ℕ → Type 0
  Delivers s0 c0 s c bs =
      IsOpen n s c × (c.fd ≡ c0.fd) × (accepted sent s c ≡ accepted sent s0 c0 ++ bs)

  pub not_failed :
      (t s' : Mnet W) (len : ℕ) → (do chann_fail n; pure (negsuc 0)) t ≡ some (pos len, s') → ⊥
  not_failed t s' len e = elim (Option-cases (chann_fail n t)) [
    | inl z ↦ let r : (do chann_fail n; pure (negsuc 0)) t ≡ none = rw (z, ◌>>◌) in cc
    | inr ((_, u), z) ↦
        let r : (do chann_fail n; pure (negsuc 0)) t ≡ some (negsuc 0, u) = rw (z, ◌>>◌) in cc
  ]

  -- A result is one only.
  pub same_result :
      {A : Type 0} (a b : A) (r : Option (A × Mnet W)) (s t : Mnet W) (c d : Chann)
      → r ≡ some (a, s)
      → r ≡ some (b, t)
      → s.heap n ≡ some c
      → t.heap n ≡ some d
      → (s ≡ t) × (c ≡ d)
  same_result a b r s t c d e f h k =
      let same : s ≡ t = cc in
      let heaps : s.heap n ≡ t.heap n = ap (λ (u : Mnet W). u.heap n) same in (same, cc)

  pub moved :
      (s0 s t : Mnet W) (c0 c d : Chann) (bs : List ℕ)
      → s ≡ t
      → c ≡ d
      → Delivers s0 c0 s c bs
      → Delivers s0 c0 t d bs
  moved s0 s t c0 c d bs e f h =
      subst (λ u. Delivers s0 c0 u d bs) e (subst (λ k. Delivers s0 c0 s k bs) f h)

  -- A step that keeps descriptor, state, type and queue of the channel.
  pub kept :
      (s0 s t : Mnet W) (c0 c d : Chann) (bs : List ℕ)
      → Delivers s0 c0 s c bs
      → t.heap n ≡ some d
      → d.state ≡ c.state
      → d.fd ≡ c.fd
      → d.ctype ≡ c.ctype
      → d.rwb_send ≡ c.rwb_send
      → t.ext_config ≡ s.ext_config
      → sent t.world ≡ sent s.world
      → Delivers s0 c0 t d bs
  kept s0 s t c0 c d bs (o, fd, acc) there states fds types queues exts sents = (
    record {
      there = there;
      connected = states ∙ o.connected;
      stream = ap t.ext_config types ∙ ap (λ f. f c.ctype) exts ∙ o.stream;
      queue = subst IsQueue (sym queues) o.queue;
    },
    fds ∙ fd,
    ap (λ k. k ++ contents d.rwb_send) sents ∙ ap (λ q. sent s.world ++ contents q) queues ∙ acc,
  )

  -- The interest of the channel has changed at most.
  pub interest :
      (s0 s s' : Mnet W) (c0 c c' : Chann) (bs : List ℕ) (b : Bool) (r : Option (Bool × Mnet W))
      → Delivers s0 c0 s c bs
      → Kept n sent s c r
      → r ≡ some (b, s')
      → s'.heap n ≡ some c'
      → Delivers s0 c0 s' c' bs
  interest s0 s s' c0 c c' bs b r h (b', t, v, ran', now, exts, sents) ran there =
      let d : Chann = record c { epoll_events = v } in
      let (e, f) = same_result b' b r t s' d c' ran' ran now there in
      moved s0 t s' c0 d c' bs e f (kept s0 s t c0 c d bs h now refl refl refl refl exts sents)
