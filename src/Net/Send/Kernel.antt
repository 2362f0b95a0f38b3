-- ===== src/Net/Send/Kernel.antt =====
-- A connected TCP channel of the built-in type, what is asked of the kernel, and one call of `send`.
use m_net.Base.{
  ℕ, zero, suc, ◌≤◌, ◌≡◌, refl, sym, ap, ◌∙◌, ◌⊎◌, inl, inr, true, false, some, List, ◌++◌,
  append-nil, arith, ◌==◌, Bool-cases, length, take, length-take_le, take-take,
}
use m_net.Base.Int.{ℤ, pos, negsuc, ltb_ℤ, ◌+ℤ◌}
use m_net.Skiplist.{Ptr}
use m_net.Rwb.Contents.{contents, IsQueue}
use m_net.Net.State.{Mnet, Chann, ChannState, Fn, ExtConfig, Events, ◌>>=◌, ◌>>◌, set_heap}
use m_net.Net.Env.{Env, SysCall, CtlOp, ewouldblock}
use m_net.Net.Ext.{ext_internal_config, call_send, ext_stream_send, call_state, blocked_as_zero}
use m_net.Net.Send.{chann_send, shown_state}

-- The entry that `mnet_init` makes for CHANN_TYPE_STREAM.
abbrev pub stream_config : ExtConfig
stream_config = record ext_internal_config {
  reserved = true;
  recv_fn = some Fn.ext_stream_recv;
  send_fn = some Fn.ext_stream_send;
}

module _ {W : Type 0} ⦃env : Env W⦄ (fd : ℤ) (sent : W → List ℕ) where
  -- What is asked of the kernel: `sent` lists the bytes it has taken on `fd`. A send takes a first
  -- part of the bytes and returns its length, or takes nothing and returns -1; calls about epoll and
  -- memory take none.
  pub record IsKernel : Type 0 where
    pub send_law :
        (bs : List ℕ) (w : W)
        → ((k : ℕ) × (k ≤ length bs)
            × ((env.call (SysCall.send fd bs) w).0 ≡ pos k)
            × (sent (env.call (SysCall.send fd bs) w).1 ≡ sent w ++ take k bs))
          ⊎ (((env.call (SysCall.send fd bs) w).0 ≡ negsuc 0)
              × (sent (env.call (SysCall.send fd bs) w).1 ≡ sent w))
    pub ctl_law :
        (op : CtlOp) (v : Events) (p : Ptr) (w : W)
        → sent (env.call (SysCall.epoll_ctl op fd v p) w).1 ≡ sent w
    pub realloc_law : (w : W) → sent (env.realloc w).1 ≡ sent w

module _ {W : Type 0} where
  -- The channel `c` at `n` is a connected TCP channel with a well-formed queue.
  pub record IsOpen (n : Ptr) (s : Mnet W) (c : Chann) : Type 0 where
    pub there : s.heap n ≡ some c
    pub connected : c.state ≡ ChannState.connected
    pub stream : s.ext_config c.ctype ≡ stream_config
    pub queue : IsQueue c.rwb_send

  -- The bytes accepted so far, in order.
  abbrev pub accepted : (W → List ℕ) → Mnet W → Chann → List ℕ
  accepted sent s c = sent s.world ++ contents c.rwb_send

module _ {W : Type 0} ⦃env : Env W⦄ (n : Ptr) (sent : W → List ℕ) where
  chann_send_stream :
      (s : Mnet W) (c : Chann) (buf : List ℕ) (len : ℕ)
      → s.heap n ≡ some c
      → s.ext_config c.ctype ≡ stream_config
      → let (r, w) = env.call (SysCall.send c.fd (take len buf)) s.world in
        call_send (s.ext_config c.ctype).send_fn (s.ext_config c.ctype).ext_ctx n buf len s
        ≡ some (blocked_as_zero r (env.errno w), record s { world = w })
  unfolding call_send ext_stream_send
  chann_send_stream s c buf len there stream = rw (stream, there, ◌>>=◌)

  pub shown_connected : (s : Mnet W) (c : Chann) → IsOpen n s c → shown_state n s ≡ some (pos 3, s)
  unfolding shown_state call_state
  shown_connected s c o = rw (o.there, o.stream, o.connected, ◌>>=◌)

  -- What the kernel answers to a send of the first `len` bytes of `buf`.
  abbrev pub reply : Mnet W → Chann → List ℕ → ℕ → ℤ × W
  reply s c buf len = env.call (SysCall.send c.fd (take len buf)) s.world

  abbrev pub outcome : Mnet W → Chann → List ℕ → ℕ → ℤ
  outcome s c buf len = blocked_as_zero (reply s c buf len).0 (env.errno (reply s c buf len).1)

  send_replies :
      (s : Mnet W) (c : Chann) (buf : List ℕ) (len : ℕ) (r : ℤ)
      → IsOpen n s c
      → outcome s c buf len ≡ r
      → call_send (s.ext_config c.ctype).send_fn (s.ext_config c.ctype).ext_ctx n buf len s
        ≡ some (r, record s { world = (reply s c buf len).1 })
  send_replies s c buf len r o e =
      chann_send_stream s c buf len o.there o.stream
      ∙ ap (λ (k : ℤ). some (k, record s { world = (reply s c buf len).1 })) e

  pub chann_send_ok :
      (s : Mnet W) (c : Chann) (buf : List ℕ) (len k : ℕ)
      → IsOpen n s c
      → outcome s c buf len ≡ pos k
      → (s' : Mnet W) × (b : ℤ) × (chann_send n buf len s ≡ some (pos k, s'))
        × (s'.heap n ≡ some (record c { bytes_send = b }))
        × (s'.ext_config ≡ s.ext_config)
        × (s'.world ≡ (reply s c buf len).1)
  unfolding chann_send
  chann_send_ok s c buf len zero o e = (
    record s { world = (reply s c buf len).1 },
    c.bytes_send,
    rw (o.there, send_replies s c buf len (pos 0) o e, ◌>>=◌),
    o.there,
    refl,
    refl,
  )
  chann_send_ok s c buf len (suc k) o e =
      let some_out : ltb_ℤ (pos 0) (pos (suc k)) ≡ true = ground arith in
      (
        set_heap (record s { world = (reply s c buf len).1 }) n
            (some (record c { bytes_send = c.bytes_send +ℤ pos (suc k) })),
        c.bytes_send +ℤ pos (suc k),
        rw (o.there, send_replies s c buf len (pos (suc k)) o e, some_out, o.there, ◌>>=◌, ◌>>◌),
        ground arith,
        refl,
        refl,
      )

  pub chann_send_err :
      (s : Mnet W) (c : Chann) (buf : List ℕ) (len : ℕ)
      → IsOpen n s c
      → outcome s c buf len ≡ negsuc 0
      → chann_send n buf len s ≡ some (negsuc 0, record s { world = (reply s c buf len).1 })
  unfolding chann_send
  chann_send_err s c buf len o e = rw (o.there, send_replies s c buf len (negsuc 0) o e, ◌>>=◌)

  -- The three outcomes of a call of `send`, with what the kernel has then.
  pub outcome_cases :
      (s : Mnet W) (c : Chann) (buf : List ℕ) (len : ℕ)
      → IsKernel c.fd sent
      → len ≤ length buf
      → ((k : ℕ) × (k ≤ len)
          × (outcome s c buf len ≡ pos k)
          × (sent (reply s c buf len).1 ≡ sent s.world ++ take k buf))
        ⊎ ((outcome s c buf len ≡ negsuc 0) × (sent (reply s c buf len).1 ≡ sent s.world))
  unfolding blocked_as_zero
  outcome_cases s c buf len kernel enough = elim (kernel.send_law (take len buf) s.world) [
    | inl (k, le, ret, now_sent) ↦ inl (
      k,
      omega (arith, le, length-take_le len buf enough),
      ground (arith, ret),
      now_sent
          ∙ ap (λ r. sent s.world ++ r)
              (take-take k len buf (omega (arith, le, length-take_le len buf enough))),
    )
    | inr (ret, now_sent) ↦ elim (Bool-cases (env.errno (reply s c buf len).1 == ewouldblock)) [
      | inl blocked ↦
          inl (
            0,
            omega arith,
            ground (arith, ret, blocked),
            now_sent ∙ sym (append-nil (sent s.world)),
          )
      | inr failed ↦ inr (ground (arith, ret, failed), now_sent)
    ]
  ]

  -- A refusal is an answer of -1 with another error than EWOULDBLOCK.
  pub refusal_lem :
      (s : Mnet W) (c : Chann) (buf : List ℕ) (len : ℕ)
      → IsKernel c.fd sent
      → outcome s c buf len ≡ negsuc 0
      → ((reply s c buf len).0 ≡ negsuc 0)
        × ((env.errno (reply s c buf len).1 == ewouldblock) ≡ false)
  unfolding blocked_as_zero
  refusal_lem s c buf len kernel e = elim (kernel.send_law (take len buf) s.world) [
    | inl (k, le, ret, now_sent) ↦ absurd (ground (arith, ret, e))
    | inr (ret, now_sent) ↦ elim (Bool-cases (env.errno (reply s c buf len).1 == ewouldblock)) [
      | inl blocked ↦ absurd (ground (arith, ret, blocked, e))
      | inr failed ↦ (ret, failed)
    ]
  ]
