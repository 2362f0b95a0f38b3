-- ===== src/Net/Chann.antt =====
-- The life of a channel: `_chann_create`, `_chann_destroy`, `_chann_accept`,
-- `_chann_disconnect_socket`, `_chann_close_socket`, `_chann_msg`, `_chann_fill_addr` and
-- `_chann_open_socket` of src/mnet_core.c, in their Linux form.
pub mod Disconnect
pub mod Channels
pub mod Message
pub mod Unlink
pub mod Destroy
use m_net.Base.{
  ℕ, ◌+◌, ◌-◌, ◌*◌, ◌%◌, ◌^◌, Bool, true, false, ◌&&◌, ◌||◌, not, Option, none, some, List, ltb,
  leb, ◌==◌, if◌then◌else◌,
}
use m_net.Base.Int.{ℤ, pos, negsuc, ltb_ℤ, leb_ℤ}
use m_net.Skiplist.{Ptr, null}
use m_net.Rwb
use m_net.Rwb.{RwbHead}
use m_net.Net.State.{
  sockaddr_size, Mnet, M, Chann, ChannState, ChannEvent, ChannMsg, Addr, rank, zero_chann,
  no_events, type_stream, type_broadcast, pure, fault, ◌>>=◌, ◌>>◌, get, update, load, modify,
  set_heap,
}
use m_net.Net.Env.{Env, SysCall, SockOpt, sys, alloc}
use m_net.Net.Ext.{ext_config, call_type, call_op, call_filter}
use m_net.Net.Timer.{tm_kill}

module _ {W : Type 0} ⦃env : Env W⦄ where
  -- A write through a pointer that may be null.
  abbrev pub modify_if : Ptr → (Chann → Chann) → M W (Unit {0})
  modify_if p f = if p == null then pure tt else modify p f

  -- The new channel goes to the front of the list of all channels.
  unfoldable pub chann_create : ℕ → ChannState → M W Ptr
  chann_create ctype state = do
    n ← alloc
    s ← get
    update (λ t.
        set_heap t n (some (record zero_chann { ctype = ctype; state = state; next = s.channs })))
    modify_if s.channs (λ c. record c { prev = n })
    update (λ t. record t { channs = n; chann_count = t.chann_count + 1 })
    pure n

  -- `_rwb_destroy` on the queue of a channel; a loop that does not end has no result.
  unfoldable pub destroy_queue : Ptr → M W (Unit {0})
  destroy_queue n = do
    c ← load n
    elim (Rwb.destroy c.rwb_send) [
      | none ↦ fault
      | some h ↦ modify n (λ k. record k { rwb_send = h })
    ]

  unfoldable pub chann_destroy : Ptr → M W (Unit {0})
  chann_destroy n = do
    c ← load n
    elim c.state [
      | ChannState.closed ↦ do
        modify_if c.next (λ k. record k { prev = c.prev })
        if c.prev == null
            then update (λ t. record t { channs = c.next })
            else modify c.prev (λ k. record k { next = c.next })
        destroy_queue n
        tm_kill n
        update (λ t. record t { chann_count = t.chann_count - 1 })
        update (λ t. set_heap t n none)
      | _ ↦ pure tt
    ]

  -- True if the socket was open.
  unfoldable pub chann_disconnect_socket : Ptr → M W Bool
  chann_disconnect_socket n = do
    c ← load n
    if ltb_ℤ (pos 0) c.fd && ltb (rank ChannState.disconnect) (rank c.state)
        then (do
          ext ← ext_config c.ctype
          call_op ext.disconnect_cb ext.ext_ctx n
          k ← load n
          _ ← sys (SysCall.close k.fd)
          destroy_queue n
          modify n (λ d. record d {
            fd = negsuc 0;
            state = ChannState.disconnect;
            epoll_events = no_events;
          })
          pure true)
        else pure false

  unfoldable pub chann_close_socket : Ptr → M W (Unit {0})
  chann_close_socket n = do
    c ← load n
    if ltb (rank ChannState.closed) (rank c.state)
        then (do
          ext ← ext_config c.ctype
          call_op ext.close_cb ext.ext_ctx n
          s ← get
          modify n
              (λ d. record d { del_next = s.del_channs; state = ChannState.closed; opaque = null })
          update (λ t. record t { del_channs = n }))
        else pure tt

  -- Fills the message of a channel; the result is the filter's.
  unfoldable pub chann_msg : Ptr → ChannEvent → Ptr → ℤ → M W Bool
  chann_msg n event r err = do
    modify n (λ c. record c {
      msg = record { event = event; err = err; n = n; r = r; opaque = c.opaque };
    })
    c ← load n
    ext ← ext_config c.ctype
    call_filter ext.filter_fn ext.ext_ctx n

  -- The socket is put in non-blocking mode by a read and a write of its flags.
  unfoldable pub set_nonblocking : ℤ → M W ℤ
  set_nonblocking fd = do
    flag ← sys (SysCall.get_flags fd)
    if leb_ℤ flag (negsuc 0) && leb_ℤ (negsuc 0) flag
        then pure (negsuc 0)
        else sys (SysCall.set_nonblock fd flag)

  -- `accept`, or `_chann_multiprocess_accept`.
  unfoldable pub ac_fn : ℤ → M W (ℤ × Addr × ℕ)
  ac_fn afd = do
    s ← get
    if s.ac_multi
        then (let (allowed, w) = env.ac_before afd s.world in
            if ltb_ℤ (pos 0) allowed
            then (let (fd, addr, size, w') = env.accept afd w in
                do update (λ t. record t { world = env.ac_after afd w' }); pure (fd, addr, size))
            else (do
              update (λ t. record t { world = w })
              pure (pos 0, record { host = 0; port = 0 }, sockaddr_size)))
        else (let (fd, addr, size, w) = env.accept afd s.world in
            do update (λ t. record t { world = w }); pure (fd, addr, size))

  unfoldable pub chann_accept : Ptr → M W Ptr
  chann_accept n = do
    l ← load n
    (fd, addr, size) ← ac_fn l.fd
    if ltb_ℤ (pos 0) fd
        then (do
          r ← set_nonblocking fd
          if leb_ℤ (pos 0) r
              then (do
                c ← chann_create l.ctype ChannState.connected
                modify c (λ k. record k { fd = fd; addr = addr; addr_len = size })
                ext ← ext_config l.ctype
                call_op ext.accept_cb ext.ext_ctx c
                pure c)
              else pure null)
        else pure null

  -- `host` is none for NULL, which is INADDR_ANY.
  unfoldable pub chann_fill_addr : Ptr → Option (List ℕ) → ℕ → M W (Unit {0})
  chann_fill_addr n host port =
      let address : ℕ = elim host [ none ↦ 0 | some text ↦ env.inet_addr text ] in
      modify n (λ c. record c {
        addr = record { host = address; port = port % 2 ^ 16 };
        addr_len = sockaddr_size;
      })

  -- A step that fails on a negative result and is made only under a condition.
  abbrev pub check : Bool → SysCall → M W Bool
  check wanted c = if wanted then (do r ← sys c; pure (not (ltb_ℤ r (pos 0)))) else pure true

  -- The calls on a new socket, up to the first that fails.
  unfoldable pub prepare_socket : ℤ → Addr → ℕ → Bool → Bool → ℕ → M W Bool
  prepare_socket fd addr backlog istcp isbc buf_size = do
    reuse ← check true (SysCall.set_option SockOpt.so_reuseaddr fd)
    if not reuse then pure false else (do
      bound ← check (ltb 0 backlog) (SysCall.bind fd addr)
      if not bound then pure false else (do
        heard ← check (ltb 0 backlog && istcp) (SysCall.listen fd backlog)
        if not heard then pure false else (do
          r ← set_nonblocking fd
          if ltb_ℤ r (pos 0) then pure false else (do
            kept ← check istcp (SysCall.set_option SockOpt.so_keepalive fd)
            if not kept then pure false else (do
              cast ← check isbc (SysCall.set_option SockOpt.so_broadcast fd)
              if not cast then pure false else (do
                snd ← sys (SysCall.set_size true fd buf_size)
                rcv ← sys (SysCall.set_size false fd buf_size)
                pure (not (ltb_ℤ snd (pos 0) || ltb_ℤ rcv (pos 0)))))))))

  -- The descriptor of a new socket, or -1.
  unfoldable pub chann_open_socket : Ptr → Option (List ℕ) → ℕ → ℕ → M W ℤ
  chann_open_socket n host port backlog = do
    c ← load n
    elim c.state [
      | ChannState.disconnect ↦ do
        ext ← ext_config c.ctype
        t ← call_type ext.type_fn ext.ext_ctx c.ctype
        b ← call_type ext.type_fn ext.ext_ctx c.ctype
        let istcp = t == type_stream
        fd ← sys (SysCall.socket istcp)
        if ltb_ℤ (pos 0) fd
            then (do
              let buf_size = if ltb 0 c.buf_size then c.buf_size else Rwb.buf_size_default
              chann_fill_addr n host port
              k ← load n
              ready ← prepare_socket fd k.addr backlog istcp (b == type_broadcast) buf_size
              if ready then pure fd else (do _ ← sys (SysCall.close fd); pure (negsuc 0)))
            else pure (negsuc 0)
      | _ ↦ pure (negsuc 0)
    ]
