-- ===== src/Wrapper/Object.antt =====
-- `channType`, the class ChannAddr, and the constructors, the destructor and the methods of the class
-- Chann of src/mnet_wrapper.h.
use m_net.Base.{
  ℕ, Bool, true, false, ◌&&◌, Option, none, some, List, [], ◌∷◌, leb, ltb, ◌==◌, if◌then◌else◌,
  length, take, drop, ◌+◌, ◌++◌,
}
use m_net.Base.Int.{ℤ, pos, negsuc, pos_part, ltb_ℤ, leb_ℤ}
use m_net.Skiplist.{Ptr, null}
use m_net.Net.State.{
  M, Addr, ChannState, ChannEvent, rank, type_stream, type_dgram, type_broadcast, pure, fault,
  ◌>>=◌, ◌>>◌, get, update, load,
}
use m_net.Net.Env.{Env}
use m_net.Net.Init.{mnet_init}
use m_net.Net.Address.{Parsed, strchr, colon, padded_ip, parse_ipport, mnet_chann_socket_addr}
use m_net.Net.Address.Resolve.{Resolver, mnet_resolve}
use m_net.Net.Send.{mnet_chann_send, mnet_chann_recv, mnet_chann_cached}
use m_net.Net.Api.{
  mnet_chann_open, mnet_chann_close, mnet_chann_state, mnet_chann_listen, mnet_chann_connect,
  mnet_chann_disconnect, mnet_chann_set_opaque, mnet_chann_active_event,
}
use m_net.Wrapper.World.{
  Handler, ChannAddr, CppChann, CppWorld, Program, put_obj, load_obj, modify_obj,
}

abbrev pub same_text : List ℕ → List ℕ → Bool
same_text [] [] = true
same_text [] (_ ∷ _) = false
same_text (_ ∷ _) [] = false
same_text (x ∷ xs) (y ∷ ys) = (x == y) && same_text xs ys

-- "tcp" and "udp".
abbrev pub tcp_text : List ℕ
tcp_text = 116 ∷ 99 ∷ 112 ∷ []

abbrev pub udp_text : List ℕ
udp_text = 117 ∷ 100 ∷ 112 ∷ []

unfoldable pub chann_type : List ℕ → ℕ
chann_type stream_type =
    if same_text stream_type tcp_text
    then type_stream
    else (if same_text stream_type udp_text then type_dgram else type_broadcast)

-- ChannAddr(), which sets the port only.
abbrev pub no_addr : ChannAddr
no_addr = record { ip = []; port = pos 0; addr_string = [] }

abbrev pub object : Ptr → Handler → CppChann
object n handler = record { m_chann = n; m_peer = no_addr; m_addr = no_addr; m_handler = handler }

abbrev pub is_state : ℤ → ChannState → Bool
is_state v state = leb_ℤ v (pos (rank state)) && leb_ℤ (pos (rank state)) v

module _ {V : Type 0} ⦃prog : Program V⦄ ⦃env : Env (CppWorld V)⦄ where
  -- ChannAddr(string), whose `addr` the callers read at once: when the text is refused it is not set.
  unfoldable pub chann_addr : List ℕ → M (CppWorld V) ChannAddr
  chann_addr ip_port = elim (parse_ipport prog.atoi ip_port) [
    | Parsed.refused ↦ fault
    | Parsed.overrun ↦ fault
    | Parsed.parsed host port ↦ pure (record { ip = host; port = port; addr_string = ip_port })
  ]

  -- What `resolveHost` makes of the result of `mnet_resolve`.
  unfoldable pub found_addr : Option (List ℕ × ℤ) × CppWorld V → M (CppWorld V) ChannAddr
  found_addr (none, w) = do update (λ t. record t { world = w }); pure no_addr
  found_addr (some (ip, p), w) = do
    update (λ t. record t { world = w })
    chann_addr (ip ++ colon ∷ prog.decimal p)

  -- The part of `resolveHost` behind the split of its argument.
  unfoldable pub resolved :
      ⦃sys : Resolver (CppWorld V)⦄ → List ℕ → ℤ → List ℕ → M (CppWorld V) ChannAddr
  resolved host port stream_type = do
    s ← get
    found_addr (mnet_resolve (some host) port (chann_type stream_type) true s.world)

  -- A colon at the front is not split off.
  unfoldable pub resolve_host :
      ⦃sys : Resolver (CppWorld V)⦄ → List ℕ → List ℕ → M (CppWorld V) ChannAddr
  resolve_host host_port stream_type =
      if ltb 0 (length host_port) && ltb 0 (length stream_type)
      then elim (strchr host_port colon) [
        | none ↦ resolved host_port (pos 0) stream_type
        | some f ↦
            if ltb 0 f
            then resolved (take f host_port) (prog.atoi (drop (f + 1) host_port)) stream_type
            else resolved host_port (pos 0) stream_type
      ]
      else pure no_addr

  -- The text takes all 17 bytes of the field `ip`.
  unfoldable pub copy_addr : Addr → M (CppWorld V) ChannAddr
  copy_addr a =
      let ip = prog.inet_ntoa a.host in
      pure (record {
        ip = ip;
        port = pos a.port;
        addr_string = padded_ip ip ++ prog.stack_byte ∷ colon ∷ prog.decimal (pos a.port);
      })

  -- Chann(string).
  unfoldable pub make_chann : Ptr → List ℕ → M (CppWorld V) (Unit {0})
  make_chann this stream_type = do
    _ ← mnet_init
    n ← mnet_chann_open (chann_type stream_type)
    update (put_obj this (some (object n Handler.no_handler)))

  -- Chann(Chann *), which takes the channel over; of null it leaves m_chann without a value.
  unfoldable pub take_chann : Ptr → Ptr → M (CppWorld V) (Unit {0})
  take_chann this c = if c == null then fault else (do
    o ← load_obj c
    update (put_obj this (some (object o.m_chann Handler.no_handler)))
    mnet_chann_set_opaque o.m_chann this
    modify_obj c (λ d. record d { m_chann = null; m_handler = Handler.no_handler }))

  -- Chann(chann_t *), which leaves m_handler without a value.
  unfoldable pub wrap_chann : Ptr → Ptr → M (CppWorld V) (Unit {0})
  wrap_chann this n = update (put_obj this (some (object n Handler.indeterminate)))

  -- ~Chann().
  unfoldable pub delete_chann : Ptr → M (CppWorld V) (Unit {0})
  delete_chann this = do o ← load_obj this; mnet_chann_close o.m_chann; update (put_obj this none)

  unfoldable pub chann_listen : Ptr → List ℕ → ℕ → M (CppWorld V) Bool
  chann_listen this ip_port backlog = do
    o ← load_obj this
    if o.m_chann == null
        then pure false
        else (if leb (length ip_port) 0 then pure false else (do
          addr ← chann_addr ip_port
          mnet_chann_set_opaque o.m_chann this
          mnet_chann_listen o.m_chann (some addr.ip) (pos_part addr.port) backlog))

  unfoldable pub chann_connect : Ptr → List ℕ → M (CppWorld V) Bool
  chann_connect this ip_port = do
    o ← load_obj this
    if o.m_chann == null
        then pure false
        else (if leb (length ip_port) 0 then pure false else (do
          addr ← chann_addr ip_port
          modify_obj this (λ d. record d { m_peer = addr })
          mnet_chann_set_opaque o.m_chann this
          mnet_chann_connect o.m_chann (some addr.ip) (pos_part addr.port)))

  unfoldable pub chann_disconnect : Ptr → M (CppWorld V) (Unit {0})
  chann_disconnect this = do
    o ← load_obj this
    if o.m_chann == null then pure tt else mnet_chann_disconnect o.m_chann

  unfoldable pub is_connected : Ptr → M (CppWorld V) Bool
  is_connected this = do
    o ← load_obj this
    state ← mnet_chann_state o.m_chann
    pure (is_state state ChannState.connected)

  unfoldable pub chann_recv : Ptr → Bool → ℕ → M (CppWorld V) (ℤ × List ℕ)
  chann_recv this buf len = do
    o ← load_obj this
    state ← mnet_chann_state o.m_chann
    if is_state state ChannState.connected
        then mnet_chann_recv o.m_chann buf len
        else pure (negsuc 0, [])

  unfoldable pub chann_send : Ptr → Option (List ℕ) → ℕ → M (CppWorld V) ℤ
  chann_send this buf len = do
    o ← load_obj this
    state ← mnet_chann_state o.m_chann
    if is_state state ChannState.connected
        then mnet_chann_send o.m_chann buf len
        else pure (negsuc 0)

  unfoldable pub chann_active_event : Ptr → ChannEvent → ℤ → M (CppWorld V) (Unit {0})
  chann_active_event this event value = do
    o ← load_obj this
    mnet_chann_active_event o.m_chann event value

  abbrev pub set_event_handler : Ptr → ℕ → M (CppWorld V) (Unit {0})
  set_event_handler this k = modify_obj this (λ d. record d { m_handler = Handler.external k })

  -- An accepted channel that nobody handles is deleted.
  unfoldable pub default_event_handler : Ptr → M (CppWorld V) (Unit {0})
  default_event_handler accept = if accept == null then pure tt else delete_chann accept

  -- Without a channel there is no address to copy.
  unfoldable pub my_addr : Ptr → M (CppWorld V) ChannAddr
  my_addr this = do
    o ← load_obj this
    if ltb_ℤ (pos 0) o.m_addr.port then pure o.m_addr else (do
      found ← mnet_chann_socket_addr o.m_chann true
      elim found [
        | none ↦ fault
        | some a ↦ do m ← copy_addr a; modify_obj this (λ d. record d { m_addr = m }); pure m
      ])

  unfoldable pub peer_addr : Ptr → M (CppWorld V) ChannAddr
  peer_addr this = do o ← load_obj this; pure o.m_peer

  unfoldable pub data_cached : Ptr → M (CppWorld V) ℤ
  data_cached this = do o ← load_obj this; mnet_chann_cached o.m_chann

  -- The object for an accepted channel, to which the channel refers from then on.
  unfoldable pub accept_chann : Ptr → M (CppWorld V) Ptr
  accept_chann r = do
    s ← get
    let (nc, v) = prog.new s.world.rest
    update (λ t. record t { world = record t.world { rest = v } })
    wrap_chann nc r
    mnet_chann_set_opaque r nc
    pure nc

  -- `dispatchEvent` on the message that is in the channel `h`.
  unfoldable pub dispatch_event : Ptr → Ptr → M (CppWorld V) (Unit {0})
  dispatch_event this h = do
    c ← load h
    o ← load_obj this
    elim o.m_handler [
      | Handler.indeterminate ↦ fault
      | Handler.external k ↦ elim c.msg.event [
        | ChannEvent.accept ↦ do
          nc ← accept_chann c.msg.r
          prog.handler k this nc ChannEvent.accept (pos 0)
        | event ↦ prog.handler k this null event c.msg.err
      ]
      | Handler.no_handler ↦ elim c.msg.event [
        | ChannEvent.accept ↦ do nc ← accept_chann c.msg.r; default_event_handler nc
        | _ ↦ default_event_handler null
      ]
    ]

  -- `channDispatchEvent`: the object is the user data of the message.
  unfoldable pub chann_dispatch_event : Ptr → M (CppWorld V) (Unit {0})
  chann_dispatch_event h = do c ← load h; dispatch_event c.msg.opaque h
