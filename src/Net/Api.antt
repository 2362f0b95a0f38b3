-- ===== src/Net/Api.antt =====
-- The functions of src/mnet_core.h on channels and on the library: `mnet_chann_open`,
-- `mnet_chann_close`, `mnet_chann_connect`, `mnet_chann_listen`, `mnet_chann_active_event`, the
-- accessors, `mnet_multi_accept_balancer` and the extension's data.
pub mod Close
use m_net.Base.{
  ℕ, ◌+◌, ◌%◌, Bool, true, false, ◌&&◌, ◌||◌, not, Option, none, some, List, ltb, leb, ◌==◌,
  if◌then◌else◌,
}
use m_net.Base.Int.{ℤ, pos, negsuc, ◌*ℤ◌, ltb_ℤ, leb_ℤ}
use m_net.Skiplist.{Ptr, null}
use m_net.Net.State.{
  M, ChannState, ChannEvent, rank, type_stream, ext_max_size, pure, ◌>>=◌, ◌>>◌, update, load,
  modify,
}
use m_net.Net.Env.{Env, SysCall, sys, errno, ewouldblock, einprogress}
use m_net.Net.Ext.{ext_config, call_type, call_op}
use m_net.Net.Event.{EvtSet, evt_add, evt_del}
use m_net.Net.Timer.{tm_active, tm_update, tm_kill}
use m_net.Net.Chann.{chann_create, chann_disconnect_socket, chann_close_socket, chann_open_socket}
use m_net.Net.Send.{shown_state, mnet_chann_cached}

-- `backlog | 1`.
abbrev pub or_one : ℕ → ℕ
or_one backlog = if backlog % 2 == 0 then backlog + 1 else backlog

module _ {W : Type 0} ⦃env : Env W⦄ where
  unfoldable pub mnet_chann_open : ℕ → M W Ptr
  mnet_chann_open ctype = if ltb ctype type_stream || leb ext_max_size ctype then pure null else (do
    ext ← ext_config ctype
    if not ext.reserved then pure null else (do
      n ← chann_create ctype ChannState.disconnect
      call_op ext.open_cb ext.ext_ctx n
      pure n))

  unfoldable pub mnet_chann_close : Ptr → M W (Unit {0})
  mnet_chann_close n = if n == null then pure tt else (do
    c ← load n
    if ltb (rank ChannState.closed) (rank c.state)
        then (do _ ← chann_disconnect_socket n; chann_close_socket n)
        else pure tt)

  unfoldable pub mnet_chann_disconnect : Ptr → M W (Unit {0})
  mnet_chann_disconnect n =
      if n == null then pure tt else (do _ ← chann_disconnect_socket n; pure tt)

  unfoldable pub mnet_chann_fd : Ptr → M W ℤ
  mnet_chann_fd n = if n == null then pure (negsuc 0) else (do c ← load n; pure c.fd)

  unfoldable pub mnet_chann_type : Ptr → M W ℕ
  mnet_chann_type n = if n == null then pure 0 else (do c ← load n; pure c.ctype)

  unfoldable pub mnet_chann_state : Ptr → M W ℤ
  mnet_chann_state n = if n == null then pure (negsuc 0) else shown_state n

  -- What `connect` does with the socket it has opened.
  unfoldable pub start_connect : Ptr → ℤ → M W Bool
  start_connect n fd = do
    modify n (λ c. record c { fd = fd })
    c ← load n
    ext ← ext_config c.ctype
    t ← call_type ext.type_fn ext.ext_ctx c.ctype
    if t == type_stream
        then (do
          r ← sys (SysCall.connect fd c.addr c.addr_len)
          e ← errno
          if leb_ℤ (pos 0) r || (e == einprogress) || (e == ewouldblock)
              then (do
                modify n (λ k. record k { state = ChannState.connecting })
                _ ← evt_add n EvtSet.write
                call_op ext.connect_cb ext.ext_ctx n
                pure true)
              else pure false)
        else (do
          modify n (λ k. record k { state = ChannState.connected })
          _ ← evt_add n EvtSet.read
          call_op ext.connect_cb ext.ext_ctx n
          pure true)

  unfoldable pub mnet_chann_connect : Ptr → Option (List ℕ) → ℕ → M W Bool
  mnet_chann_connect n none port = pure false
  mnet_chann_connect n (some host) port = if n == null || leb port 0 then pure false else (do
    fd ← chann_open_socket n (some host) port 0
    if ltb_ℤ (pos 0) fd then start_connect n fd else pure false)

  unfoldable pub mnet_chann_listen : Ptr → Option (List ℕ) → ℕ → ℕ → M W Bool
  mnet_chann_listen n host port backlog = if n == null || leb port 0 then pure false else (do
    fd ← chann_open_socket n host port (or_one backlog)
    if ltb_ℤ (pos 0) fd
        then (do
          modify n (λ c. record c { fd = fd; state = ChannState.listening })
          _ ← evt_add n EvtSet.read
          c ← load n
          ext ← ext_config c.ctype
          call_op ext.listen_cb ext.ext_ctx n
          pure true)
        else pure false)

  unfoldable pub mnet_chann_set_opaque : Ptr → Ptr → M W (Unit {0})
  mnet_chann_set_opaque n opaque =
      if n == null then pure tt else modify n (λ c. record c { opaque = opaque })

  unfoldable pub mnet_chann_get_opaque : Ptr → M W Ptr
  mnet_chann_get_opaque n = if n == null then pure null else (do c ← load n; pure c.opaque)

  -- The timer's part of `mnet_chann_active_event`; the value is in milliseconds.
  unfoldable pub active_timer : Ptr → ℤ → M W (Unit {0})
  active_timer n value = do
    c ← load n
    if ltb_ℤ (pos 0) value
        then (if c.timer_node == null
            then tm_active n (value *ℤ pos 1000)
            else tm_update n (value *ℤ pos 1000))
        else (if c.timer_node == null then pure tt else tm_kill n)

  -- The part for send events, when the flag changes.
  unfoldable pub active_send : Ptr → Bool → M W (Unit {0})
  active_send n flag = do
    modify n (λ c. record c { active_send_event = flag })
    if flag then (do _ ← evt_add n EvtSet.write; pure tt) else (do
      left ← mnet_chann_cached n
      if leb_ℤ left (pos 0) then (do _ ← evt_del n EvtSet.write; pure tt) else pure tt)

  unfoldable pub mnet_chann_active_event : Ptr → ChannEvent → ℤ → M W (Unit {0})
  mnet_chann_active_event n ChannEvent.send value = if n == null then pure tt else (do
    state ← shown_state n
    c ← load n
    let flag = ltb_ℤ value (pos 0) || ltb_ℤ (pos 0) value
    if leb_ℤ (pos (rank ChannState.connected)) state
          && leb_ℤ state (pos (rank ChannState.connected))
          && not (if flag then c.active_send_event else not c.active_send_event)
        then active_send n flag
        else pure tt)
  mnet_chann_active_event n ChannEvent.timer value =
      if n == null
      then pure tt
      else (do c ← load n; if rank c.state == 0 then pure tt else active_timer n value)
  mnet_chann_active_event n _ value = pure tt

  -- The result of the last call is that of the two socket options or-ed: negative if one is.
  unfoldable pub mnet_chann_socket_set_bufsize : Ptr → ℕ → M W ℤ
  mnet_chann_socket_set_bufsize n bufsize = if n == null || leb bufsize 0 then pure (pos 0) else (do
    modify n (λ c. record c { buf_size = bufsize })
    c ← load n
    if ltb_ℤ (pos 0) c.fd
        then (do
          snd ← sys (SysCall.set_size true c.fd bufsize)
          rcv ← sys (SysCall.set_size false c.fd bufsize)
          pure (if ltb_ℤ snd (pos 0) || ltb_ℤ rcv (pos 0) then negsuc 0 else pos 0))
        else pure (pos 1))

  unfoldable pub mnet_ext_chann_set_ud : Ptr → Ptr → M W (Unit {0})
  mnet_ext_chann_set_ud n ud = if n == null then pure tt else (do
    c ← load n
    ext ← ext_config c.ctype
    if ext.reserved then modify n (λ k. record k { ext_ud = ud }) else pure tt)

  unfoldable pub mnet_ext_chann_get_ud : Ptr → M W Ptr
  mnet_ext_chann_get_ud n =
      if n == null
      then pure null
      else (do c ← load n; ext ← ext_config c.ctype; pure (if ext.reserved then c.ext_ud else null))

  -- `accept` is wrapped when both callbacks are given.
  unfoldable pub mnet_multi_accept_balancer : Bool → Bool → M W (Unit {0})
  mnet_multi_accept_balancer ac_before ac_after =
      update (λ s. record s { ac_multi = ac_before && ac_after })
