-- ===== src/Net/Poll.antt =====
-- The event loop: `_tm_next`, `_evt_del_channs`, `_evt_poll` and `_evt_result_next` of
-- src/mnet_core.c, and `_chann_get_err`, `mnet_poll` and `mnet_result_next`. A message is given by
-- the channel whose `msg` field holds it. Loops run on fuel.
pub mod Report
pub mod Delete
pub mod Due
pub mod Order
use m_net.Base.{
  ℕ, zero, suc, ◌+◌, ◌&&◌, ◌||◌, not, Option, none, some, List, [], ◌∷◌, ◌==◌, if◌then◌else◌,
}
use m_net.Base.Int.{ℤ, pos, negsuc, ◌+ℤ◌, ltb_ℤ, leb_ℤ}
use m_net.Skiplist.{Ptr, null, head}
use m_net.Net.State.{
  M, ChannState, ChannEvent, Events, Kev, rank, type_stream, pure, fault, ◌>>=◌, ◌>>◌, get, update,
  load, modify,
}
use m_net.Net.Env.{Env, errno, eintr}
use m_net.Net.Ext.{ext_config, call_type}
use m_net.Net.Event.{EvtSet, evt_add, evt_del}
use m_net.Net.Timer.{tm_of, tm_update, tm_schedule}
use m_net.Net.Chann.{chann_destroy, chann_disconnect_socket, chann_msg, chann_accept}
use m_net.Net.Send.{chann_sended_rwb}

-- The event mask as a number.
abbrev pub mask : Events → ℕ
mask v =
    (if v.ep_in then 1 else 0)
    + (if v.ep_out then 4 else 0)
    + (if v.ep_err then 8 else 0)
    + (if v.ep_hup then 16 else 0)
    + (if v.ep_rdhup then 8192 else 0)

-- Of an array that `epoll_wait` has filled; an index out of range is undefined.
abbrev pub nth : List Kev → ℕ → Option Kev
nth [] i = none
nth (k ∷ ks) zero = some k
nth (k ∷ ks) (suc i) = nth ks i

abbrev pub at : List Kev → ℤ → Option Kev
at ks (pos i) = nth ks i
at ks (negsuc _) = none

module _ {W : Type 0} ⦃env : Env W⦄ where
  -- The message of `n`, if its filter lets it through.
  unfoldable pub tell : Ptr → ChannEvent → Ptr → ℤ → M W (Option Ptr)
  tell n event r err = do told ← chann_msg n event r err; pure (if told then some n else none)

  -- The next timer that is due; its time is set anew before its message goes out.
  unfoldable pub tm_next : ℕ → M W (Option Ptr)
  tm_next zero = fault
  tm_next (suc fuel) = do
    s ← get
    if s.tm_pos == null || s.tm_pos == head then pure none else (do
      tm ← tm_of s.tm_pos
      update (λ t. record t { tm_pos = s.tm_clock.next 0 s.tm_pos })
      if leb_ℤ tm.time s.tm_current
          then (do
            tm_update tm.chann tm.interval
            told ← tell tm.chann ChannEvent.timer null (pos 0)
            elim told [ none ↦ tm_next fuel | some n ↦ pure (some n) ])
          else (do update (λ t. record t { tm_pos = null }); pure none))

  unfoldable pub del_loop : ℕ → Ptr → M W (Unit {0})
  del_loop zero n = fault
  del_loop (suc fuel) n =
      if n == null then pure tt else (do c ← load n; chann_destroy n; del_loop fuel c.del_next)

  -- A channel is put on the list once, when it leaves the states above CLOSED.
  unfoldable pub evt_del_channs : M W (Unit {0})
  evt_del_channs = do
    s ← get
    del_loop (s.chann_count + 1) s.del_channs
    update (λ t. record t { del_channs = null })

  -- The number of channels, or -1.
  unfoldable pub evt_poll : ℕ → M W ℤ
  evt_poll milliseconds = do
    evt_del_channs
    tm_schedule
    s ← get
    let (count, events, w) = env.epoll_wait milliseconds s.world
    update (λ t. record t { world = w; fd_count = count; evt = events; fd_index = negsuc 0 })
    e ← errno
    t ← get
    if ltb_ℤ count (pos 0) && not (e == eintr) then pure (negsuc 0) else pure (pos t.chann_count)

  -- The pending error of a socket; what `getsockopt` leaves is `failed` when it fails.
  unfoldable pub so_error : Ptr → ℤ → M W ℤ
  so_error n failed = do
    c ← load n
    s ← get
    let (known, err, w) = env.so_error c.fd s.world
    update (λ t. record t { world = w })
    pure (if known then err else failed)

  unfoldable pub chann_get_err : Ptr → M W ℤ
  chann_get_err n = so_error n (negsuc 9998)

  unfoldable pub drop_chann : Ptr → ℤ → M W (Option Ptr)
  drop_chann n err = do _ ← chann_disconnect_socket n; tell n ChannEvent.disconnect null err

  -- The three cases of the switch on the channel's state.
  unfoldable pub on_listening : Ptr → M W (Option Ptr)
  on_listening n = do
    c ← load n
    ext ← ext_config c.ctype
    t ← call_type ext.type_fn ext.ext_ctx c.ctype
    if t == type_stream
        then (do
          r ← chann_accept n
          if r == null
              then pure none
              else (do _ ← evt_add r EvtSet.read; tell n ChannEvent.accept r (pos 0)))
        else tell n ChannEvent.recv null (pos 0)

  unfoldable pub on_connecting : Ptr → M W (Option Ptr)
  on_connecting n = do
    opt ← so_error n (pos 0)
    if leb_ℤ opt (pos 0) && leb_ℤ (pos 0) opt
        then (do
          _ ← evt_del n EvtSet.write
          _ ← evt_add n EvtSet.read
          modify n (λ c. record c { state = ChannState.connected })
          tell n ChannEvent.connected null (pos 0))
        else drop_chann n opt

  unfoldable pub on_connected : Ptr → Events → M W (Option Ptr)
  on_connected n events =
      if events.ep_in
      then tell n ChannEvent.recv null (pos 0)
      else (if events.ep_out
          then (do
            all_sent ← chann_sended_rwb n
            c ← load n
            if all_sent
                then (if c.active_send_event
                    then tell n ChannEvent.send null (pos 0)
                    else (do _ ← evt_del n EvtSet.write; pure none))
                else pure none)
          else pure none)

  -- What one element of the event array does.
  unfoldable pub on_event : Kev → M W (Option Ptr)
  on_event kev = do
    let n = kev.opaque
    c ← load n
    if rank c.state == 0 || ltb_ℤ c.fd (pos 0)
        then pure none
        else (if kev.events.ep_err
            then (do err ← chann_get_err n; drop_chann n err)
            else (if kev.events.ep_hup || kev.events.ep_rdhup
                then drop_chann n (pos (mask kev.events))
                else elim c.state [
                  | ChannState.listening ↦ on_listening n
                  | ChannState.connecting ↦ on_connecting n
                  | ChannState.connected ↦ on_connected n kev.events
                  | _ ↦ pure none
                ]))

  -- Timers come first, then failed channels, then the events of the last poll.
  unfoldable pub evt_result_next : ℕ → M W (Option Ptr)
  evt_result_next zero = fault
  evt_result_next (suc fuel) = do
    due ← tm_next fuel
    elim due [
      | some n ↦ pure (some n)
      | none ↦ do
        s ← get
        if s.dis_channs == null
            then (do
              let index = s.fd_index +ℤ pos 1
              update (λ t. record t { fd_index = index })
              if leb_ℤ s.fd_count index then pure none else elim (at s.evt index) [
                | none ↦ fault
                | some kev ↦ do
                  told ← on_event kev
                  elim told [ none ↦ evt_result_next fuel | some n ↦ pure (some n) ]
              ])
            else (do
              c ← load s.dis_channs
              update (λ t. record t { dis_channs = c.dis_next })
              pure (some s.dis_channs))
    ]
