-- ===== src/Net/Event.antt =====
-- Interest in epoll events: `_evt_check_expand`, `_evt_add` and `_evt_del` of src/mnet_core.c, in
-- their Linux form.
use m_net.Base.{◌*◌, Bool, true, false, some, ltb, if◌then◌else◌}
use m_net.Base.Int.{pos, ltb_ℤ}
use m_net.Skiplist.{Ptr}
use m_net.Net.State.{M, Events, no_events, any_event, pure, ◌>>=◌, ◌>>◌, load, modify}
use m_net.Net.Env.{Env, SysCall, CtlOp, sys}

pub data EvtSet : Type 0 where
  read write del : EvtSet

-- The masks that the two functions ask for.
abbrev pub added : EvtSet → Events → Events
added EvtSet.read v = record v { ep_in = true; ep_rdhup = true; ep_hup = true }
added EvtSet.write v = record v { ep_out = true; ep_rdhup = true; ep_hup = true }
added EvtSet.del v = no_events

abbrev pub removed : EvtSet → Events → Events
removed EvtSet.read v = record v { ep_in = false }
removed EvtSet.write v = record v { ep_out = false }
removed EvtSet.del v = no_events

module _ {W : Type 0} ⦃env : Env W⦄ where
  -- On the array of changes; true if it has room.
  unfoldable pub evt_check_expand : M W Bool
  evt_check_expand s =
      if ltb s.chg_count s.chg_size
      then some (true, s)
      else (let (done, w) = env.realloc s.world in
          some
            (done, record s { world = w; chg_size = if done then s.chg_size * 2 else s.chg_size }))

  unfoldable pub evt_add : Ptr → EvtSet → M W Bool
  evt_add n set = do
    room ← evt_check_expand
    if room
        then (do
          c ← load n
          let events = added set c.epoll_events
          let op = if any_event c.epoll_events then CtlOp.ctl_mod else CtlOp.ctl_add
          r ← sys (SysCall.epoll_ctl op c.fd events n)
          if ltb_ℤ r (pos 0)
              then pure false
              else (do modify n (λ k. record k { epoll_events = events }); pure true))
        else pure false

  unfoldable pub evt_del : Ptr → EvtSet → M W Bool
  evt_del n set = do
    room ← evt_check_expand
    if room
        then (do
          c ← load n
          let events = removed set c.epoll_events
          let op = if any_event events then CtlOp.ctl_mod else CtlOp.ctl_del
          r ← sys (SysCall.epoll_ctl op c.fd events n)
          if ltb_ℤ r (pos 0)
              then pure false
              else (do modify n (λ k. record k { epoll_events = events }); pure true))
        else pure false
