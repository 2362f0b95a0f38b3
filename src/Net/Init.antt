-- ===== src/Net/Init.antt =====
-- The library as a whole: `_evt_init`, `_evt_fini`, `mnet_init`, `mnet_fini`, `mnet_report` and
-- `mnet_multi_reset_event` of src/mnet_core.c. What `srand` does to the results of `rand` is not
-- modelled, nor are the lines that `mnet_report` logs.
pub mod Fini
use m_net.Base.{
  ℕ, zero, suc, ◌+◌, Bool, true, false, ◌||◌, some, [], ltb, none, ◌==◌, if◌then◌else◌,
}
use m_net.Base.Int.{ℤ, pos, negsuc, ltb_ℤ, leb_ℤ}
use m_net.Skiplist.{Ptr, null}
use m_net.Skiplist
use m_net.Net.State.{
  Mnet, M, Fn, ExtConfig, no_events, type_stream, type_dgram, type_broadcast, pure, fault, ◌>>=◌,
  ◌>>◌, get, update, load, modify,
}
use m_net.Net.Env.{Env, SysCall, sys, tm_now}
use m_net.Net.Ext.{no_ext, ext_internal_config, put_ext}
use m_net.Net.Event.{EvtSet, evt_add}
use m_net.Net.Chann.{chann_destroy, chann_disconnect_socket, chann_close_socket}

-- The entries that `mnet_init` makes.
abbrev pub internal_entry : ℕ → ExtConfig
internal_entry i =
    if i == type_stream
    then record ext_internal_config {
      reserved = true;
      recv_fn = some Fn.ext_stream_recv;
      send_fn = some Fn.ext_stream_send;
    }
    else record ext_internal_config {
      reserved = true;
      recv_fn = some Fn.ext_dgram_recv;
      send_fn = some Fn.ext_dgram_send;
    }

abbrev pub with_internal : {W : Type 0} → Mnet W → Mnet W
with_internal s = put_ext type_broadcast (internal_entry type_broadcast) (
    put_ext type_dgram (internal_entry type_dgram)
      (put_ext type_stream (internal_entry type_stream) s))

-- Of the global state after `memset`; the clock of timers is a null pointer then and not read.
abbrev pub zeroed : {W : Type 0} → Mnet W → Mnet W
zeroed s = record s {
  init = false;
  chann_count = 0;
  channs = null;
  del_channs = null;
  dis_channs = null;
  chg_size = 0;
  chg_count = 0;
  evt = [];
  evt_size = 0;
  kq = pos 0;
  ext_config = λ t. no_ext;
  fd_count = pos 0;
  fd_index = pos 0;
  tm_clock = Skiplist.create;
  tm_pos = null;
  tm_current = pos 0;
  ac_multi = false;
}

module _ {W : Type 0} ⦃env : Env W⦄ where
  unfoldable pub evt_init : M W Bool
  evt_init = do
    s ← get
    if leb_ℤ s.kq (pos 0)
        then (do
          kq ← sys (SysCall.epoll_create 256)
          update (λ t. record t { kq = kq; chg_size = 4; evt_size = 256 })
          pure true)
        else pure false

  unfoldable pub evt_fini : M W (Unit {0})
  evt_fini = do
    s ← get
    if ltb_ℤ s.kq (pos 0) || ltb_ℤ (pos 0) s.kq
        then (do
          _ ← sys (SysCall.close s.kq)
          update
              (λ t. record t { kq = pos 0; chg_size = 0; chg_count = 0; evt = []; evt_size = 0 }))
        else pure tt

  unfoldable pub mnet_init : M W Bool
  mnet_init = do
    s ← get
    if s.init then pure false else (do
      _ ← evt_init
      _ ← tm_now
      update (λ t.
          with_internal (record t { tm_clock = Skiplist.create; ac_multi = false; init = true }))
      pure true)

  unfoldable pub fini_loop : ℕ → Ptr → M W (Unit {0})
  fini_loop zero n = fault
  fini_loop (suc fuel) n = if n == null then pure tt else (do
    c ← load n
    _ ← chann_disconnect_socket n
    chann_close_socket n
    chann_destroy n
    fini_loop fuel c.next)

  -- `skiplist_destroy` of the clock of timers.
  unfoldable pub clock_destroy : M W (Unit {0})
  clock_destroy s = elim (Skiplist.destroy s.tm_clock) [
    | none ↦ none
    | some clock ↦ some (tt, record s { tm_clock = clock })
  ]

  -- A round takes a channel off the list.
  unfoldable pub mnet_fini : M W (Unit {0})
  mnet_fini = do
    s ← get
    if s.init
        then (do fini_loop (s.chann_count + 1) s.channs; evt_fini; clock_destroy; update zeroed)
        else pure tt

  -- The walk over the channels that are logged.
  unfoldable pub report_loop : ℕ → Ptr → M W (Unit {0})
  report_loop zero n = fault
  report_loop (suc fuel) n = if n == null then pure tt else (do c ← load n; report_loop fuel c.next)

  unfoldable pub mnet_report : ℕ → M W ℤ
  mnet_report level = do
    s ← get
    if s.init
        then (do
          if ltb 0 level then report_loop (s.chann_count + 1) s.channs else pure tt
          pure (pos s.chann_count))
        else pure (negsuc 0)

  unfoldable pub reset_loop : ℕ → Ptr → M W (Unit {0})
  reset_loop zero n = fault
  reset_loop (suc fuel) n = if n == null then pure tt else (do
    modify n (λ c. record c { epoll_events = no_events })
    _ ← evt_add n EvtSet.read
    c ← load n
    reset_loop fuel c.next)

  unfoldable pub mnet_multi_reset_event : M W (Unit {0})
  mnet_multi_reset_event = do
    evt_fini
    _ ← evt_init
    s ← get
    reset_loop (s.chann_count + 1) s.channs
