-- ===== src/Net/State.antt =====
-- The data of src/mnet_core.c and src/mnet_core.h: channels, messages, extension tables and mnet_t.
-- Pointers to channels are addresses into `heap`; `none` there is memory that is not allocated.
pub mod Heap
use m_net.Base.{ℕ, Bool, false, Option, none, some, List, ◌||◌, if◌then◌else◌, ◌==◌}
use m_net.Base.Int.{ℤ, pos}
use m_net.Skiplist.{Ptr, null, Skiplist}
use m_net.Rwb.{RwbHead}
use m_net.Rwb

-- chann_type_t; extensions take 4 to 7.
abbrev pub type_stream : ℕ
type_stream = 1

abbrev pub type_dgram : ℕ
type_dgram = 2

abbrev pub type_broadcast : ℕ
type_broadcast = 3

abbrev pub ext_max_size : ℕ
ext_max_size = 8

pub data ChannState : Type 0 where
  closed disconnect connecting connected listening : ChannState

-- The numbers of the C enumeration, by which the code compares states.
abbrev pub rank : ChannState → ℕ
rank ChannState.closed = 0
rank ChannState.disconnect = 1
rank ChannState.connecting = 2
rank ChannState.connected = 3
rank ChannState.listening = 4

-- `unset` is the zero of a fresh channel.
pub data ChannEvent : Type 0 where
  unset recv send accept connected disconnect timer : ChannEvent

pub record ChannMsg : Type 0 where
  pub event : ChannEvent
  pub err : ℤ
  pub n : Ptr
  pub r : Ptr
  pub opaque : Ptr

-- struct sockaddr_in: host address and port.
pub record Addr : Type 0 where
  pub host : ℕ
  pub port : ℕ

-- The size of a struct sockaddr_in.
abbrev pub sockaddr_size : ℕ
sockaddr_size = 16

-- The bits of an epoll event mask that the code uses.
pub record Events : Type 0 where
  pub ep_in : Bool
  pub ep_out : Bool
  pub ep_err : Bool
  pub ep_hup : Bool
  pub ep_rdhup : Bool

abbrev pub no_events : Events
no_events = record {
  ep_in = false;
  ep_out = false;
  ep_err = false;
  ep_hup = false;
  ep_rdhup = false;
}

abbrev pub any_event : Events → Bool
any_event v = v.ep_in || v.ep_out || v.ep_err || v.ep_hup || v.ep_rdhup

pub record Chann : Type 0 where
  pub fd : ℤ
  pub state : ChannState
  pub ctype : ℕ
  pub opaque : Ptr
  pub ext_ud : Ptr
  pub addr : Addr
  pub addr_len : ℕ
  pub timer_node : Ptr
  pub rwb_send : RwbHead
  pub prev : Ptr
  pub next : Ptr
  pub del_next : Ptr
  pub dis_next : Ptr
  pub bytes_send : ℤ
  pub bytes_recv : ℤ
  pub buf_size : ℕ
  pub active_send_event : Bool
  pub epoll_events : Events
  pub msg : ChannMsg

-- Memory that `mm_malloc` has set to zero.
abbrev pub zero_chann : Chann
zero_chann = record {
  fd = pos 0;
  state = ChannState.closed;
  ctype = 0;
  opaque = null;
  ext_ud = null;
  addr = record { host = 0; port = 0 };
  addr_len = 0;
  timer_node = null;
  rwb_send = Rwb.empty;
  prev = null;
  next = null;
  del_next = null;
  dis_next = null;
  bytes_send = pos 0;
  bytes_recv = pos 0;
  buf_size = 0;
  active_send_event = false;
  epoll_events = no_events;
  msg = record { event = ChannEvent.unset; err = pos 0; n = null; r = null; opaque = null };
}

-- The functions of an extension: those of mnet_core.c, and those of a user by number.
pub data Fn : Type 0 where
  ext_type_fn ext_filter_fn ext_op_cb ext_state_fn : Fn
  ext_stream_recv ext_dgram_recv ext_stream_send ext_dgram_send : Fn
  user : ℕ → Fn

-- mnet_ext_t; `none` is a null function pointer.
pub record ExtConfig : Type 0 where
  pub reserved : Bool
  pub ext_ctx : Ptr
  pub type_fn : Option Fn
  pub filter_fn : Option Fn
  pub open_cb : Option Fn
  pub close_cb : Option Fn
  pub listen_cb : Option Fn
  pub accept_cb : Option Fn
  pub connect_cb : Option Fn
  pub disconnect_cb : Option Fn
  pub state_fn : Option Fn
  pub recv_fn : Option Fn
  pub send_fn : Option Fn

-- chann_tm_t: `interval` is an int, `time` an int64_t, both in microseconds.
pub record ChannTm : Type 0 where
  pub interval : ℤ
  pub time : ℤ
  pub chann : Ptr

-- An element of the array that epoll_wait fills.
pub record Kev : Type 0 where
  pub events : Events
  pub opaque : Ptr

-- mnet_t, with the memory of the channels and the world outside. `ac_multi` says whether accept is
-- wrapped by the balancer's callbacks.
pub record Mnet (W : Type 0) : Type 0 where
  pub init : Bool
  pub chann_count : ℕ
  pub channs : Ptr
  pub del_channs : Ptr
  pub dis_channs : Ptr
  pub chg_size : ℕ
  pub chg_count : ℕ
  pub evt : List Kev
  pub evt_size : ℕ
  pub kq : ℤ
  pub ext_config : ℕ → ExtConfig
  pub fd_count : ℤ
  pub fd_index : ℤ
  pub tm_clock : Skiplist ChannTm
  pub tm_pos : Ptr
  pub tm_current : ℤ
  pub ac_multi : Bool
  pub heap : Ptr → Option Chann
  pub world : W

-- A handler runs on the state; `none` is undefined behaviour (a read through a null or dangling
-- pointer, a call of a null function) or a loop that does not end.
abbrev pub M : Type 0 → Type 0 → Type 0
M W A = Mnet W → Option (A × Mnet W)

module _ {W : Type 0} where
  abbrev pub pure : {A : Type 0} → A → M W A
  pure a s = some (a, s)

  abbrev pub fault : {A : Type 0} → M W A
  fault s = none

  infixl 5 ◌>>=◌ ◌>>◌
  abbrev pub ◌>>=◌ : {A B : Type 0} → M W A → (A → M W B) → M W B
  ◌>>=◌ m f s = elim (m s) [ none ↦ none | some (a, s') ↦ f a s' ]

  abbrev pub ◌>>◌ : {B : Type 0} → M W (Unit {0}) → M W B → M W B
  ◌>>◌ m k s = elim (m s) [ none ↦ none | some (_, s') ↦ k s' ]

  abbrev pub get : M W (Mnet W)
  get s = some (s, s)

  abbrev pub update : (Mnet W → Mnet W) → M W (Unit {0})
  update f s = some (tt, f s)

  abbrev pub set_heap : Mnet W → Ptr → Option Chann → Mnet W
  set_heap s p c = let old = s.heap in record s { heap = λ q. if q == p then c else old q }

  -- A read and a write of a channel's fields.
  abbrev pub load : Ptr → M W Chann
  load p s = elim (s.heap p) [ none ↦ none | some c ↦ some (c, s) ]

  abbrev pub modify : Ptr → (Chann → Chann) → M W (Unit {0})
  modify p f s = elim (s.heap p) [ none ↦ none | some c ↦ some (tt, set_heap s p (some (f c))) ]
