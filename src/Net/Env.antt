-- ===== src/Net/Env.antt =====
-- What src/mnet_core.c calls and does not implement: the system calls, the clock, `rand`, the
-- allocator, and the functions that a user registers (extensions, balancer). They are arguments of
-- the model; nothing is assumed of them here.
use m_net.Base.{ℕ, Bool, List, some}
use m_net.Base.Int.{ℤ}
use m_net.Skiplist.{Ptr}
use m_net.Net.State.{Addr, Events, Kev, M}

-- The socket options that are set to 1.
pub data SockOpt : Type 0 where
  so_broadcast so_keepalive so_reuseaddr : SockOpt

pub data CtlOp : Type 0 where
  ctl_add ctl_mod ctl_del : CtlOp

-- Calls that return an int and nothing else. `socket` is told whether the socket is a stream;
-- `set_size` sets SO_SNDBUF or, on `false`, SO_RCVBUF.
pub data SysCall : Type 0 where
  socket : Bool → SysCall
  set_option : SockOpt → ℤ → SysCall
  set_size : Bool → ℤ → ℕ → SysCall
  bind : ℤ → Addr → SysCall
  listen : ℤ → ℕ → SysCall
  get_flags : ℤ → SysCall
  set_nonblock : ℤ → ℤ → SysCall
  connect : ℤ → Addr → ℕ → SysCall
  close : ℤ → SysCall
  send : ℤ → List ℕ → SysCall
  send_to : ℤ → List ℕ → Addr → ℕ → SysCall
  epoll_create : ℕ → SysCall
  epoll_ctl : CtlOp → ℤ → Events → Ptr → SysCall

-- The values of errno that the code compares with.
abbrev pub ewouldblock : ℕ
ewouldblock = 11

abbrev pub einprogress : ℕ
einprogress = 115

abbrev pub eintr : ℕ
eintr = 4

-- `recv_from` takes the size of the room for the address; with the address it gives the size that the
-- system stores, as `accept` does.
pub record Env (W : Type 0) : Type 0 where
  pub call : SysCall → W → ℤ × W
  pub errno : W → ℕ
  pub recv : ℤ → ℕ → W → ℤ × List ℕ × W
  pub recv_from : ℤ → ℕ → ℕ → W → ℤ × List ℕ × Addr × ℕ × W
  pub accept : ℤ → W → ℤ × Addr × ℕ × W
  pub peer : ℤ → W → Bool × Addr × W
  pub so_error : ℤ → W → Bool × ℤ × W
  pub epoll_wait : ℕ → W → ℤ × List Kev × W
  pub inet_addr : List ℕ → ℕ
  pub now : W → ℤ × W
  pub draws : W → List ℕ × W
  pub malloc : W → Ptr × W
  pub realloc : W → Bool × W
  pub ac_before : ℤ → W → ℤ × W
  pub ac_after : ℤ → W → W
  pub user_type : ℕ → Ptr → ℕ → ℕ
  pub user_filter : ℕ → Ptr → Ptr → M W Bool
  pub user_op : ℕ → Ptr → Ptr → M W (Unit {0})
  pub user_state : ℕ → Ptr → Ptr → ℤ → M W ℤ
  pub user_recv : ℕ → Ptr → Ptr → ℕ → M W (ℤ × List ℕ)
  pub user_send : ℕ → Ptr → Ptr → List ℕ → M W ℤ

module _ {W : Type 0} ⦃env : Env W⦄ where
  -- A system call, as a step of a handler.
  abbrev pub sys : SysCall → M W ℤ
  sys c s = let (r, w) = env.call c s.world in some (r, record s { world = w })

  abbrev pub errno : M W ℕ
  errno s = some (env.errno s.world, s)

  abbrev pub tm_now : M W ℤ
  tm_now s = let (t, w) = env.now s.world in some (t, record s { world = w })

  abbrev pub alloc : M W Ptr
  alloc s = let (p, w) = env.malloc s.world in some (p, record s { world = w })
