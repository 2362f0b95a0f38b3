-- ===== src/Net/Examples/Kernel.antt =====
-- A small kernel to run the library on, and states of the library with one channel.
use m_net.Base.{
  ltb, ℕ, refl, true, false, none, some, List, [], ◌∷◌, ◌++◌, arith, ◌==◌, if◌then◌else◌, length,
  take,
}
use m_net.Base.Int.{ℤ, pos, negsuc}
use m_net.Skiplist.{Ptr, null}
use m_net.Skiplist
use m_net.Rwb
use m_net.Rwb.{Rwb, RwbHead}
use m_net.Rwb.Contents.{IsQueue, queue}
use m_net.Net.State.{Mnet, Chann, ChannState, Addr, zero_chann, type_stream, pure}
use m_net.Net.Env.{Env, SysCall}
use m_net.Skiplist.{Skiplist}
use m_net.Net.Send.Kernel.{stream_config}

-- The world is the list of bytes that the kernel has taken on descriptor 5; a call of `send` takes
-- two at most. A `recv` of less than nine bytes gets two, any other is refused.
abbrev pub nowhere : Addr
nowhere = record { host = 0; port = 0 }

abbrev pub answer : SysCall → List ℕ → ℤ × List ℕ
answer (SysCall.send fd bs) w = (pos (length (take 2 bs)), w ++ take 2 bs)
answer _ w = (pos 0, w)

instance abbrev pub small : Env (List ℕ)
small = record {
  call = answer;
  errno = λ w. 104;
  recv = λ fd len w. if ltb len 9 then (pos 2, 7 ∷ 8 ∷ [], w) else (negsuc 0, [], w);
  recv_from = λ fd len size w. (pos 0, [], nowhere, size, w);
  accept = λ fd w. (negsuc 0, nowhere, 16, w);
  peer = λ fd w. (true, nowhere, w);
  so_error = λ fd w. (true, pos 0, w);
  epoll_wait = λ t w. (pos 0, [], w);
  inet_addr = λ text. 0;
  now = λ w. (pos 1000, w);
  draws = λ w. (65535 ∷ [], w);
  malloc = λ w. (9, w);
  realloc = λ w. (true, w);
  ac_before = λ fd w. (pos 1, w);
  ac_after = λ fd w. w;
  user_type = λ k ctx t. 1;
  user_filter = λ k ctx n. pure true;
  user_op = λ k ctx n. pure tt;
  user_state = λ k ctx n v. pure v;
  user_recv = λ k ctx n len. pure (pos 0, []);
  user_send = λ k ctx n bs. pure (pos 0);
}

-- A connected TCP channel at address 3 with the queue `q`.
abbrev pub tcp : RwbHead → Chann
tcp q = record zero_chann {
  fd = pos 5;
  state = ChannState.connected;
  ctype = type_stream;
  rwb_send = q;
}

abbrev pub with_chann : Chann → Mnet (List ℕ)
with_chann c = record {
  init = true;
  chann_count = 1;
  channs = 3;
  del_channs = null;
  dis_channs = null;
  chg_size = 4;
  chg_count = 0;
  evt = [];
  evt_size = 256;
  kq = pos 4;
  ext_config = λ t. stream_config;
  fd_count = pos 0;
  fd_index = negsuc 0;
  tm_clock = Skiplist.create;
  tm_pos = null;
  tm_current = pos 0;
  ac_multi = false;
  heap = λ p. if p == 3 then some c else none;
  world = [];
}

pub empty-IsQueue : IsQueue Rwb.empty
empty-IsQueue = record { counted = refl; all_pending = tt }

-- A queue with one byte left.
abbrev pub last_byte : RwbHead
last_byte = queue (record { ptr = 1; len = 2; buf = 20 ∷ 21 ∷ [] } ∷ [])

abbrev pub busy : Mnet (List ℕ)
busy = with_chann (tcp last_byte)

pub last_byte-IsQueue : IsQueue last_byte
last_byte-IsQueue = record {
  counted = refl;
  all_pending = (record { pending = omega arith; sized = refl }, tt);
}
