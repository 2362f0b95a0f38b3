-- ===== src/Net/Quiet.antt =====
-- A kernel in which nothing happens, and a library with one channel on it, for examples.
use m_net.Base.{ℕ, true, false, none, some, [], ◌∷◌, ◌==◌, if◌then◌else◌}
use m_net.Base.Int.{pos, negsuc}
use m_net.Skiplist.{Ptr, null}
use m_net.Skiplist
use m_net.Net.State.{Mnet, Chann, ExtConfig, Addr, pure}
use m_net.Net.Env.{Env}

abbrev nowhere : Addr
nowhere = record { host = 0; port = 0 }

abbrev pub quiet : {W : Type 0} → Env W
quiet = record {
  call = λ c w. (pos 0, w);
  errno = λ w. 104;
  recv = λ fd len w. (negsuc 0, [], w);
  recv_from = λ fd len size w. (pos 0, [], nowhere, size, w);
  accept = λ fd w. (negsuc 0, nowhere, 16, w);
  peer = λ fd w. (true, nowhere, w);
  so_error = λ fd w. (true, pos 0, w);
  epoll_wait = λ t w. (pos 0, [], w);
  inet_addr = λ text. 0;
  now = λ w. (pos 1000, w);
  draws = λ w. (65535 ∷ [], w);
  malloc = λ w. (9, w);
  realloc = λ w. (true, w);
  ac_before = λ fd w. (pos 1, w);
  ac_after = λ fd w. w;
  user_type = λ k ctx t. 1;
  user_filter = λ k ctx n. pure true;
  user_op = λ k ctx n. pure tt;
  user_state = λ k ctx n v. pure v;
  user_recv = λ k ctx n len. pure (pos 0, []);
  user_send = λ k ctx n bs. pure (pos 0);
}

-- The channel is at 3.
abbrev pub one_chann : {W : Type 0} → (ℕ → ExtConfig) → Chann → W → Mnet W
one_chann ext c w = record {
  init = true;
  chann_count = 1;
  channs = 3;
  del_channs = null;
  dis_channs = null;
  chg_size = 4;
  chg_count = 0;
  evt = [];
  evt_size = 256;
  kq = pos 4;
  ext_config = ext;
  fd_count = pos 0;
  fd_index = negsuc 0;
  tm_clock = Skiplist.create;
  tm_pos = null;
  tm_current = pos 0;
  ac_multi = false;
  heap = λ p. if p == 3 then some c else none;
  world = w;
}
