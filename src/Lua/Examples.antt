-- ===== src/Lua/Examples.antt =====
-- The theorems on the Lua module at a concrete library with one channel, and calls of its functions.
use m_net.Base.{
  ℕ, suc, ◌+◌, inl, inr, true, false, ◌≡◌, refl, none, some, [], ◌∷◌, replicate, arith, ◌==◌,
  if◌then◌else◌,
}
use m_net.Base.Int.{pos, to_int32}
use m_net.Skiplist.{Ptr, null}
use m_net.Net.State.{Mnet, Chann, ChannState, ChannEvent, zero_chann, type_stream, ◌>>=◌, set_heap}
use m_net.Net.Env.{Env}
use m_net.Net.Send.Kernel.{stream_config}
use m_net.Net.Chann.Channels.{IsList, made}
use m_net.Net.Chann.Disconnect.{IsLive}
use m_net.Net.Address.Resolve.{Resolver}
use m_net.Net.Address.{padded_ip}
use m_net.Net.Chann.Message.{with_message}
use m_net.Net.Api.{mnet_chann_listen}
use m_net.Net.Poll.{tell}
use m_net.Net.Quiet.{quiet, one_chann}
use m_net.Lua.World.{
  LuaValue, LuaResult, LuaChann, LuaWorld, Texts, Alloc, check_type, checked, load_lc,
}
use m_net.Lua.Library.{nothing, one, push_message}
use m_net.Lua.Chann
use m_net.Lua.Chann.{chann_open, chann_close}
use m_net.Lua.Module.{LuaFunction, mnet_lib, call}
use m_net.Lua.Arguments.{ill_typed_refused}
use m_net.Lua.Handles.{IsHandle, accepted, told, accept-IsHandle}
use m_net.Lua.Life.{IsBuiltin, open-IsHandle, closed, close-IsFreed}

instance abbrev texts : Texts
texts = record {
  text_integer = λ t. none;
  real_integer = λ k. none;
  number_text = λ k. 49 ∷ [];
  real_text = λ k. 49 ∷ [];
  atoi = λ t. pos 80;
  inet_ntoa = λ host. 48 ∷ [];
}

-- The rest of the world is the number of records so far.
instance abbrev memory : Alloc ℕ
memory = record { malloc = λ v. (v + 20, suc v); calloc = λ v. (true, v) }

instance abbrev kernel : Env (LuaWorld ℕ)
kernel = quiet

instance abbrev resolver : Resolver (LuaWorld ℕ)
resolver = record {
  getaddrinfo = λ host port dgram w. (none, w);
  inet_ntop = λ a. [];
  getnameinfo = λ a w. (none, w);
}

-- The channel at 3 with its record at 6.
abbrev chann : Chann
chann = record zero_chann {
  fd = pos 5;
  state = ChannState.listening;
  ctype = type_stream;
  opaque = 6;
}

abbrev lc : LuaChann
lc = record { n = 3; index = pos 0 }

abbrev net : Mnet (LuaWorld ℕ)
net =
    one_chann (λ t. stream_config) chann
      (record { rest = 0; channs = λ p. if p == 6 then some lc else none; g_buf = true })

net-IsHandle : IsHandle net 6 3 chann
net-IsHandle = record {
  lc = lc;
  known = refl;
  owner = refl;
  some_chann = refl;
  there = refl;
  opaque = refl;
}

ill_typed_refused_example :
    call 1 LuaFunction.chann_listen (LuaValue.light 6 ∷ LuaValue.text [] ∷ LuaValue.nil ∷ []) net
    ≡ some (LuaResult.error, net)
ill_typed_refused_example =
    ill_typed_refused 1 LuaFunction.chann_listen _
      (LuaValue.light 6 ∷ LuaValue.text [] ∷ LuaValue.nil ∷ []) net refl
      (inr (inr (inl (λ e. omega (arith, e)))))

-- A second channel at 4, to be accepted.
abbrev peer : Chann
peer = record zero_chann { fd = pos 7; state = ChannState.connected; ctype = type_stream }

abbrev two : Mnet (LuaWorld ℕ)
two = set_heap net 4 (some peer)

two-IsHandle : IsHandle two 6 3 chann
two-IsHandle = record {
  lc = lc;
  known = refl;
  owner = refl;
  some_chann = refl;
  there = refl;
  opaque = refl;
}

accept-IsHandle_example :
    ((do _ ← tell 3 ChannEvent.accept 4 (pos 0); push_message 3) two
      ≡ some (
        LuaResult.returns (LuaValue.light 6 ∷ LuaValue.number (pos 3) ∷ LuaValue.light 20 ∷ []),
        accepted two 3 chann 4 peer,
      ))
    × IsHandle (accepted two 3 chann 4 peer) 6 3 (with_message 3 chann ChannEvent.accept 4 (pos 0))
    × IsHandle (accepted two 3 chann 4 peer) 20 4 (record peer { opaque = 20 })
    × ((do _ ← tell 4 ChannEvent.recv null (pos 0); push_message 4) (accepted two 3 chann 4 peer)
        ≡ some (
          LuaResult.returns (LuaValue.light 20 ∷ LuaValue.number (pos 1) ∷ LuaValue.nil ∷ []),
          told
              (accepted two 3 chann 4 peer)
              4
              (record peer { opaque = 20 })
              ChannEvent.recv
              null
              (pos 0),
        ))
accept-IsHandle_example =
    accept-IsHandle two 3 chann 6 4 peer ChannEvent.recv (pos 0) two-IsHandle refl refl refl
      (omega arith) (omega arith) (omega arith) (omega arith)

one_is_type : IsBuiltin net type_stream
one_is_type = record { in_range = refl; reserved = refl; open_cb = refl }

net-IsList : IsList net (3 ∷ [])
net-IsList = record {
  linked = (refl, omega arith, (chann, refl, refl, refl));
  apart = (tt, tt);
  counted = refl;
}

open-IsHandle_example :
    (t : Mnet (LuaWorld ℕ)) × (p : Ptr) × (chann_open (LuaValue.number (pos 1) ∷ []) net
      ≡ some (one (LuaValue.light p), t))
    × IsHandle t p 9 (record (made type_stream ChannState.disconnect net) { opaque = p })
    × IsList t (9 ∷ 3 ∷ [])
open-IsHandle_example =
    open-IsHandle net (LuaValue.number (pos 1)) (3 ∷ []) refl one_is_type net-IsList (omega arith)
      (omega arith, tt) (λ w. omega arith)

live : IsLive 3 net chann
live = record {
  there = refl;
  opened = refl;
  active = refl;
  builtin = refl;
  queue = record { counted = refl; all_pending = tt };
}

close-IsFreed_example :
    (chann_close (LuaValue.light 6 ∷ []) net ≡ some (nothing, closed net 6 3 chann))
    × (call 1 LuaFunction.chann_close (LuaValue.light 6 ∷ []) (closed net 6 3 chann) ≡ none)
unfolding check_type
close-IsFreed_example =
    close-IsFreed net 6 3 chann 1 LuaFunction.chann_close _ (LuaValue.light 6 ∷ []) net-IsHandle
      live refl refl (omega arith) refl refl refl tt refl

-- A text of one character is filled up with 15 times 0.
padded_ip_test : padded_ip (48 ∷ []) ≡ 48 ∷ replicate 15 0
padded_ip_test = refl

-- 2147483648 as an int is negative, and a port of it is refused.
listen_test :
    call 1 LuaFunction.chann_listen
      (LuaValue.light 6
        ∷ LuaValue.text []
        ∷ LuaValue.number (pos 2147483648)
        ∷ LuaValue.number (pos 5)
        ∷ [])
      net
    ≡ some (one (LuaValue.boolean false), net)
unfolding call mnet_lib Chann.chann_listen checked check_type load_lc mnet_chann_listen to_int32
listen_test = refl
