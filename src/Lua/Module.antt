-- ===== src/Lua/Module.antt =====
-- The table `mnet_lib` of extension/lua/mnet_lua.c, which gives the functions of the module their
-- names in Lua.
use m_net.Base.{ℕ, Option, none, some, List}
use m_net.Net.State.{M, fault}
use m_net.Net.Env.{Env}
use m_net.Net.Address.Resolve.{Resolver}
use m_net.Lua.World.{LuaValue, LuaResult, LuaWorld, Texts, Alloc}
use m_net.Lua.Library
use m_net.Lua.Chann

-- The names, in the order of the table.
pub data LuaFunction : Type 0 where
  init fini version poll result_next : LuaFunction
  chann_open chann_close chann_fd chann_type : LuaFunction
  chann_listen chann_connect chann_disconnect : LuaFunction
  chann_set_index chann_get_index chann_active_event : LuaFunction
  chann_recv chann_send dgram_recv dgram_send chann_cached : LuaFunction
  chann_state chann_bytes chann_count chann_set_bufsize chann_addr : LuaFunction
  current parse_ipport resolve : LuaFunction

module _ {V : Type 0} ⦃lua : Texts⦄ ⦃mem : Alloc V⦄ ⦃sys : Resolver (LuaWorld V)⦄
    ⦃env : Env (LuaWorld V)⦄ where
  -- The entries for datagrams have no function. The fuel is for `mnet_result_next`.
  unfoldable pub mnet_lib : ℕ → LuaFunction → Option (List LuaValue → M (LuaWorld V) LuaResult)
  mnet_lib fuel LuaFunction.init = some (λ args. Library.lua_init)
  mnet_lib fuel LuaFunction.fini = some (λ args. Library.lua_fini)
  mnet_lib fuel LuaFunction.version = some (λ args. Library.lua_version)
  mnet_lib fuel LuaFunction.poll = some Library.lua_poll
  mnet_lib fuel LuaFunction.result_next = some (λ args. Library.lua_result_next fuel)
  mnet_lib fuel LuaFunction.chann_open = some Chann.chann_open
  mnet_lib fuel LuaFunction.chann_close = some Chann.chann_close
  mnet_lib fuel LuaFunction.chann_fd = some Chann.chann_fd
  mnet_lib fuel LuaFunction.chann_type = some Chann.chann_type
  mnet_lib fuel LuaFunction.chann_listen = some Chann.chann_listen
  mnet_lib fuel LuaFunction.chann_connect = some Chann.chann_connect
  mnet_lib fuel LuaFunction.chann_disconnect = some Chann.chann_disconnect
  mnet_lib fuel LuaFunction.chann_set_index = some Chann.chann_set_index
  mnet_lib fuel LuaFunction.chann_get_index = some Chann.chann_get_index
  mnet_lib fuel LuaFunction.chann_active_event = some Chann.chann_active_event
  mnet_lib fuel LuaFunction.chann_recv = some Chann.chann_recv
  mnet_lib fuel LuaFunction.chann_send = some Chann.chann_send
  mnet_lib fuel LuaFunction.dgram_recv = none
  mnet_lib fuel LuaFunction.dgram_send = none
  mnet_lib fuel LuaFunction.chann_cached = some Chann.chann_cached
  mnet_lib fuel LuaFunction.chann_state = some Chann.chann_state
  mnet_lib fuel LuaFunction.chann_bytes = some Chann.chann_bytes
  mnet_lib fuel LuaFunction.chann_count = some (λ args. Library.chann_count)
  mnet_lib fuel LuaFunction.chann_set_bufsize = some Chann.chann_set_bufsize
  mnet_lib fuel LuaFunction.chann_addr = some Chann.chann_addr
  mnet_lib fuel LuaFunction.current = some (λ args. Library.lua_tm_current)
  mnet_lib fuel LuaFunction.parse_ipport = some Library.lua_parse_ipport
  mnet_lib fuel LuaFunction.resolve = some Library.lua_resolve

  -- A call of an entry by Lua; where there is no function there is nothing to call.
  unfoldable pub call : ℕ → LuaFunction → List LuaValue → M (LuaWorld V) LuaResult
  call fuel f args = elim (mnet_lib fuel f) [ none ↦ fault | some h ↦ h args ]
