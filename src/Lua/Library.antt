-- ===== src/Lua/Library.antt =====
-- The functions of the Lua module on the library as a whole: `_mnet_init` to `_mnet_resolve`, and
-- `_chann_count`.
use m_net.Base.{ℕ, Bool, true, false, none, some, List, [], ◌∷◌, ◌==◌, if◌then◌else◌}
use m_net.Base.Int.{ℤ, pos, to_int32}
use m_net.Skiplist.{Ptr, null}
use m_net.Net.State.{M, pure, fault, ◌>>=◌, ◌>>◌, get, update, load}
use m_net.Net.Env.{Env, tm_now}
use m_net.Net.Init.{mnet_init, mnet_fini, mnet_report}
use m_net.Net.Poll.{evt_poll, evt_result_next}
use m_net.Net.Address.{Parsed, parse_ipport}
use m_net.Net.Address.Resolve.{Resolver, mnet_resolve}
use m_net.Net.Api.{mnet_chann_get_opaque, mnet_chann_set_opaque}
use m_net.Lua.World.{
  LuaValue, LuaResult, LuaWorld, Texts, Alloc, t_string, t_number, to_uint32, c_text, arg, is_nil,
  event_number, checked, check_integer, to_integer, c_string, create_lua_chann,
}

abbrev pub version : ℤ
version = pos 20230610

-- Two results, a text and a number.
abbrev pub address : List ℕ → ℤ → LuaResult
address ip port = LuaResult.returns (LuaValue.text (c_text ip) ∷ LuaValue.number port ∷ [])

abbrev pub nothing : LuaResult
nothing = LuaResult.returns []

abbrev pub one : LuaValue → LuaResult
one v = LuaResult.returns (v ∷ [])

module _ {V : Type 0} where
  abbrev pub set_buf : Bool → M (LuaWorld V) (Unit {0})
  set_buf b = update (λ s. record s { world = record s.world { g_buf = b } })

module _ {V : Type 0} ⦃mem : Alloc V⦄ ⦃env : Env (LuaWorld V)⦄ where
  unfoldable pub lua_init : M (LuaWorld V) LuaResult
  lua_init = do
    ret ← mnet_init
    s ← get
    if ret
        then (if s.world.g_buf then pure tt else (do
          let (got, v) = mem.calloc s.world.rest
          update (λ t. record t { world = record t.world { rest = v; g_buf = got } })))
        else pure tt
    pure (one (LuaValue.boolean ret))

  -- The message is that of the channel `h`: its own user data, the event, and, of an accepted channel, a new
  -- record.
  unfoldable pub push_message : Ptr → M (LuaWorld V) LuaResult
  push_message h = do
    c ← load h
    opaque ← mnet_chann_get_opaque c.msg.n
    let event = LuaValue.number (pos (event_number c.msg.event))
    if c.msg.r == null
        then pure (LuaResult.returns (LuaValue.light opaque ∷ event ∷ LuaValue.nil ∷ []))
        else (do
          lc ← create_lua_chann c.msg.r
          mnet_chann_set_opaque c.msg.r lc
          pure (LuaResult.returns (LuaValue.light opaque ∷ event ∷ LuaValue.light lc ∷ [])))

  unfoldable pub lua_result_next : ℕ → M (LuaWorld V) LuaResult
  lua_result_next fuel = do
    msg ← evt_result_next fuel
    elim msg [ none ↦ pure nothing | some h ↦ push_message h ]

module _ {V : Type 0} ⦃env : Env (LuaWorld V)⦄ where
  unfoldable pub lua_fini : M (LuaWorld V) LuaResult
  lua_fini = do mnet_fini; s ← get; if s.world.g_buf then set_buf false else pure tt; pure nothing

  unfoldable pub lua_tm_current : M (LuaWorld V) LuaResult
  lua_tm_current = do now ← tm_now; pure (one (LuaValue.number now))

  unfoldable pub chann_count : M (LuaWorld V) LuaResult
  chann_count = do ret ← mnet_report 0; pure (one (LuaValue.number ret))

module _ {V : Type 0} where
  abbrev pub lua_version : M (LuaWorld V) LuaResult
  lua_version = pure (one (LuaValue.number version))

module _ {V : Type 0} ⦃lua : Texts⦄ ⦃env : Env (LuaWorld V)⦄ where
  unfoldable pub lua_poll : List LuaValue → M (LuaWorld V) LuaResult
  lua_poll args = if is_nil (arg 1 args) then pure nothing else elim (check_integer (arg 1 args)) [
    | none ↦ pure LuaResult.error
    | some milliseconds ↦ do
      count ← evt_poll (to_uint32 (to_int32 milliseconds))
      pure (one (LuaValue.number count))
  ]

module _ {V : Type 0} ⦃lua : Texts⦄ where
  unfoldable pub lua_parse_ipport : List LuaValue → M (LuaWorld V) LuaResult
  lua_parse_ipport args =
      if is_nil (arg 1 args) then pure nothing else elim (c_string (arg 1 args)) [
        | none ↦ pure nothing
        | some ipport ↦ elim (parse_ipport lua.atoi ipport) [
          | Parsed.refused ↦ pure nothing
          | Parsed.overrun ↦ fault
          | Parsed.parsed host port ↦ pure (address host port)
        ]
      ]

  -- Only the first of the three types is checked.
  unfoldable pub lua_resolve :
      ⦃sys : Resolver (LuaWorld V)⦄ → List LuaValue → M (LuaWorld V) LuaResult
  lua_resolve args = checked (t_string ∷ t_number ∷ t_number ∷ []) 1 args (do
    s ← get
    let port = to_int32 (to_integer (arg 2 args))
    let ctype = to_uint32 (to_integer (arg 3 args))
    let (found, w) = mnet_resolve (c_string (arg 1 args)) port ctype true s.world
    update (λ t. record t { world = w })
    elim found [ none ↦ pure nothing | some (ip, p) ↦ pure (address ip p) ])
