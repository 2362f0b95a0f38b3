-- ===== src/Lua/Chann.antt =====
-- The functions of the Lua module on one channel: `_chann_open` to `_chann_addr` of
-- extension/lua/mnet_lua.c. A channel is handed to Lua as a pointer to its lua_chann_t, which Lua
-- keeps as long as it likes.
use m_net.Base.{ℕ, true, none, some, List, [], ◌∷◌, ltb, ◌==◌, if◌then◌else◌, length, take}
use m_net.Base.Int.{ℤ, pos, pos_part, leb_ℤ, to_int32}
use m_net.Skiplist.{Ptr, null}
use m_net.Net.State.{M, pure, fault, ◌>>=◌, ◌>>◌, get, update}
use m_net.Net.Env.{Env}
use m_net.Net.Send.{mnet_chann_send, mnet_chann_recv, mnet_chann_cached, mnet_chann_bytes}
use m_net.Net.Dgram.{mnet_dgram_recv, mnet_dgram_send}
use m_net.Net.Address.{padded_ip, mnet_chann_socket_addr}
use m_net.Net.Api.{
  mnet_chann_open, mnet_chann_close, mnet_chann_disconnect, mnet_chann_fd, mnet_chann_type,
  mnet_chann_state, mnet_chann_connect, mnet_chann_listen, mnet_chann_set_opaque,
  mnet_chann_active_event, mnet_chann_socket_set_bufsize,
}
use m_net.Lua.World.{
  LuaValue, LuaResult, LuaWorld, Texts, Alloc, t_light, t_number, t_string, to_uint32, c_text, arg,
  is_nil, is_light, to_userdata, event_of, nonzero, put_lc, load_lc, checked, destroy_lua_chann,
  to_integer, to_text, c_string, create_lua_chann,
}
use m_net.Lua.Library.{nothing, one}

-- MNET_BUF_SIZE, the size of `g_buf`.
abbrev pub recv_size : ℕ
recv_size = 65536

module _ ⦃lua : Texts⦄ where
  abbrev pub to_int : ℕ → List LuaValue → ℤ
  to_int i args = to_int32 (to_integer (arg i args))

-- What `lua_tolstring` measures, as an int that is not negative.
abbrev pub as_len : List ℕ → ℕ
as_len buf = pos_part (to_int32 (pos (length buf)))

module _ {V : Type 0} where
  -- The functions that return nothing when the first argument is no pointer.
  unfoldable pub on_light :
      List LuaValue → (Ptr → M (LuaWorld V) LuaResult) → M (LuaWorld V) LuaResult
  on_light args body =
      if is_light (arg 1 args) then body (to_userdata (arg 1 args)) else pure nothing

module _ {V : Type 0} ⦃lua : Texts⦄ ⦃mem : Alloc V⦄ ⦃env : Env (LuaWorld V)⦄ where
  unfoldable pub chann_open : List LuaValue → M (LuaWorld V) LuaResult
  chann_open args = if is_nil (arg 1 args) then pure nothing else (do
    n ← mnet_chann_open (to_uint32 (to_integer (arg 1 args)))
    if n == null then pure nothing else (do
      lc ← create_lua_chann n
      mnet_chann_set_opaque n lc
      pure (one (LuaValue.light lc))))

module _ {V : Type 0} ⦃env : Env (LuaWorld V)⦄ where
  unfoldable pub chann_close : List LuaValue → M (LuaWorld V) LuaResult
  chann_close args = on_light args (λ p.
      if p == null
      then pure nothing
      else (do lc ← load_lc p; mnet_chann_close lc.n; destroy_lua_chann p; pure nothing))

  unfoldable pub chann_fd : List LuaValue → M (LuaWorld V) LuaResult
  chann_fd args = on_light args (λ p.
      if p == null
      then pure (one (LuaValue.number (pos 0)))
      else (do lc ← load_lc p; fd ← mnet_chann_fd lc.n; pure (one (LuaValue.number fd))))

  unfoldable pub chann_type : List LuaValue → M (LuaWorld V) LuaResult
  chann_type args = on_light args (λ p.
      if p == null
      then pure (one (LuaValue.number (pos 0)))
      else (do lc ← load_lc p; t ← mnet_chann_type lc.n; pure (one (LuaValue.number (pos t)))))

  unfoldable pub chann_disconnect : List LuaValue → M (LuaWorld V) LuaResult
  chann_disconnect args =
      on_light args (λ p. do lc ← load_lc p; mnet_chann_disconnect lc.n; pure nothing)

  unfoldable pub chann_recv : List LuaValue → M (LuaWorld V) LuaResult
  chann_recv args = on_light args (λ p. if p == null then pure nothing else (do
    lc ← load_lc p
    s ← get
    (ret, bytes) ← mnet_chann_recv lc.n s.world.g_buf recv_size
    if leb_ℤ (pos 0) ret
        then pure (one (LuaValue.text (take (pos_part ret) bytes)))
        else pure nothing))

  unfoldable pub chann_state : List LuaValue → M (LuaWorld V) LuaResult
  chann_state args =
      on_light args
        (λ p. do lc ← load_lc p; state ← mnet_chann_state lc.n; pure (one (LuaValue.number state)))

  unfoldable pub chann_cached : List LuaValue → M (LuaWorld V) LuaResult
  chann_cached args =
      on_light args
        (λ p. do lc ← load_lc p; ret ← mnet_chann_cached lc.n; pure (one (LuaValue.number ret)))

module _ {V : Type 0} where
  -- Without a pointer the index is 0.
  unfoldable pub chann_get_index : List LuaValue → M (LuaWorld V) LuaResult
  chann_get_index args =
      if is_light (arg 1 args)
      then (do lc ← load_lc (to_userdata (arg 1 args)); pure (one (LuaValue.number lc.index)))
      else pure (one (LuaValue.number (pos 0)))

module _ {V : Type 0} ⦃lua : Texts⦄ where
  unfoldable pub chann_set_index : List LuaValue → M (LuaWorld V) LuaResult
  chann_set_index args = checked (t_light ∷ t_number ∷ []) 2 args (do
    let p = to_userdata (arg 1 args)
    lc ← load_lc p
    update (put_lc p (some (record lc { index = to_int 2 args })))
    pure nothing)

module _ {V : Type 0} ⦃lua : Texts⦄ ⦃env : Env (LuaWorld V)⦄ where
  unfoldable pub chann_listen : List LuaValue → M (LuaWorld V) LuaResult
  chann_listen args = checked (t_light ∷ t_string ∷ t_number ∷ t_number ∷ []) 4 args (do
    let given = to_int 4 args
    let backlog = if leb_ℤ given (pos 0) then pos 1 else given
    lc ← load_lc (to_userdata (arg 1 args))
    ret ←
        mnet_chann_listen lc.n (c_string (arg 2 args)) (pos_part (to_int 3 args)) (pos_part backlog)
    pure (one (LuaValue.boolean ret)))

  unfoldable pub chann_connect : List LuaValue → M (LuaWorld V) LuaResult
  chann_connect args = checked (t_light ∷ t_string ∷ t_number ∷ []) 3 args (do
    lc ← load_lc (to_userdata (arg 1 args))
    ret ← mnet_chann_connect lc.n (c_string (arg 2 args)) (pos_part (to_int 3 args))
    pure (one (LuaValue.boolean ret)))

  unfoldable pub chann_send : List LuaValue → M (LuaWorld V) LuaResult
  chann_send args = checked (t_light ∷ t_string ∷ []) 2 args (do
    let p = to_userdata (arg 1 args)
    elim (to_text (arg 2 args)) [
      | none ↦ pure nothing
      | some buf ↦
          if p == null
          then pure nothing
          else (if ltb 0 (length buf)
              then (do
                lc ← load_lc p
                ret ← mnet_chann_send lc.n (some buf) (as_len buf)
                pure (one (LuaValue.number ret)))
              else pure nothing)
    ])

  -- The address is not set when the call refuses; to push it is undefined then.
  unfoldable pub dgram_recv : List LuaValue → M (LuaWorld V) LuaResult
  dgram_recv args = on_light args (λ p. if p == null then pure nothing else (do
    lc ← load_lc p
    s ← get
    (ret, bytes, addr) ← mnet_dgram_recv lc.n s.world.g_buf recv_size
    if leb_ℤ (pos 0) ret
        then elim addr [
          | none ↦ fault
          | some a ↦ pure (
              LuaResult.returns (
                LuaValue.text (take (pos_part ret) bytes)
                ∷ LuaValue.text (padded_ip (lua.inet_ntoa a.host))
                ∷ LuaValue.number (pos a.port)
                ∷ []))
        ]
        else pure nothing))

  -- `snprintf` cuts the address off at 15 characters.
  unfoldable pub dgram_send : List LuaValue → M (LuaWorld V) LuaResult
  dgram_send args = checked (t_light ∷ t_string ∷ t_string ∷ t_number ∷ []) 4 args (do
    let p = to_userdata (arg 1 args)
    elim (to_text (arg 2 args)) [
      | none ↦ pure nothing
      | some buf ↦ elim (c_string (arg 3 args)) [
        | none ↦ pure nothing
        | some ip ↦
            if p == null
            then pure nothing
            else (if ltb 0 (length buf)
                then (do
                  lc ← load_lc p
                  ret ←
                      mnet_dgram_send lc.n (some (take 15 ip, pos_part (to_int 4 args))) (some buf)
                        (as_len buf)
                  pure (one (LuaValue.number ret)))
                else pure nothing)
      ]
    ])

  unfoldable pub chann_bytes : List LuaValue → M (LuaWorld V) LuaResult
  chann_bytes args = checked (t_light ∷ t_number ∷ []) 2 args (do
    lc ← load_lc (to_userdata (arg 1 args))
    ret ← mnet_chann_bytes lc.n (nonzero (to_int 2 args))
    pure (one (LuaValue.number ret)))

  unfoldable pub chann_active_event : List LuaValue → M (LuaWorld V) LuaResult
  chann_active_event args = checked (t_light ∷ t_number ∷ t_number ∷ []) 3 args (do
    lc ← load_lc (to_userdata (arg 1 args))
    mnet_chann_active_event lc.n (event_of (to_uint32 (to_integer (arg 2 args)))) (to_int 3 args)
    pure nothing)

  unfoldable pub chann_set_bufsize : List LuaValue → M (LuaWorld V) LuaResult
  chann_set_bufsize args = checked (t_light ∷ t_number ∷ []) 2 args (do
    lc ← load_lc (to_userdata (arg 1 args))
    ret ← mnet_chann_socket_set_bufsize lc.n (pos_part (to_int 2 args))
    pure (one (LuaValue.boolean (nonzero ret))))

  -- Without a channel the address is not set.
  unfoldable pub chann_addr : List LuaValue → M (LuaWorld V) LuaResult
  chann_addr args = on_light args (λ p. do
    lc ← load_lc p
    found ← mnet_chann_socket_addr lc.n true
    elim found [
      | none ↦ fault
      | some a ↦ pure (
          LuaResult.returns
            (LuaValue.text (c_text (lua.inet_ntoa a.host)) ∷ LuaValue.number (pos a.port) ∷ []))
    ])
