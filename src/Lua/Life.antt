-- ===== src/Lua/Life.antt =====
-- A channel in Lua from `_chann_open` to `_chann_close` of extension/lua/mnet_lua.c.
use m_net.Base.{
  ℕ, ◌≡◌, ◌≢◌, refl, ap, ◌∙◌, false, true, ◌||◌, none, some, List, [], ◌∷◌, arith, ltb, leb, ◌==◌,
  ==_ne, length,
}
use m_net.Base.Int.{pos, negsuc}
use m_net.Skiplist.{Ptr, null}
use m_net.Skiplist.Ring.{Out}
use m_net.Rwb
use m_net.Rwb.Contents.{contents}
use m_net.Net.State.{
  Mnet, Chann, ChannState, Fn, no_events, type_stream, ext_max_size, ◌>>=◌, ◌>>◌, set_heap,
}
use m_net.Net.State.Heap.{heap-set_self}
use m_net.Net.Env.{Env, SysCall}
use m_net.Net.Ext.{call_op}
use m_net.Net.Chann.Channels.{IsList, fresh, made, create-IsList, same_links-IsList}
use m_net.Net.Chann.Disconnect.{IsLive}
use m_net.Net.Address.Resolve.{Resolver}
use m_net.Net.Api.{mnet_chann_open}
use m_net.Net.Api.Close.{retired, close-retires}
use m_net.Lua.World.{
  LuaValue, LuaWorld, Texts, Alloc, is_nil, to_uint32, to_integer, put_lc, load_lc,
  destroy_lua_chann, arg, to_userdata, check_type,
}
use m_net.Lua.Library.{nothing, one}
use m_net.Lua.Chann.{chann_open, chann_close, on_light}
use m_net.Lua.Module.{LuaFunction, call}
use m_net.Lua.Arguments.{chann_types, Reads, dangling_undefined}
use m_net.Lua.Handles.{IsHandle, next_lc, with_lc, create_lc_lem, set_opaque_lem}

-- A type of channel that is registered, with the built-in callback for the open.
pub record IsBuiltin {W : Type 0} (s : Mnet W) (ctype : ℕ) : Type 0 where
  pub in_range : (ltb ctype type_stream || leb ext_max_size ctype) ≡ false
  pub reserved : (s.ext_config ctype).reserved ≡ true
  pub open_cb : (s.ext_config ctype).open_cb ≡ some Fn.ext_op_cb

module _ {V : Type 0} ⦃env : Env (LuaWorld V)⦄ (s : Mnet (LuaWorld V)) (ctype : ℕ) where
  open-IsList :
      (xs : List Ptr)
      → IsBuiltin s ctype
      → IsList s xs
      → fresh ctype ChannState.disconnect s ≢ null
      → Out (fresh ctype ChannState.disconnect s) xs
      → (t : Mnet (LuaWorld V)) × (mnet_chann_open ctype s
          ≡ some (fresh ctype ChannState.disconnect s, t))
        × IsList t (fresh ctype ChannState.disconnect s ∷ xs)
        × (t.heap (fresh ctype ChannState.disconnect s) ≡ some (made ctype ChannState.disconnect s))
  unfolding mnet_chann_open call_op
  open-IsList xs b l some_at out =
      let (t, runs, list, here) = create-IsList ctype ChannState.disconnect s xs l some_at out in
      (t, rw (b.in_range, b.reserved, runs, b.open_cb, ◌>>=◌, ◌>>◌) refl, list, here)

module _ {V : Type 0} ⦃lua : Texts⦄ ⦃mem : Alloc V⦄ ⦃env : Env (LuaWorld V)⦄ (s : Mnet (LuaWorld V))
    (v : LuaValue) where
  abbrev pub opened_type : ℕ
  opened_type = to_uint32 (to_integer v)

  abbrev pub opened : Ptr
  opened = fresh opened_type ChannState.disconnect s

  -- `chann_open` of a built-in type on a well-formed list of all channels puts a new channel of that
  -- type in front of it, and returns the pointer of a record that stands for that channel. Conditions:
  -- `malloc` does not fail, and the allocator of the library gives a fresh address.
  pub open-IsHandle :
      (xs : List Ptr)
      → is_nil v ≡ false
      → IsBuiltin s opened_type
      → IsList s xs
      → opened ≢ null
      → Out opened xs
      → ((w : V) → (mem.malloc w).0 ≢ null)
      → (t : Mnet (LuaWorld V)) × (p : Ptr) × (chann_open (v ∷ []) s
          ≡ some (one (LuaValue.light p), t))
        × IsHandle t p opened (record (made opened_type ChannState.disconnect s) { opaque = p })
        × IsList t (opened ∷ xs)
  unfolding chann_open
  open-IsHandle xs given b l some_at out mallocs =
      let (u, runs, list, here) = open-IsList s opened_type xs b l some_at out in
      let c = made opened_type ChannState.disconnect s in
      let p = next_lc u in
      let not_null = ==_ne opened null some_at in
      let set_on = set_opaque_lem (with_lc u opened) opened c p not_null here in
      let d : Chann = record c { opaque = p } in
      (
        set_heap (with_lc u opened) opened (some d),
        p,
        rw
            (
              given,
              runs,
              not_null,
              create_lc_lem u opened (mallocs u.world.rest),
              set_on,
              ◌>>=◌,
              ◌>>◌,
            )
            refl,
        record {
          lc = record { n = opened; index = pos 0 };
          known = ground arith;
          owner = refl;
          some_chann = not_null;
          there = heap-set_self (with_lc u opened) opened (some d);
          opaque = refl;
        },
        same_links-IsList (with_lc u opened) opened c d (opened ∷ xs) here refl refl
            (record { linked = list.linked; apart = list.apart; counted = list.counted }),
      )

module _ {V : Type 0} ⦃lua : Texts⦄ ⦃mem : Alloc V⦄ ⦃sys : Resolver (LuaWorld V)⦄
    ⦃env : Env (LuaWorld V)⦄ (s : Mnet (LuaWorld V)) (p n : Ptr) (c : Chann) where
  -- The library after the channel is closed, with its record freed.
  abbrev pub closed : Mnet (LuaWorld V)
  closed = put_lc p none (
      retired n (record s { world = (env.call (SysCall.close c.fd) s.world).1 })
        (record c {
          rwb_send = Rwb.empty;
          fd = negsuc 0;
          state = ChannState.disconnect;
          epoll_events = no_events;
        }))

  close_lem :
      IsHandle s p n c
      → IsLive n s c
      → (s.ext_config c.ctype).close_cb ≡ some Fn.ext_op_cb
      → contents c.rwb_send ≡ []
      → p ≢ null
      → (env.call (SysCall.close c.fd) s.world).1.channs ≡ s.world.channs
      → chann_close (LuaValue.light p ∷ []) s ≡ some (nothing, closed)
  unfolding chann_close on_light load_lc destroy_lua_chann
  close_lem h v builtin sent_all some_at keeps =
      let there : (env.call (SysCall.close c.fd) s.world).1.channs p ≡ some h.lc =
        ap (λ f. f p) keeps ∙ h.known in
      rw
        (
          ==_ne p null some_at,
          h.known,
          h.owner,
          close-retires n s c h.some_chann v builtin sent_all,
          there,
          ◌>>=◌,
          ◌>>◌,
        )
        refl

  -- `chann_close` of a live channel of a built-in type with no cached data closes its descriptor,
  -- leaves it CLOSED and without its user data for the next poll, and frees its record; the pointer
  -- that Lua keeps is dangling then: a call of any function on a channel with it and with
  -- arguments of the right types, which is not a `chann_send` of an empty text, is undefined, also
  -- a second `chann_close`. Condition: the system call `close` leaves the records as they are.
  pub close-IsFreed :
      (fuel : ℕ) (f : LuaFunction) (types : List ℕ) (args : List LuaValue)
      → IsHandle s p n c
      → IsLive n s c
      → (s.ext_config c.ctype).close_cb ≡ some Fn.ext_op_cb
      → contents c.rwb_send ≡ []
      → p ≢ null
      → (env.call (SysCall.close c.fd) s.world).1.channs ≡ s.world.channs
      → chann_types f ≡ some types
      → check_type types (length types) args ≡ true
      → Reads f args
      → to_userdata (arg 1 args) ≡ p
      → (chann_close (LuaValue.light p ∷ []) s ≡ some (nothing, closed))
        × (call fuel f args closed ≡ none)
  close-IsFreed fuel f types args h v builtin sent_all some_at keeps known good reads same = (
    close_lem h v builtin sent_all some_at keeps,
    dangling_undefined fuel f types args closed known good reads (record {
      some_at = ap (λ q. q == null) same ∙ ==_ne p null some_at;
      gone = ap closed.world.channs same ∙ ground arith;
    }),
  )
