-- ===== src/Lua/Handles.antt =====
-- The pointers by which Lua knows the channels: `_create_lua_chann` and what `_mnet_result_next`,
-- `_chann_open` and `_chann_close` of extension/lua/mnet_lua.c do with it.
use m_net.Base.{◌≡◌, ◌≢◌, refl, sym, ◌∙◌, false, some, [], ◌∷◌, arith, ◌==◌, ==_ne}
use m_net.Base.Int.{pos, ℤ}
use m_net.Skiplist.{Ptr, null}
use m_net.Net.State.{Mnet, Chann, ChannEvent, Fn, ◌>>=◌, ◌>>◌, set_heap, modify}
use m_net.Net.State.Heap.{heap-set_self, heap-set_ne}
use m_net.Net.Env.{Env}
use m_net.Net.Chann.Message.{with_message, chann_msg_here}
use m_net.Net.Poll.{tell}
use m_net.Net.Api.{mnet_chann_get_opaque, mnet_chann_set_opaque}
use m_net.Lua.World.{
  LuaValue, LuaResult, LuaChann, LuaWorld, Alloc, event_number, put_lc, create_lua_chann,
}
use m_net.Lua.Library.{push_message}

-- The channel `c` at `n` and the record at `p` refer to each other.
pub record IsHandle {V : Type 0} (s : Mnet (LuaWorld V)) (p n : Ptr) (c : Chann) : Type 0 where
  pub lc : LuaChann
  pub known : s.world.channs p ≡ some lc
  pub owner : lc.n ≡ n
  pub some_chann : (n == null) ≡ false
  pub there : s.heap n ≡ some c
  pub opaque : c.opaque ≡ p

module _ {V : Type 0} ⦃mem : Alloc V⦄ (s : Mnet (LuaWorld V)) where
  -- The address of the next record.
  abbrev pub next_lc : Ptr
  next_lc = (mem.malloc s.world.rest).0

  abbrev pub with_lc : Ptr → Mnet (LuaWorld V)
  with_lc n =
      put_lc next_lc (some (record { n = n; index = pos 0 }))
        (record s { world = record s.world { rest = (mem.malloc s.world.rest).1 } })

  pub create_lc_lem : (n : Ptr) → next_lc ≢ null → create_lua_chann n s ≡ some (next_lc, with_lc n)
  unfolding create_lua_chann
  create_lc_lem n some_at = rw (==_ne next_lc null some_at, ◌>>=◌, ◌>>◌) refl

module _ {V : Type 0} ⦃env : Env (LuaWorld V)⦄ (s : Mnet (LuaWorld V)) (n : Ptr) (c : Chann) where
  get_opaque_lem :
      (n == null) ≡ false → s.heap n ≡ some c → mnet_chann_get_opaque n s ≡ some (c.opaque, s)
  unfolding mnet_chann_get_opaque
  get_opaque_lem some_chann there = rw (some_chann, there, ◌>>=◌) refl

  pub set_opaque_lem :
      (p : Ptr)
      → (n == null) ≡ false
      → s.heap n ≡ some c
      → mnet_chann_set_opaque n p s ≡ some (tt, set_heap s n (some (record c { opaque = p })))
  unfolding mnet_chann_set_opaque
  set_opaque_lem p some_chann there = rw (some_chann, modify, there) refl

module _ {V : Type 0} ⦃mem : Alloc V⦄ ⦃env : Env (LuaWorld V)⦄ (s : Mnet (LuaWorld V)) (n : Ptr)
    (c : Chann) where
  -- The channel that is told of an event.
  abbrev pub told : ChannEvent → Ptr → ℤ → Mnet (LuaWorld V)
  told event r err = set_heap s n (some (with_message n c event r err))

  tell_lem :
      (event : ChannEvent) (r : Ptr) (err : ℤ)
      → s.heap n ≡ some c
      → (s.ext_config c.ctype).filter_fn ≡ some Fn.ext_filter_fn
      → tell n event r err s ≡ some (some n, told event r err)
  unfolding tell
  tell_lem event r err there builtin =
      rw (chann_msg_here n s c event r err there builtin, ◌>>=◌) refl

  load_told :
      (event : ChannEvent) (r : Ptr) (err : ℤ)
      → (told event r err).heap n ≡ some (with_message n c event r err)
  load_told event r err = heap-set_self s n (some (with_message n c event r err))

  -- An event of a channel of a built-in type that is not an accept reaches Lua with the pointer of
  -- that channel, which stays its pointer.
  pub told-IsHandle :
      (p : Ptr) (event : ChannEvent) (err : ℤ)
      → IsHandle s p n c
      → (s.ext_config c.ctype).filter_fn ≡ some Fn.ext_filter_fn
      → ((do _ ← tell n event null err; push_message n) s
          ≡ some (
            LuaResult.returns
                (LuaValue.light p ∷ LuaValue.number (pos (event_number event)) ∷ LuaValue.nil ∷ []),
            told event null err,
          ))
        × IsHandle (told event null err) p n (with_message n c event null err)
  unfolding push_message
  told-IsHandle p event err h builtin =
      let d = with_message n c event null err in
      let t = told event null err in
      let here = load_told event null err in
      (
        rw
            (
              tell_lem event null err h.there builtin,
              here,
              get_opaque_lem t n d h.some_chann here,
              h.opaque,
              ◌>>=◌,
            )
            refl,
        record {
          lc = h.lc;
          known = h.known;
          owner = h.owner;
          some_chann = h.some_chann;
          there = here;
          opaque = h.opaque;
        },
      )

  -- The library after Lua has got the accept of `r` on `n`: the record of `r` is new.
  abbrev pub accepted : Ptr → Chann → Mnet (LuaWorld V)
  accepted r d =
      let t = told ChannEvent.accept r (pos 0) in
      set_heap (with_lc t r) r (some (record d { opaque = next_lc s }))

  accepts :
      (p r : Ptr) (d : Chann)
      → IsHandle s p n c
      → (s.ext_config c.ctype).filter_fn ≡ some Fn.ext_filter_fn
      → s.heap r ≡ some d
      → r ≢ null
      → r ≢ n
      → next_lc s ≢ null
      → next_lc s ≢ p
      → ((do _ ← tell n ChannEvent.accept r (pos 0); push_message n) s
          ≡ some (
            LuaResult.returns
                (LuaValue.light p ∷ LuaValue.number (pos 3) ∷ LuaValue.light (next_lc s) ∷ []),
            accepted r d,
          ))
        × IsHandle (accepted r d) p n (with_message n c ChannEvent.accept r (pos 0))
        × IsHandle (accepted r d) (next_lc s) r (record d { opaque = next_lc s })
  unfolding push_message
  accepts p r d h builtin there some_r apart got fresh =
      let e = with_message n c ChannEvent.accept r (pos 0) in
      let t = told ChannEvent.accept r (pos 0) in
      let here = load_told ChannEvent.accept r (pos 0) in
      let made = create_lc_lem t r got in
      let there_r : (with_lc t r).heap r ≡ some d = heap-set_ne s n r (some e) apart ∙ there in
      let set_on = set_opaque_lem (with_lc t r) r d (next_lc s) (==_ne r null some_r) there_r in
      (
        rw
            (
              tell_lem ChannEvent.accept r (pos 0) h.there builtin,
              here,
              get_opaque_lem t n e h.some_chann here,
              ==_ne r null some_r,
              made,
              set_on,
              h.opaque,
              ◌>>=◌,
              ◌>>◌,
            )
            refl,
        record {
          lc = h.lc;
          known = ground (arith, fresh, h.known);
          owner = h.owner;
          some_chann = h.some_chann;
          there =
              heap-set_ne (with_lc t r) r n (some (record d { opaque = next_lc s }))
                (λ same. apart (sym same))
              ∙ here;
          opaque = h.opaque;
        },
        record {
          lc = record { n = r; index = pos 0 };
          known = ground arith;
          owner = refl;
          some_chann = ==_ne r null some_r;
          there = heap-set_self (with_lc t r) r (some (record d { opaque = next_lc s }));
          opaque = refl;
        },
      )

module _ {V : Type 0} ⦃mem : Alloc V⦄ ⦃env : Env (LuaWorld V)⦄ (s : Mnet (LuaWorld V)) (n : Ptr)
    (c : Chann) where
  -- An accept reaches Lua with the pointer of the channel that listens, which stays its pointer, and
  -- with that of a new record for the accepted channel, which becomes its pointer: the next event of
  -- the accepted channel, whichever it is, comes with it. Conditions: both channels are of a
  -- built-in type, the accepted one is another one of the heap, and `malloc` gives an address that
  -- is not NULL and not in use for the channel that listens.
  pub accept-IsHandle :
      (p r : Ptr) (d : Chann) (event : ChannEvent) (err : ℤ)
      → IsHandle s p n c
      → (s.ext_config c.ctype).filter_fn ≡ some Fn.ext_filter_fn
      → (s.ext_config d.ctype).filter_fn ≡ some Fn.ext_filter_fn
      → s.heap r ≡ some d
      → r ≢ null
      → r ≢ n
      → next_lc s ≢ null
      → next_lc s ≢ p
      → let t = accepted s n c r d in
        ((do _ ← tell n ChannEvent.accept r (pos 0); push_message n) s
          ≡ some (
            LuaResult.returns
                (LuaValue.light p ∷ LuaValue.number (pos 3) ∷ LuaValue.light (next_lc s) ∷ []),
            t,
          ))
        × IsHandle t p n (with_message n c ChannEvent.accept r (pos 0))
        × IsHandle t (next_lc s) r (record d { opaque = next_lc s })
        × ((do _ ← tell r event null err; push_message r) t
            ≡ some (
              LuaResult.returns (
                  LuaValue.light (next_lc s)
                  ∷ LuaValue.number (pos (event_number event))
                  ∷ LuaValue.nil
                  ∷ []),
              told t r (record d { opaque = next_lc s }) event null err,
            ))
  accept-IsHandle p r d event err h builtin builtin' there some_r apart got fresh =
      let (ran, old, new) = accepts s n c p r d h builtin there some_r apart got fresh in
      (
        ran,
        old,
        new,
        (told-IsHandle (accepted s n c r d) r (record d { opaque = next_lc s }) (next_lc s) event
            err new builtin').0,
      )
