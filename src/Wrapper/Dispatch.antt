-- ===== src/Wrapper/Dispatch.antt =====
-- Objects of the class Chann of src/mnet_wrapper.h and the channels they stand for: the accept, the
-- move and the guard of the data methods.
use mathlib.Core.Path.{fun_ext}
use m_net.Base.{
  ℕ, ◌≤◌, ◌≡◌, ◌≢◌, refl, ap, inl, inr, false, Option, none, some, List, arith, leb, ◌==◌,
  if◌then◌else◌, Bool-cases,
}
use m_net.Base.Int.{pos, negsuc, leb_ℤ}
use m_net.Skiplist.{Ptr, null}
use m_net.Net.State.{Mnet, Chann, ChannState, Fn, rank, pure, ◌>>=◌, ◌>>◌, set_heap, modify}
use m_net.Net.State.Heap.{heap-set_self}
use m_net.Net.Env.{Env}
use m_net.Net.Ext.{call_state}
use m_net.Net.Send.{shown_state, mnet_chann_send}
use m_net.Net.Api.{mnet_chann_state, mnet_chann_set_opaque, mnet_chann_close}
use m_net.Wrapper.World.{Handler, CppChann, CppWorld, Program, put_obj, load_obj, modify_obj}
use m_net.Wrapper.Object.{object, is_state, chann_send, take_chann, delete_chann}

module _ {V : Type 0} (s : Mnet (CppWorld V)) (p : Ptr) where
  pub put_obj_self : (o : Option CppChann) → (put_obj p o s).world.objs p ≡ o
  put_obj_self o = ground arith

  pub put_obj_twice : (o o' : Option CppChann) → put_obj p o' (put_obj p o s) ≡ put_obj p o' s
  put_obj_twice o o' =
      ap (λ f. record s { world = record s.world { objs = f } }) (fun_ext λ q. ground arith)

  pub load_obj_lem : (o : CppChann) → s.world.objs p ≡ some o → load_obj p s ≡ some (o, s)
  unfolding load_obj
  load_obj_lem o known = rw (load_obj, known) refl

  pub modify_obj_lem :
      (o : CppChann) (f : CppChann → CppChann)
      → s.world.objs p ≡ some o
      → modify_obj p f s ≡ some (tt, put_obj p (some (f o)) s)
  unfolding modify_obj
  modify_obj_lem o f known = rw (load_obj_lem o known, ◌>>=◌)

  pub set_opaque_lem :
      ⦃env : Env (CppWorld V)⦄ (this : Ptr) (c : Chann)
      → (p == null) ≡ false
      → s.heap p ≡ some c
      → mnet_chann_set_opaque p this s ≡ some (tt, set_heap s p (some (record c { opaque = this })))
  unfolding mnet_chann_set_opaque
  set_opaque_lem this c some_chann there = rw (some_chann, modify, there) refl

rank-le : (state : ChannState) → rank state ≤ 4
rank-le ChannState.closed = omega arith
rank-le ChannState.disconnect = omega arith
rank-le ChannState.connecting = omega arith
rank-le ChannState.connected = omega arith
rank-le ChannState.listening = omega arith

module _ {V : Type 0} ⦃prog : Program V⦄ ⦃env : Env (CppWorld V)⦄ where
  shown_builtin :
      (n : Ptr) (s : Mnet (CppWorld V)) (c : Chann)
      → s.heap n ≡ some c
      → (s.ext_config c.ctype).state_fn ≡ some Fn.ext_state_fn
      → shown_state n s ≡ some (pos (rank c.state), s)
  unfolding shown_state call_state
  shown_builtin n s c there builtin = rw (there, builtin, ◌>>=◌)

  send_by_state :
      (this : Ptr) (s : Mnet (CppWorld V)) (o : CppChann) (c : Chann) (buf : List ℕ) (len : ℕ)
      → s.world.objs this ≡ some o
      → (o.m_chann == null) ≡ false
      → shown_state o.m_chann s ≡ some (pos (rank c.state), s)
      → chann_send this (some buf) len s
        ≡ (if is_state (pos (rank c.state)) ChannState.connected
              then mnet_chann_send o.m_chann (some buf) len
              else pure (negsuc 0))
            s
  unfolding chann_send mnet_chann_state
  send_by_state this s o c buf len known some_chann shown =
      rw (load_obj_lem s this o known, some_chann, shown, ◌>>=◌) refl

  send_refused :
      (n : Ptr) (s : Mnet (CppWorld V)) (c : Chann) (buf : List ℕ) (len : ℕ)
      → s.heap n ≡ some c
      → shown_state n s ≡ some (pos (rank c.state), s)
      → leb_ℤ (pos (rank ChannState.connected)) (pos (rank c.state)) ≡ false
      → mnet_chann_send n (some buf) len s ≡ some (negsuc 0, s)
  unfolding mnet_chann_send
  send_refused n s c buf len there shown low = elim (Bool-cases (leb len 0)) [
    | inl no_room ↦ rw (there, no_room, ◌>>=◌) refl
    | inr room ↦ rw (there, room, shown, low, ◌>>=◌) refl
  ]

  -- On a channel of a built-in type the method `channSend` is `mnet_chann_send` of the channel in
  -- every state but LISTENING; there it returns -1.
  pub send_guarded :
      (this : Ptr) (s : Mnet (CppWorld V)) (o : CppChann) (c : Chann) (buf : List ℕ) (len : ℕ)
      → s.world.objs this ≡ some o
      → (o.m_chann == null) ≡ false
      → s.heap o.m_chann ≡ some c
      → (s.ext_config c.ctype).state_fn ≡ some Fn.ext_state_fn
      → chann_send this (some buf) len s ≡ (
          if rank c.state == rank ChannState.listening
          then some (negsuc 0, s)
          else mnet_chann_send o.m_chann (some buf) len s)
  send_guarded this s o c buf len known some_chann there builtin =
      let shown = shown_builtin o.m_chann s c there builtin in
      let by_state = send_by_state this s o c buf len known some_chann shown in
      elim (Bool-cases (rank c.state == rank ChannState.listening)) [
        | inl listening ↦
            let other : is_state (pos (rank c.state)) ChannState.connected ≡ false =
              ground (arith, listening) in
            rw (by_state, listening, other) refl
        | inr active ↦ elim (Bool-cases (is_state (pos (rank c.state)) ChannState.connected)) [
          | inl connected ↦ rw (by_state, active, connected) refl
          | inr other ↦
              let low : leb_ℤ (pos (rank ChannState.connected)) (pos (rank c.state)) ≡ false =
                ground (arith, active, other, rank-le c.state) in
              rw (by_state, active, other, send_refused o.m_chann s c buf len there shown low) refl
        ]
      ]

  -- The channel `c` belongs to the object `o` at `from`.
  pub record IsOwned (from : Ptr) (s : Mnet (CppWorld V)) (o : CppChann) (c : Chann) : Type 0 where
    pub known : s.world.objs from ≡ some o
    pub some_obj : (from == null) ≡ false
    pub some_chann : (o.m_chann == null) ≡ false
    pub there : s.heap o.m_chann ≡ some c

  -- Chann(Chann *) moves the channel: the new object `this` owns it and gets its messages, the old
  -- one owns none, and its deletion leaves the channel as it is.
  pub take_moves :
      (this from : Ptr) (s : Mnet (CppWorld V)) (o : CppChann) (c : Chann)
      → IsOwned from s o c
      → from ≢ this
      → (t : Mnet (CppWorld V)) × ((do take_chann this from; delete_chann from) s ≡ some (tt, t))
        × (t.heap o.m_chann ≡ some (record c { opaque = this }))
        × (t.world.objs this ≡ some (object o.m_chann Handler.no_handler))
        × (t.world.objs from ≡ none)
  unfolding take_chann delete_chann mnet_chann_close
  take_moves this from s o c w apart =
      let s1 = put_obj this (some (object o.m_chann Handler.no_handler)) s in
      let s2 = set_heap s1 o.m_chann (some (record c { opaque = this })) in
      let o' : CppChann = record o { m_chann = null; m_handler = Handler.no_handler } in
      let s3 = put_obj from (some o') s2 in
      let opaque = set_opaque_lem s1 o.m_chann this c w.some_chann w.there in
      let known2 : s2.world.objs from ≡ some o = ground (arith, apart, w.known) in
      let released =
        modify_obj_lem s2 from o (λ d. record d { m_chann = null; m_handler = Handler.no_handler })
          known2 in
      (
        put_obj from none s3,
        rw
            (
              w.some_obj,
              load_obj_lem s from o w.known,
              opaque,
              released,
              load_obj_lem s3 from o' (put_obj_self s2 from (some o')),
              ◌>>=◌,
              ◌>>◌,
            )
            refl,
        heap-set_self s1 o.m_chann (some (record c { opaque = this })),
        ground (arith, apart),
        ground arith,
      )
