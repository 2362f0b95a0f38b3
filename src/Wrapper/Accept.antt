-- ===== src/Wrapper/Accept.antt =====
-- An accepted channel and its object: the accept and the dispatch of the next message, by the class
-- Chann of src/mnet_wrapper.h.
use m_net.Base.{◌≡◌, ◌≢◌, ◌∙◌, refl, ap, ℕ, false, none, some, ◌==◌}
use m_net.Base.Int.{ℤ}
use m_net.Skiplist.{Ptr, null}
use m_net.Net.State.{Mnet, Chann, ChannEvent, Fn, ◌>>=◌, ◌>>◌, set_heap}
use m_net.Net.State.Heap.{heap-set_self}
use m_net.Net.Env.{Env}
use m_net.Net.Chann.Message.{with_message, chann_msg_lem}
use m_net.Net.Poll.{tell}
use m_net.Wrapper.World.{Handler, CppChann, CppWorld, Program, put_obj}
use m_net.Wrapper.Object.{
  object, wrap_chann, accept_chann, set_event_handler, dispatch_event, chann_dispatch_event,
}
use m_net.Wrapper.Dispatch.{
  put_obj_self, put_obj_twice, load_obj_lem, modify_obj_lem, set_opaque_lem,
}

module _ {V : Type 0} ⦃prog : Program V⦄ ⦃env : Env (CppWorld V)⦄ (r : Ptr) (s : Mnet (CppWorld V))
    (d : Chann) where
  -- The object that operator new gives, and the library then.
  abbrev pub nc : Ptr
  nc = (prog.new s.world.rest).0

  abbrev after_new : Mnet (CppWorld V)
  after_new = record s { world = record s.world { rest = (prog.new s.world.rest).1 } }

  -- The library with the object `o` at `nc`, before the channel refers to it.
  abbrev pub with_obj : CppChann → Mnet (CppWorld V)
  with_obj o = put_obj nc (some o) after_new

  abbrev accepted : Chann
  accepted = record d { opaque = nc }

  abbrev bare : CppChann
  bare = object r Handler.indeterminate

  accept_lem :
      (r == null) ≡ false
      → s.heap r ≡ some d
      → accept_chann r s ≡ some (nc, set_heap (with_obj bare) r (some accepted))
  unfolding accept_chann wrap_chann
  accept_lem some_chann there =
      rw (set_opaque_lem (with_obj bare) r nc d some_chann there, ◌>>=◌, ◌>>◌) refl

  -- The channel that is told of an event.
  abbrev pub told : ChannEvent → ℤ → Chann
  told event err = with_message r accepted event null err

  tell_lem :
      (t : Mnet (CppWorld V)) (event : ChannEvent) (err : ℤ)
      → (t.ext_config d.ctype).filter_fn ≡ some Fn.ext_filter_fn
      → tell r event null err (set_heap t r (some accepted))
        ≡ some (some r, set_heap t r (some (told event err)))
  unfolding tell
  tell_lem t event err builtin = rw (chann_msg_lem r t accepted event null err builtin, ◌>>=◌) refl

  -- The channel is told of the event, and the object of its user data dispatches it.
  dispatch_told :
      (u : Mnet (CppWorld V)) (k : ℕ) (event : ChannEvent) (err : ℤ)
      → event ≢ ChannEvent.accept
      → u.heap r ≡ some (told event err)
      → u.world.objs nc ≡ some (object r (Handler.external k))
      → chann_dispatch_event r u ≡ prog.handler k nc null event err u
  unfolding chann_dispatch_event dispatch_event
  dispatch_told u k ChannEvent.accept err other here known = absurd (other refl)
  dispatch_told u k ChannEvent.unset err other here known =
      rw (here, here, load_obj_lem u nc _ known, ◌>>=◌) refl
  dispatch_told u k ChannEvent.recv err other here known =
      rw (here, here, load_obj_lem u nc _ known, ◌>>=◌) refl
  dispatch_told u k ChannEvent.send err other here known =
      rw (here, here, load_obj_lem u nc _ known, ◌>>=◌) refl
  dispatch_told u k ChannEvent.connected err other here known =
      rw (here, here, load_obj_lem u nc _ known, ◌>>=◌) refl
  dispatch_told u k ChannEvent.disconnect err other here known =
      rw (here, here, load_obj_lem u nc _ known, ◌>>=◌) refl
  dispatch_told u k ChannEvent.timer err other here known =
      rw (here, here, load_obj_lem u nc _ known, ◌>>=◌) refl

  -- The object of an accepted channel gets the next message of the channel, whatever its event is
  -- but an accept, and passes event and error to the handler that is set on it; if none is set
  -- before, the dispatch is undefined, because the constructor for an accepted channel leaves
  -- m_handler without a value. Condition: the channel is of a built-in type.
  pub accepted_dispatch :
      (k : ℕ) (event : ChannEvent) (err : ℤ)
      → event ≢ ChannEvent.accept
      → (r == null) ≡ false
      → s.heap r ≡ some d
      → (s.ext_config d.ctype).filter_fn ≡ some Fn.ext_filter_fn
      → ((do
        o ← accept_chann r
        set_event_handler o k
        _ ← tell r event null err
        chann_dispatch_event r)
            s
          ≡ prog.handler k nc null event err
              (set_heap (with_obj (object r (Handler.external k))) r (some (told event err))))
        × ((do _ ← accept_chann r; _ ← tell r event null err; chann_dispatch_event r) s ≡ none)
  unfolding chann_dispatch_event dispatch_event
  accepted_dispatch k event err other some_chann there builtin =
      let accepts = accept_lem some_chann there in
      let ext : CppChann = object r (Handler.external k) in
      let twice = put_obj nc (some ext) (with_obj bare) in
      (
        let t = set_heap twice r (some (told event err)) in
            let here : t.heap r ≡ some (told event err) =
              heap-set_self twice r (some (told event err)) in
            let known : t.world.objs nc ≡ some ext = put_obj_self (with_obj bare) nc (some ext) in
            let set_on =
              modify_obj_lem (set_heap (with_obj bare) r (some accepted)) nc bare
                (λ o. record o { m_handler = Handler.external k })
                (put_obj_self after_new nc (some bare)) in
            rw (accepts, set_on, tell_lem twice event err builtin, ◌>>=◌, ◌>>◌)
              (dispatch_told t k event err other here known
                ∙ ap
                    (λ (u : Mnet (CppWorld V)).
                      prog.handler k nc null event err (set_heap u r (some (told event err))))
                    (put_obj_twice after_new nc (some bare) (some ext))),
        let t = set_heap (with_obj bare) r (some (told event err)) in
            let here : t.heap r ≡ some (told event err) =
              heap-set_self (with_obj bare) r (some (told event err)) in
            let known : t.world.objs nc ≡ some bare = put_obj_self after_new nc (some bare) in
            rw
              (
                accepts,
                tell_lem (with_obj bare) event err builtin,
                here,
                here,
                load_obj_lem t nc bare known,
                ◌>>=◌,
                ◌>>◌,
              )
              refl,
      )
