-- ===== src/Net/Send/Interest.antt =====
-- `_evt_add` and `_evt_del` on a channel: at most its interest and the world change, and the kernel takes
-- no byte.
use m_net.Base.{
  ℕ, ◌*◌, ◌≡◌, refl, ◌∙◌, inl, inr, Bool, true, false, Option, some, List, arith, ltb,
  if◌then◌else◌, Bool-cases,
}
use m_net.Base.Int.{ℤ, pos, ltb_ℤ}
use m_net.Skiplist.{Ptr}
use m_net.Net.State.{Mnet, Chann, Events, any_event, ◌>>=◌, ◌>>◌, set_heap}
use m_net.Net.Env.{Env, SysCall, CtlOp}
use m_net.Net.Event.{EvtSet, added, removed, evt_add, evt_del, evt_check_expand}
use m_net.Net.Send.Kernel.{IsKernel}

module _ {W : Type 0} ⦃env : Env W⦄ (n : Ptr) (sent : W → List ℕ) where
  expand_keeps :
      (s : Mnet W) (fd : ℤ)
      → IsKernel fd sent
      → (b : Bool) × (s' : Mnet W) × (evt_check_expand s ≡ some (b, s'))
        × (s'.heap ≡ s.heap)
        × (s'.ext_config ≡ s.ext_config)
        × (sent s'.world ≡ sent s.world)
  unfolding evt_check_expand
  expand_keeps s fd kernel = elim (Bool-cases (ltb s.chg_count s.chg_size)) [
    | inl room ↦ (true, s, rw room, refl, refl, refl)
    | inr full ↦ (
      (env.realloc s.world).0,
      record s {
        world = (env.realloc s.world).1;
        chg_size = if (env.realloc s.world).0 then s.chg_size * 2 else s.chg_size;
      },
      rw full,
      refl,
      refl,
      kernel.realloc_law s.world,
    )
  ]

  -- The state after `_evt_add`, whatever the outcome: at most the interest and the world differ.
  abbrev pub Kept : Mnet W → Chann → Option (Bool × Mnet W) → Type 0
  Kept s c r =
      (b : Bool) × (s' : Mnet W) × (v : Events) × (r ≡ some (b, s'))
      × (s'.heap n ≡ some (record c { epoll_events = v }))
      × (s'.ext_config ≡ s.ext_config)
      × (sent s'.world ≡ sent s.world)

  evt_add_room :
      (old s : Mnet W) (c : Chann) (set : EvtSet)
      → IsKernel c.fd sent
      → s.heap n ≡ some c
      → evt_check_expand old ≡ some (true, s)
      → Kept s c (evt_add n set old)
  unfolding evt_add
  evt_add_room old s c set kernel there room =
      let events = added set c.epoll_events in
      let op = if any_event c.epoll_events then CtlOp.ctl_mod else CtlOp.ctl_add in
      let out = env.call (SysCall.epoll_ctl op c.fd events n) s.world in
      elim (Bool-cases (ltb_ℤ out.0 (pos 0))) [
        | inl failed ↦ (
          false,
          record s { world = out.1 },
          c.epoll_events,
          rw (room, there, failed, ◌>>=◌),
          there,
          refl,
          kernel.ctl_law op events n s.world,
        )
        | inr done ↦ (
          true,
          set_heap (record s { world = out.1 }) n (some (record c { epoll_events = events })),
          events,
          rw (room, there, done, there, ◌>>=◌, ◌>>◌),
          ground arith,
          refl,
          kernel.ctl_law op events n s.world,
        )
      ]

  pub evt_add_keeps :
      (s : Mnet W) (c : Chann) (set : EvtSet)
      → IsKernel c.fd sent
      → s.heap n ≡ some c
      → Kept s c (evt_add n set s)
  unfolding evt_add
  evt_add_keeps s c set kernel there =
      let (b, t, ran, heaps, exts, sents) = expand_keeps s c.fd kernel in
      go b t ran heaps exts sents
    where
      go :
          (b : Bool) (t : Mnet W)
          → evt_check_expand s ≡ some (b, t)
          → t.heap ≡ s.heap
          → t.ext_config ≡ s.ext_config
          → sent t.world ≡ sent s.world
          → Kept s c (evt_add n set s)
      go true t ran heaps exts sents =
          let (b, s', v, e, now_there, exts', sents') =
            evt_add_room s t c set kernel (rw heaps there) ran in
          (b, s', v, e, now_there, exts' ∙ exts, sents' ∙ sents)
      go false t ran heaps exts sents =
          (false, t, c.epoll_events, rw (ran, ◌>>=◌), rw heaps there, exts, sents)

  evt_del_room :
      (old s : Mnet W) (c : Chann) (set : EvtSet)
      → IsKernel c.fd sent
      → s.heap n ≡ some c
      → evt_check_expand old ≡ some (true, s)
      → Kept s c (evt_del n set old)
  unfolding evt_del
  evt_del_room old s c set kernel there room =
      let events = removed set c.epoll_events in
      let op = if any_event events then CtlOp.ctl_mod else CtlOp.ctl_del in
      let out = env.call (SysCall.epoll_ctl op c.fd events n) s.world in
      elim (Bool-cases (ltb_ℤ out.0 (pos 0))) [
        | inl failed ↦ (
          false,
          record s { world = out.1 },
          c.epoll_events,
          rw (room, there, failed, ◌>>=◌),
          there,
          refl,
          kernel.ctl_law op events n s.world,
        )
        | inr done ↦ (
          true,
          set_heap (record s { world = out.1 }) n (some (record c { epoll_events = events })),
          events,
          rw (room, there, done, there, ◌>>=◌, ◌>>◌),
          ground arith,
          refl,
          kernel.ctl_law op events n s.world,
        )
      ]

  pub evt_del_keeps :
      (s : Mnet W) (c : Chann) (set : EvtSet)
      → IsKernel c.fd sent
      → s.heap n ≡ some c
      → Kept s c (evt_del n set s)
  unfolding evt_del
  evt_del_keeps s c set kernel there =
      let (b, t, ran, heaps, exts, sents) = expand_keeps s c.fd kernel in
      go b t ran heaps exts sents
    where
      go :
          (b : Bool) (t : Mnet W)
          → evt_check_expand s ≡ some (b, t)
          → t.heap ≡ s.heap
          → t.ext_config ≡ s.ext_config
          → sent t.world ≡ sent s.world
          → Kept s c (evt_del n set s)
      go true t ran heaps exts sents =
          let (b, s', v, e, now_there, exts', sents') =
            evt_del_room s t c set kernel (rw heaps there) ran in
          (b, s', v, e, now_there, exts' ∙ exts, sents' ∙ sents)
      go false t ran heaps exts sents =
          (false, t, c.epoll_events, rw (ran, ◌>>=◌), rw heaps there, exts, sents)
