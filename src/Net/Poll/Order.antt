-- ===== src/Net/Poll/Order.antt =====
-- The events of one poll, as `mnet_result_next` of src/mnet_core.c hands them out.
pub mod Events
use m_net.Base.{
  ℕ, zero, suc, ◌+◌, ◌<◌, ◌≤◌, ◌≡◌, refl, sym, ap, subst, ◌∙◌, ◌||◌, ◌⊎◌, inl, inr, Bool-cases,
  true, false, Option, none, some, List, [], ◌∷◌, ◌++◌, All, arith, ltb, ◌==◌, if◌then◌else◌,
  length, length-append, some_inj, append_assoc,
}
use m_net.Base.Int.{ℤ, pos, negsuc, ◌+ℤ◌, ltb_ℤ, leb_ℤ}
use m_net.Skiplist.{Ptr, null}
use m_net.Net.State.{
  Mnet, M, Chann, ChannState, ChannEvent, Kev, Fn, rank, pure, fault, ◌>>=◌, ◌>>◌, set_heap,
}
use m_net.Net.State.Heap.{heap-set_self, heap-set_ne}
use m_net.Net.Env.{Env}
use m_net.Net.Chann.Message.{with_message, chann_msg_here}
use m_net.Net.Poll.{nth, at, tell, on_event, on_connected, evt_result_next}
use m_net.Net.Poll.Report.{tm_next-idle}
use m_net.Net.Poll.Order.Events.{
  IsReadable, readable, Item, IsAt, with_first, next_index, told-Same, readable-Same, Items-Same,
  skip_lem, read_lem, stepped, take_lem, end_lem,
}

module _ {W : Type 0} ⦃env : Env W⦄ where
  -- What one call finds: no event is left, or the first one that is not passed over.
  abbrev Found : ℕ → Mnet W → List Kev → List Kev → Type 0
  Found fuel s pre rest =
      ((t : Mnet W) × (readable s.heap rest ≡ []) × (evt_result_next fuel s ≡ some (none, t)))
      ⊎ ((t : Mnet W) × (n : Ptr) × (pre' rest' : List Kev) × (readable s.heap rest
            ≡ n ∷ readable t.heap rest')
          × (evt_result_next fuel s ≡ some (some n, t))
          × IsAt t pre' rest'
          × (length rest' < length rest))

  step_on :
      (s : Mnet W) (pre rest : List Kev) (k : Kev)
      → IsAt s pre (k ∷ rest)
      → IsAt (stepped s (length pre)) (pre ++ k ∷ []) rest
  step_on s pre rest k a = record {
    idle = a.idle;
    none_failed = a.none_failed;
    events = a.events ∙ sym (append_assoc pre (k ∷ []) rest);
    index = next_index (length pre) ∙ ap pos (sym (length-append pre (k ∷ [])));
    count = a.count ∙ ap pos (omega (arith, length-append pre (k ∷ [])));
    items = a.items.1;
  }

  next_lem :
      (fuel : ℕ) (s : Mnet W) (pre rest : List Kev)
      → IsAt s pre rest
      → length rest + 1 < fuel
      → Found fuel s pre rest
  next_lem zero s pre rest a enough = absurd (omega arith)
  next_lem (suc zero) s pre rest a enough = absurd (omega arith)
  next_lem (suc (suc fuel)) s pre [] a enough =
      inl (stepped s (length pre), refl, end_lem fuel s pre a)
  next_lem (suc (suc fuel)) s pre (k ∷ rest) a enough =
      let s1 = stepped s (length pre) in
      let taken = take_lem fuel s pre rest k a in
      let on = step_on s pre rest k a in
      let (c, there, builtin, kind) = a.items.0 in
      elim kind [
        | inl closed ↦
            let skips = skip_lem s1 k c there closed in
            let over : readable s.heap (k ∷ rest) ≡ readable s.heap rest =
              ap (λ o. with_first k.opaque o (readable s.heap rest)) there ∙ rw closed refl in
            elim (next_lem (suc fuel) s1 (pre ++ k ∷ []) rest on (omega arith)) [
              | inl (t, none_left, ran) ↦ inl (t, over ∙ none_left, taken ∙ rw (skips, ◌>>=◌) ran)
              | inr (t, n, pre', rest', split, ran, at_t, fewer) ↦ inr (
                t,
                n,
                pre',
                rest',
                over ∙ split,
                taken ∙ rw (skips, ◌>>=◌) ran,
                at_t,
                omega (arith, fewer),
              )
            ]
        | inr v ↦
            let t : Mnet W =
              set_heap s1 k.opaque (some (with_message k.opaque c ChannEvent.recv null (pos 0))) in
            let same = told-Same s1 k.opaque c ChannEvent.recv null (pos 0) there in
            let active : (rank c.state == 0) ≡ false = ap (λ x. rank x == 0) v.connected in
            inr (
              t,
              k.opaque,
              pre ++ k ∷ [],
              rest,
              ap (λ o. with_first k.opaque o (readable s.heap rest)) there
                  ∙ rw active refl
                  ∙ ap (λ ns. k.opaque ∷ ns) (sym (readable-Same s1 t.heap rest same on.items)),
              taken ∙ rw (read_lem s1 k c there builtin v, ◌>>=◌) refl,
              record {
                idle = on.idle;
                none_failed = on.none_failed;
                events = on.events;
                index = on.index;
                count = on.count;
                items = Items-Same s1 t rest same refl on.items;
              },
              omega arith,
            )
      ]

  -- The loop of a program that takes messages until there is none: the channels it is told of.
  unfoldable pub messages : ℕ → M W (List Ptr)
  messages zero = fault
  messages (suc fuel) = do
    told ← evt_result_next fuel
    elim told [ none ↦ pure [] | some n ↦ do ns ← messages fuel; pure (n ∷ ns) ]

  -- When no timer is due, no channel has failed, and every event that is left of the last poll is one
  -- of a channel of a built-in type that is CLOSED, or CONNECTED with an open descriptor and readable
  -- without an error: a program that calls `mnet_result_next` until there is no message gets one for
  -- each event, in the order of the events, but none for a closed channel, and then the end. As many
  -- rounds as there are events and three more are enough.
  pub messages-readable :
      (fuel : ℕ) (s : Mnet W) (pre rest : List Kev)
      → IsAt s pre rest
      → length rest + 2 < fuel
      → (t : Mnet W) × (messages fuel s ≡ some (readable s.heap rest, t))
  unfolding messages
  messages-readable zero s pre rest a enough = absurd (omega arith)
  messages-readable (suc fuel) s pre rest a enough =
      elim (next_lem fuel s pre rest a (omega arith)) [
        | inl (t, none_left, ran) ↦ (t, rw (ran, none_left, ◌>>=◌) refl)
        | inr (t, n, pre', rest', split, ran, at_t, fewer) ↦
            let (u, more) = messages-readable fuel t pre' rest' at_t (omega (arith, fewer)) in
            (u, rw (ran, more, split, ◌>>=◌) refl)
      ]
