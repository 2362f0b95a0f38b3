-- ===== src/Net/Timer/Interval.antt =====
-- The interval of a timer, which chann_tm_t keeps in an int, when `_tm_update` sets it anew.
use m_net.Base.{ℕ, ◌*◌, ◌≤◌, ◌≡◌, ◌≢◌, ◌↔◌, subst, some, List, ◌∷◌, arith, All, All-append_right}
use m_net.Base.Int.{ℤ, pos, negsuc, ◌*ℤ◌, ◌≤ℤ◌, to_int32}
use m_net.Skiplist.{Ptr, null, head, Node, random_level}
use m_net.Skiplist.Ring.{Out}
use m_net.Skiplist.Entries.{Entry, IsSkiplist, In, addrs, place, erase, before, after, place-split}
use m_net.Net.State.{Mnet, Chann, ChannTm}
use m_net.Net.State.Heap.{heap-set_self}
use m_net.Net.Env.{Env}
use m_net.Net.Timer.{tm_update}
use m_net.Net.Timer.Update.{
  timer, next_node, after_node, clocked, due, renewed, updated, update_lem,
}

-- A number that an int holds.
abbrev IsInt32 : ℤ → Type 0
IsInt32 z = (negsuc 2147483647 ≤ℤ z) × (z ≤ℤ pos 2147483647)

to_int32_iff : (z : ℤ) → (to_int32 z ≡ z) ↔ IsInt32 z
unfolding to_int32
to_int32_iff (pos n) = (λ e. ground arith, λ h. ground arith)
to_int32_iff (negsuc n) = (λ e. ground arith, λ h. ground arith)

microseconds : (ms : ℕ) → pos ms *ℤ pos 1000 ≡ pos (ms * 1000)
unfolding ◌*ℤ◌
microseconds ms = ground arith

short_iff : (ms : ℕ) → (to_int32 (pos ms *ℤ pos 1000) ≡ pos (ms * 1000)) ↔ (ms ≤ 2147483)
short_iff ms = rw (microseconds ms) (
  λ e. omega (arith, (to_int32_iff (pos (ms * 1000))).0 e),
  λ h. (to_int32_iff (pos (ms * 1000))).1 (omega arith),
)

-- What is true of all nodes is true of the one that is placed.
All-placed :
    (P : Entry ChannTm → Type 0) (e : Entry ChannTm) (es : List (Entry ChannTm))
    → All P (place e es)
    → P e
All-placed P e es h =
    (All-append_right P (before e.node.key es) (e ∷ after e.node.key es)
      (subst (All P) (place-split e es) h)).0

module _ {W : Type 0} ⦃env : Env W⦄ (n : Ptr) (s : Mnet W) (c : Chann) (ms : ℕ) where
  -- What `_tm_update` is asked for.
  abbrev pub asked : ℤ
  asked = pos ms *ℤ pos 1000

  -- `_tm_update` of a timer to an interval of `ms` milliseconds, under the conditions of
  -- `update-place`: the timer to which the channel refers then has that interval, in microseconds,
  -- exactly when `ms` is at most 2147483, which is a bit less than 36 minutes.
  pub interval_kept_iff :
      (es : List (Entry ChannTm)) (nd : Node ChannTm) (level : ℕ)
      → s.heap n ≡ some c
      → IsSkiplist s.tm_clock es
      → In c.timer_node (addrs es)
      → s.tm_clock.node c.timer_node ≡ some nd
      → random_level (env.draws (clocked n asked s c)).0 ≡ some level
      → next_node (clocked n asked s c) ≢ null
      → next_node (clocked n asked s c) ≢ head
      → Out (next_node (clocked n asked s c)) (addrs (erase c.timer_node es))
      → (t : Mnet W) × (k : Node ChannTm) × (tm_update n asked s ≡ some (tt, t))
        × (t.heap n ≡ some (record c { timer_node = next_node (clocked n asked s c) }))
        × (t.tm_clock.node (next_node (clocked n asked s c)) ≡ some k)
        × ((k.value.interval ≡ pos (ms * 1000)) ↔ (ms ≤ 2147483))
  interval_kept_iff es nd level there h m known drawn some_node not_head fresh =
      let (l, ran, well) =
        update_lem n asked s c es nd level there h m known drawn some_node not_head fresh in
      let e =
        timer (next_node (clocked n asked s c)) level (due n asked s c)
          (renewed n asked s c nd.value) in
      (
        updated n asked s c l,
        e.node,
        ran,
        heap-set_self (record s { world = after_node (clocked n asked s c); tm_clock = l }) n
            (some (record c { timer_node = next_node (clocked n asked s c) })),
        All-placed (λ x. l.node x.addr ≡ some x.node) e (erase c.timer_node es) well.stored,
        short_iff ms,
      )
