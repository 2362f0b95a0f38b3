-- ===== src/Net/Timer.antt =====
-- Timers: `_tm_active`, `_tm_update`, `_tm_kill`, `_tm_schedule` of src/mnet_core.c. A chann_tm_t is
-- stored in its node of the skip list.
pub mod Schedule
pub mod Update
pub mod Interval
use m_net.Base.{none, some, ltb, leb, ◌==◌, if◌then◌else◌}
use m_net.Base.Int.{ℤ, ◌+ℤ◌, ltb_ℤ, to_int32}
use m_net.Skiplist.{Ptr, null, head, Skiplist, random_level}
use m_net.Skiplist
use m_net.Net.State.{M, ChannTm, pure, ◌>>=◌, ◌>>◌, get, update, load, modify}
use m_net.Net.Env.{Env, tm_now}

module _ {W : Type 0} ⦃env : Env W⦄ where
  -- `skiplist_insert` into the clock: the level comes from `rand`, the memory from the allocator. A
  -- NULL from it is a fault, because mm_malloc clears the memory before it returns.
  unfoldable pub clock_insert : ℤ → ChannTm → M W Ptr
  clock_insert key tm s =
      let (draws, w) = env.draws s.world in
      let (node, w') = env.malloc w in
      elim (random_level draws) [
        | none ↦ none
        | some level ↦
            if node == null then none else (elim (Skiplist.insert s.tm_clock node level key tm) [
              | none ↦ none
              | some clock ↦ some (node, record s { world = w'; tm_clock = clock })
            ])
      ]

  unfoldable pub clock_remove : Ptr → M W (Unit {0})
  clock_remove node s = elim (Skiplist.remove_skipnode s.tm_clock node) [
    | none ↦ none
    | some clock ↦ some (tt, record s { tm_clock = clock })
  ]

  abbrev pub tm_of : Ptr → M W ChannTm
  tm_of node s = elim (s.tm_clock.node node) [ none ↦ none | some nd ↦ some (nd.value, s) ]

  unfoldable pub tm_active : Ptr → ℤ → M W (Unit {0})
  tm_active n interval = do
    now ← tm_now
    let time = now +ℤ interval
    node ← clock_insert time (record { interval = to_int32 interval; time = time; chann = n })
    modify n (λ c. record c { timer_node = node })

  unfoldable pub tm_update : Ptr → ℤ → M W (Unit {0})
  tm_update n interval = do
    c ← load n
    tm ← tm_of c.timer_node
    let short = to_int32 interval
    now ← tm_now
    let time = now +ℤ short
    clock_remove c.timer_node
    node ← clock_insert time (record tm { interval = short; time = time })
    modify n (λ k. record k { timer_node = node })

  unfoldable pub tm_kill : Ptr → M W (Unit {0})
  tm_kill n = do
    c ← load n
    if c.timer_node == null
        then pure tt
        else (do clock_remove c.timer_node; modify n (λ k. record k { timer_node = null }))

  unfoldable pub tm_schedule : M W (Unit {0})
  tm_schedule = do
    s ← get
    if leb s.tm_clock.count 0 then update (λ t. record t { tm_pos = null }) else (do
      current ← tm_now
      let first = s.tm_clock.next 0 head
      tm ← tm_of first
      update (λ t.
          if ltb_ℤ current tm.time
          then record t { tm_pos = null }
          else record t { tm_current = current; tm_pos = first }))
