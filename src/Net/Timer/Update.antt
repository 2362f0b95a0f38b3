-- ===== src/Net/Timer/Update.antt =====
-- `_tm_update` moves the timer of a channel within the clock.
use m_net.Base.{ℕ, ◌≡◌, ◌≢◌, refl, some, List, ==_ne}
use m_net.Base.Int.{ℤ, ◌+ℤ◌, to_int32}
use m_net.Skiplist.{Ptr, null, head, Node, Skiplist, random_level}
use m_net.Skiplist.Ring.{Out}
use m_net.Skiplist.Entries.{Entry, IsSkiplist, In, addrs, place, erase}
use m_net.Skiplist.Insert.{insert-place}
use m_net.Skiplist.Remove.{remove-erase}
use m_net.Skiplist.Random.{random_level_bounds}
use m_net.Net.State.{Mnet, Chann, ChannTm, ◌>>=◌, ◌>>◌, modify, set_heap}
use m_net.Net.State.Heap.{heap-set_self}
use m_net.Net.Env.{Env}
use m_net.Net.Timer.{clock_insert, clock_remove, tm_update}

-- A timer in the clock.
abbrev pub timer : Ptr → ℕ → ℤ → ChannTm → Entry ChannTm
timer a level key tm = record { addr = a; node = record { key = key; value = tm; level = level } }

module _ {W : Type 0} ⦃env : Env W⦄ where
  -- The address of the next node, and the world then.
  abbrev pub next_node : W → Ptr
  next_node w = (env.malloc (env.draws w).1).0

  abbrev pub after_node : W → W
  after_node w = (env.malloc (env.draws w).1).1

  insert_lem :
      (s : Mnet W) (es : List (Entry ChannTm)) (level : ℕ) (key : ℤ) (tm : ChannTm)
      → IsSkiplist s.tm_clock es
      → random_level (env.draws s.world).0 ≡ some level
      → next_node s.world ≢ null
      → next_node s.world ≢ head
      → Out (next_node s.world) (addrs es)
      → (l : Skiplist ChannTm) × (clock_insert key tm s
          ≡ some (next_node s.world, record s { world = after_node s.world; tm_clock = l }))
        × IsSkiplist l (place (timer (next_node s.world) level key tm) es)
  unfolding clock_insert
  insert_lem s es level key tm h drawn some_node not_head fresh =
      let (some_level, low) = random_level_bounds (env.draws s.world).0 level drawn in
      let (l, ran, well, nodes) =
        insert-place s.tm_clock es (next_node s.world) level key tm h some_node not_head fresh
          some_level low in
      (l, rw (clock_insert, drawn, ==_ne (next_node s.world) null some_node, ran) refl, well)

  remove_lem :
      (s : Mnet W) (es : List (Entry ChannTm)) (node : Ptr)
      → IsSkiplist s.tm_clock es
      → In node (addrs es)
      → (l : Skiplist ChannTm) × (clock_remove node s ≡ some (tt, record s { tm_clock = l }))
        × IsSkiplist l (erase node es)
  unfolding clock_remove
  remove_lem s es node h m =
      let (l, ran, well, nodes) = remove-erase s.tm_clock es node h m in
      (l, rw (clock_remove, ran) refl, well)

module _ {W : Type 0} ⦃env : Env W⦄ (n : Ptr) (interval : ℤ) (s : Mnet W) (c : Chann) where
  -- The world once the time is read, and the time that the timer is set to.
  abbrev pub clocked : W
  clocked = (env.now s.world).1

  abbrev pub due : ℤ
  due = (env.now s.world).0 +ℤ to_int32 interval

  -- The timer that is set anew.
  abbrev pub renewed : ChannTm → ChannTm
  renewed tm = record tm { interval = to_int32 interval; time = due }

  update_runs :
      (nd : Node ChannTm) (s2 s3 : Mnet W) (a : Ptr)
      → s.heap n ≡ some c
      → s.tm_clock.node c.timer_node ≡ some nd
      → clock_remove c.timer_node (record s { world = clocked }) ≡ some (tt, s2)
      → clock_insert due (renewed nd.value) s2 ≡ some (a, s3)
      → s3.heap n ≡ some c
      → tm_update n interval s ≡ some (tt, set_heap s3 n (some (record c { timer_node = a })))
  unfolding tm_update
  update_runs nd s2 s3 a there known removed inserted still =
      rw (there, known, removed, inserted, modify, still, ◌>>=◌, ◌>>◌) refl

  -- The library after the call, with the clock `l`.
  abbrev pub updated : Skiplist ChannTm → Mnet W
  updated l =
      set_heap (record s { world = after_node clocked; tm_clock = l }) n
        (some (record c { timer_node = next_node clocked }))

  pub update_lem :
      (es : List (Entry ChannTm)) (nd : Node ChannTm) (level : ℕ)
      → s.heap n ≡ some c
      → IsSkiplist s.tm_clock es
      → In c.timer_node (addrs es)
      → s.tm_clock.node c.timer_node ≡ some nd
      → random_level (env.draws clocked).0 ≡ some level
      → next_node clocked ≢ null
      → next_node clocked ≢ head
      → Out (next_node clocked) (addrs (erase c.timer_node es))
      → (l : Skiplist ChannTm) × (tm_update n interval s ≡ some (tt, updated l))
        × IsSkiplist l
            (place (timer (next_node clocked) level due (renewed nd.value)) (erase c.timer_node es))
  update_lem es nd level there h m known drawn some_node not_head fresh =
      let s1 : Mnet W = record s { world = clocked } in
      let (l, removed, well) = remove_lem s1 es c.timer_node h m in
      let s2 : Mnet W = record s1 { tm_clock = l } in
      let (l', inserted, well') =
        insert_lem s2 (erase c.timer_node es) level due (renewed nd.value) well drawn some_node
          not_head fresh in
      let s3 : Mnet W = record s2 { world = after_node clocked; tm_clock = l' } in
      (l', update_runs nd s2 s3 (next_node clocked) there known removed inserted there, well')

  -- `_tm_update` on a well-formed clock that holds the timer of a channel runs without a fault: the
  -- clock is well formed then, the old timer is gone from it, the new one stands where its time puts
  -- it, with the time of the call and the interval, as an int, added up, and the channel refers to
  -- it; the other timers keep their order. Conditions: `rand` gives a level, and the allocator an
  -- address, not NULL, that no other timer has.
  pub update-place :
      (es : List (Entry ChannTm)) (nd : Node ChannTm) (level : ℕ)
      → s.heap n ≡ some c
      → IsSkiplist s.tm_clock es
      → In c.timer_node (addrs es)
      → s.tm_clock.node c.timer_node ≡ some nd
      → random_level (env.draws clocked).0 ≡ some level
      → next_node clocked ≢ null
      → next_node clocked ≢ head
      → Out (next_node clocked) (addrs (erase c.timer_node es))
      → (t : Mnet W) × (tm_update n interval s ≡ some (tt, t))
        × IsSkiplist t.tm_clock
            (place (timer (next_node clocked) level due (renewed nd.value)) (erase c.timer_node es))
        × (t.heap n ≡ some (record c { timer_node = next_node clocked }))
  update-place es nd level there h m known drawn some_node not_head fresh =
      let (l, ran, well) = update_lem es nd level there h m known drawn some_node not_head fresh in
      let s3 : Mnet W = record s { world = after_node clocked; tm_clock = l } in
      (
        updated l,
        ran,
        well,
        heap-set_self s3 n (some (record c { timer_node = next_node clocked })),
      )
