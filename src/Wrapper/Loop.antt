-- ===== src/Wrapper/Loop.antt =====
-- ChannDispatcher of src/mnet_wrapper.h. Loops run on fuel.
use m_net.Base.{ℕ, zero, suc, Bool, true, false, none, some, if◌then◌else◌}
use m_net.Base.Int.{ℤ, pos, ltb_ℤ}
use m_net.Net.State.{M, pure, fault, ◌>>=◌, ◌>>◌, get, update}
use m_net.Net.Env.{Env}
use m_net.Net.Poll.{evt_poll, evt_result_next}
use m_net.Wrapper.World.{CppWorld, Program}
use m_net.Wrapper.Object.{chann_dispatch_event}

module _ {V : Type 0} where
  -- `isRunning() = b`.
  abbrev pub set_running : Bool → M (CppWorld V) (Unit {0})
  set_running b = update (λ s. record s { world = record s.world { running = b } })

  abbrev pub stop_event_loop : M (CppWorld V) (Unit {0})
  stop_event_loop = set_running false

module _ {V : Type 0} ⦃prog : Program V⦄ ⦃env : Env (CppWorld V)⦄ where
  -- The inner loop of `pollEvent`: every message of a poll is dispatched.
  unfoldable pub dispatch_loop : ℕ → M (CppWorld V) (Unit {0})
  dispatch_loop zero = fault
  dispatch_loop (suc fuel) = do
    told ← evt_result_next fuel
    elim told [ none ↦ pure tt | some h ↦ do chann_dispatch_event h; dispatch_loop fuel ]

  -- The time is handed to `mnet_poll`, which takes milliseconds.
  unfoldable pub poll_event : ℕ → ℕ → M (CppWorld V) ℤ
  poll_event fuel microseconds = do
    ret ← evt_poll microseconds
    if ltb_ℤ (pos 0) ret then dispatch_loop fuel else pure tt
    pure ret

  unfoldable pub running_loop : ℕ → M (CppWorld V) (Unit {0})
  running_loop zero = fault
  running_loop (suc fuel) = do
    s ← get
    if s.world.running then (do _ ← poll_event fuel 1000000; running_loop fuel) else pure tt

  unfoldable pub start_event_loop : ℕ → M (CppWorld V) (Unit {0})
  start_event_loop fuel = do
    s ← get
    if s.world.running then pure tt else (do set_running true; running_loop fuel)
