-- ===== src/Net/State/Heap.antt =====
-- Writes to the memory of the channels.
use mathlib.Core.Path.{fun_ext}
use m_net.Base.{◌≡◌, ◌≢◌, ap, Option, some, arith}
use m_net.Skiplist.{Ptr}
use m_net.Net.State.{Mnet, Chann, set_heap, modify}

module _ {W : Type 0} (s : Mnet W) (p : Ptr) where
  pub heap-set_self : (c : Option Chann) → (set_heap s p c).heap p ≡ c
  heap-set_self c = ground arith

  pub heap-set_ne : (q : Ptr) (c : Option Chann) → q ≢ p → (set_heap s p c).heap q ≡ s.heap q
  heap-set_ne q c ne = ground arith

  pub set_heap_twice : (c d : Option Chann) → set_heap (set_heap s p c) p d ≡ set_heap s p d
  set_heap_twice c d = ap (λ f. record s { heap = f }) (fun_ext λ q. ground arith)

  -- A write to the channel that was just written.
  pub modify-set :
      (c : Chann) (f : Chann → Chann)
      → modify p f (set_heap s p (some c)) ≡ some (tt, set_heap s p (some (f c)))
  modify-set c f = modify_at (set_heap_twice (some c) (some (f c)))
    where
      modify_at :
          set_heap (set_heap s p (some c)) p (some (f c)) ≡ set_heap s p (some (f c))
          → modify p f (set_heap s p (some c)) ≡ some (tt, set_heap s p (some (f c)))
      modify_at e = rw (heap-set_self (some c), modify) (ap (λ (t : Mnet W). some (tt, t)) e)
