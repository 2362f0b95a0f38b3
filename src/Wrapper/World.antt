-- ===== src/Wrapper/World.antt =====
-- The objects of the class Chann of src/mnet_wrapper.h, in a store of their own, and what the classes
-- need of the program around them.
use m_net.Base.{ℕ, Bool, Option, none, some, List, ◌==◌, if◌then◌else◌}
use m_net.Base.Int.{ℤ}
use m_net.Skiplist.{Ptr}
use m_net.Net.State.{Mnet, M, ChannEvent, ◌>>=◌, update}

-- m_handler: not set by the constructor, null, or a handler of the program, by number.
pub data Handler : Type 0 where
  indeterminate no_handler : Handler
  external : ℕ → Handler

-- A ChannAddr: the fields of its chann_addr_t, and its text.
pub record ChannAddr : Type 0 where
  pub ip : List ℕ
  pub port : ℤ
  pub addr_string : List ℕ

-- An object of the class Chann. `m_addr` has port 0 until it is asked for.
pub record CppChann : Type 0 where
  pub m_chann : Ptr
  pub m_peer : ChannAddr
  pub m_addr : ChannAddr
  pub m_handler : Handler

-- The rest of the world, the objects that exist, and the flag of ChannDispatcher.
pub record CppWorld (V : Type 0) : Type 0 where
  pub rest : V
  pub objs : Ptr → Option CppChann
  pub running : Bool

-- Operator new, atoi, the text of a number, inet_ntoa, the byte that stands behind the 16 of an
-- address on the stack, and the event handlers of the program: `self`, the accepted object or null,
-- the event, the error.
pub record Program (V : Type 0) : Type 0 where
  pub new : V → Ptr × V
  pub atoi : List ℕ → ℤ
  pub decimal : ℤ → List ℕ
  pub inet_ntoa : ℕ → List ℕ
  pub stack_byte : ℕ
  pub handler : ℕ → Ptr → Ptr → ChannEvent → ℤ → M (CppWorld V) (Unit {0})

module _ {V : Type 0} where
  abbrev pub put_obj : Ptr → Option CppChann → Mnet (CppWorld V) → Mnet (CppWorld V)
  put_obj p o s =
      let old = s.world.objs in
      record s { world = record s.world { objs = λ q. if q == p then o else old q } }

  -- A read and a write of an object; through a null or dangling pointer they are undefined.
  unfoldable pub load_obj : Ptr → M (CppWorld V) CppChann
  load_obj p s = elim (s.world.objs p) [ none ↦ none | some o ↦ some (o, s) ]

  unfoldable pub modify_obj : Ptr → (CppChann → CppChann) → M (CppWorld V) (Unit {0})
  modify_obj p f = do o ← load_obj p; update (put_obj p (some (f o)))
