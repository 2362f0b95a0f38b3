-- ===== src/Lua/World.antt =====
-- The values of Lua that extension/lua/mnet_lua.c reads and pushes, `_check_type`, and the records
-- lua_chann_t in a store of their own. The text that Lua makes of a number, and the number it reads
-- out of a text, are parameters.
use m_net.Base.{
  ℕ, zero, suc, ◌+◌, ◌%◌, ◌-◌, ◌^◌, Bool, true, false, ◌&&◌, not, Option, none, some, List, [], ◌∷◌,
  ◌==◌, if◌then◌else◌,
}
use m_net.Base.Int.{ℤ, pos, negsuc}
use m_net.Skiplist.{Ptr, null}
use m_net.Net.State.{Mnet, M, ChannEvent, pure, fault, ◌>>=◌, ◌>>◌, get, update}

-- A number of Lua is an integer or, by number, another one; `other` are the values of the types
-- behind LUA_TSTRING.
pub data LuaValue : Type 0 where
  nil : LuaValue
  boolean : Bool → LuaValue
  light : Ptr → LuaValue
  number : ℤ → LuaValue
  real : ℕ → LuaValue
  text : List ℕ → LuaValue
  other : ℕ → LuaValue

-- What a function of the module ends in: the values it leaves, or an error, by which Lua goes back to
-- the last protected call.
pub data LuaResult : Type 0 where
  returns : List LuaValue → LuaResult
  error : LuaResult

-- LUA_TLIGHTUSERDATA, LUA_TNUMBER and LUA_TSTRING.
abbrev pub t_light : ℕ
t_light = 2

abbrev pub t_number : ℕ
t_number = 3

abbrev pub t_string : ℕ
t_string = 4

abbrev pub lua_type : LuaValue → ℕ
lua_type LuaValue.nil = 0
lua_type (LuaValue.boolean _) = 1
lua_type (LuaValue.light _) = t_light
lua_type (LuaValue.number _) = t_number
lua_type (LuaValue.real _) = t_number
lua_type (LuaValue.text _) = t_string
lua_type (LuaValue.other k) = 5 + k

-- lua_chann_t, without the lua_State, which nothing reads.
pub record LuaChann : Type 0 where
  pub n : Ptr
  pub index : ℤ

-- The rest of the world, the records that are allocated, and whether `g_buf` is.
pub record LuaWorld (V : Type 0) : Type 0 where
  pub rest : V
  pub channs : Ptr → Option LuaChann
  pub g_buf : Bool

-- What Lua reads out of a text or a number that is no integer, the texts of numbers, atoi, and
-- inet_ntoa.
pub record Texts : Type 0 where
  pub text_integer : List ℕ → Option ℤ
  pub real_integer : ℕ → Option ℤ
  pub number_text : ℤ → List ℕ
  pub real_text : ℕ → List ℕ
  pub atoi : List ℕ → ℤ
  pub inet_ntoa : ℕ → List ℕ

-- malloc, and whether calloc succeeds.
pub record Alloc (V : Type 0) : Type 0 where
  pub malloc : V → Ptr × V
  pub calloc : V → Bool × V

abbrev pub nonzero : ℤ → Bool
nonzero (pos n) = not (n == 0)
nonzero (negsuc _) = true

-- The conversion of an integer to an unsigned int.
abbrev pub to_uint32 : ℤ → ℕ
to_uint32 (pos n) = n % 2 ^ 32
to_uint32 (negsuc n) = 2 ^ 32 - 1 - n % 2 ^ 32

-- A text as the functions of C read it, up to the first 0.
abbrev pub c_text : List ℕ → List ℕ
c_text [] = []
c_text (x ∷ xs) = let rest = c_text xs in if x == 0 then [] else x ∷ rest

-- The argument at an index from 1; one that is not given is read as nil, and only `lua_type`
-- tells the two apart.
abbrev pub arg : ℕ → List LuaValue → LuaValue
arg i [] = LuaValue.nil
arg zero (v ∷ vs) = LuaValue.nil
arg (suc zero) (v ∷ vs) = v
arg (suc (suc i)) (v ∷ vs) = arg (suc i) vs

-- lua_touserdata; of a value that is no pointer it is NULL.
abbrev pub to_userdata : LuaValue → Ptr
to_userdata (LuaValue.light p) = p
to_userdata _ = null

abbrev pub is_light : LuaValue → Bool
is_light (LuaValue.light _) = true
is_light _ = false

abbrev pub is_nil : LuaValue → Bool
is_nil LuaValue.nil = true
is_nil _ = false

-- Whether the arguments have the first `count` of the types, of which there are that many.
unfoldable pub check_type : List ℕ → ℕ → List LuaValue → Bool
check_type types zero args = true
check_type [] (suc count) args = false
check_type (t ∷ types) (suc count) [] = false
check_type (t ∷ types) (suc count) (v ∷ args) = (lua_type v == t) && check_type types count args

abbrev pub event_number : ChannEvent → ℕ
event_number ChannEvent.unset = 0
event_number ChannEvent.recv = 1
event_number ChannEvent.send = 2
event_number ChannEvent.accept = 3
event_number ChannEvent.connected = 4
event_number ChannEvent.disconnect = 5
event_number ChannEvent.timer = 6

-- The event of a number; what is none of them has no effect, as `unset`.
abbrev pub event_of : ℕ → ChannEvent
event_of k =
    if k == 1
    then ChannEvent.recv
    else (if k == 2
        then ChannEvent.send
        else (if k == 3
            then ChannEvent.accept
            else (if k == 4
                then ChannEvent.connected
                else (if k == 5
                    then ChannEvent.disconnect
                    else (if k == 6 then ChannEvent.timer else ChannEvent.unset)))))

module _ {V : Type 0} where
  abbrev pub put_lc : Ptr → Option LuaChann → Mnet (LuaWorld V) → Mnet (LuaWorld V)
  put_lc p o s =
      let old = s.world.channs in
      record s { world = record s.world { channs = λ q. if q == p then o else old q } }

  -- A read of a record; through a null or dangling pointer it is undefined.
  unfoldable pub load_lc : Ptr → M (LuaWorld V) LuaChann
  load_lc p s = elim (s.world.channs p) [ none ↦ none | some lc ↦ some (lc, s) ]

  -- A function that raises an error when its arguments do not have the types.
  unfoldable pub checked :
      List ℕ → ℕ → List LuaValue → M (LuaWorld V) LuaResult → M (LuaWorld V) LuaResult
  checked types count args body = if check_type types count args then body else pure LuaResult.error

  -- `free` of a record, which must be there.
  unfoldable pub destroy_lua_chann : Ptr → M (LuaWorld V) (Unit {0})
  destroy_lua_chann p = do _ ← load_lc p; update (put_lc p none)

module _ ⦃lua : Texts⦄ where
  -- luaL_checkinteger, which is none where it raises an error, and lua_tointeger, which is 0 there.
  abbrev pub check_integer : LuaValue → Option ℤ
  check_integer (LuaValue.number k) = some k
  check_integer (LuaValue.real k) = lua.real_integer k
  check_integer (LuaValue.text t) = lua.text_integer t
  check_integer _ = none

  abbrev pub to_integer : LuaValue → ℤ
  to_integer v = elim (check_integer v) [ none ↦ pos 0 | some k ↦ k ]

  -- lua_tolstring; none is NULL.
  abbrev pub to_text : LuaValue → Option (List ℕ)
  to_text (LuaValue.text t) = some t
  to_text (LuaValue.number k) = some (lua.number_text k)
  to_text (LuaValue.real k) = some (lua.real_text k)
  to_text _ = none

  -- The text of a value as the functions of C read it.
  abbrev pub c_string : LuaValue → Option (List ℕ)
  c_string v = elim (to_text v) [ none ↦ none | some t ↦ some (c_text t) ]

module _ {V : Type 0} ⦃mem : Alloc V⦄ where
  -- The memory of `malloc` is written to without a test for NULL.
  unfoldable pub create_lua_chann : Ptr → M (LuaWorld V) Ptr
  create_lua_chann n = do
    s ← get
    let (p, v) = mem.malloc s.world.rest
    if p == null then fault else (do
      update (λ t.
          put_lc p (some (record { n = n; index = pos 0 }))
            (record t { world = record t.world { rest = v } }))
      pure p)
