-- ===== src/Lua/Arguments.antt =====
-- What the functions of the Lua module on one channel do with arguments of other types than they
-- expect, and with a pointer to a lua_chann_t that is freed.
use m_net.Base.{
  ℕ, ◌≡◌, ◌≢◌, ◌⊎◌, inl, inr, ==_ne, refl, sym, subst, ◌∙◌, true, false, Option, none, some, List,
  [], ◌∷◌, arith, ltb, ◌==◌, if◌then◌else◌, length,
}
use m_net.Base.Int.{pos}
use m_net.Skiplist.{Ptr, null}
use m_net.Net.State.{Mnet, M, ◌>>=◌}
use m_net.Net.Env.{Env}
use m_net.Net.Address.Resolve.{Resolver}
use m_net.Lua.World.{
  LuaValue, LuaResult, LuaWorld, Texts, Alloc, t_light, t_number, t_string, arg, is_light,
  to_userdata, lua_type, check_type, checked, load_lc,
}
use m_net.Lua.Library.{nothing, one}
use m_net.Lua.Chann
use m_net.Lua.Chann.{on_light}
use m_net.Lua.Module.{LuaFunction, mnet_lib, call}

-- The types that a function on a channel expects, the channel first.
abbrev pub chann_types : LuaFunction → Option (List ℕ)
chann_types LuaFunction.chann_close = some (t_light ∷ [])
chann_types LuaFunction.chann_fd = some (t_light ∷ [])
chann_types LuaFunction.chann_type = some (t_light ∷ [])
chann_types LuaFunction.chann_listen = some (t_light ∷ t_string ∷ t_number ∷ t_number ∷ [])
chann_types LuaFunction.chann_connect = some (t_light ∷ t_string ∷ t_number ∷ [])
chann_types LuaFunction.chann_disconnect = some (t_light ∷ [])
chann_types LuaFunction.chann_set_index = some (t_light ∷ t_number ∷ [])
chann_types LuaFunction.chann_get_index = some (t_light ∷ [])
chann_types LuaFunction.chann_active_event = some (t_light ∷ t_number ∷ t_number ∷ [])
chann_types LuaFunction.chann_recv = some (t_light ∷ [])
chann_types LuaFunction.chann_send = some (t_light ∷ t_string ∷ [])
chann_types LuaFunction.chann_cached = some (t_light ∷ [])
chann_types LuaFunction.chann_state = some (t_light ∷ [])
chann_types LuaFunction.chann_bytes = some (t_light ∷ t_number ∷ [])
chann_types LuaFunction.chann_set_bufsize = some (t_light ∷ t_number ∷ [])
chann_types LuaFunction.chann_addr = some (t_light ∷ [])
chann_types _ = none

-- An error where there is more than the channel to check, otherwise no result, or the index 0.
abbrev pub refusal : LuaFunction → List ℕ → LuaResult
refusal LuaFunction.chann_get_index types = one (LuaValue.number (pos 0))
refusal f types = if length types == 1 then nothing else LuaResult.error

-- `P` of the types that are expected, for a function on a channel.
abbrev When : (List ℕ → Type 0) → Option (List ℕ) → Type 0
When P none = Unit
When P (some types) = P types

-- What makes a function read the record of its channel: `chann_send` needs some text.
abbrev pub Reads : LuaFunction → List LuaValue → Type 0
Reads LuaFunction.chann_send args =
    (buf : List ℕ) × (arg 2 args ≡ LuaValue.text buf) × (ltb 0 (length buf) ≡ true)
Reads _ args = Unit

-- An argument that is expected is missing, or it has another type.
abbrev pub Mismatch : List ℕ → List LuaValue → Type 0
Mismatch [] args = ⊥
Mismatch (t ∷ types) [] = Unit
Mismatch (t ∷ types) (v ∷ args) = (lua_type v ≢ t) ⊎ Mismatch types args

check_type-Mismatch :
    (types : List ℕ) (args : List LuaValue)
    → Mismatch types args
    → check_type types (length types) args ≡ false
unfolding check_type
check_type-Mismatch [] args m = absurd m
check_type-Mismatch (t ∷ types) [] m = refl
check_type-Mismatch (t ∷ types) (v ∷ args) (inl other) = rw (==_ne (lua_type v) t other) refl
check_type-Mismatch (t ∷ types) (v ∷ args) (inr m) =
    ground (arith, check_type-Mismatch types args m)

-- There is no record at the pointer, which is not NULL.
pub record IsFreed {V : Type 0} (s : Mnet (LuaWorld V)) (p : Ptr) : Type 0 where
  pub some_at : (p == null) ≡ false
  pub gone : s.world.channs p ≡ none

is_light_iff : (args : List LuaValue) → check_type (t_light ∷ []) 1 args ≡ is_light (arg 1 args)
unfolding check_type
is_light_iff [] = refl
is_light_iff (LuaValue.nil ∷ args) = refl
is_light_iff (LuaValue.boolean b ∷ args) = refl
is_light_iff (LuaValue.light p ∷ args) = refl
is_light_iff (LuaValue.number k ∷ args) = refl
is_light_iff (LuaValue.real k ∷ args) = refl
is_light_iff (LuaValue.text t ∷ args) = refl
is_light_iff (LuaValue.other k ∷ args) = ground arith

module _ {V : Type 0} (args : List LuaValue) (s : Mnet (LuaWorld V)) where
  on_light-refused :
      (body : Ptr → M (LuaWorld V) LuaResult)
      → check_type (t_light ∷ []) 1 args ≡ false
      → on_light args body s ≡ some (nothing, s)
  unfolding on_light
  on_light-refused body bad = rw (sym (is_light_iff args) ∙ bad) refl

  checked-refused :
      (types : List ℕ) (count : ℕ) (body : M (LuaWorld V) LuaResult)
      → check_type types count args ≡ false
      → checked types count args body s ≡ some (LuaResult.error, s)
  unfolding checked
  checked-refused types count body bad = rw bad refl

module _ {V : Type 0} ⦃lua : Texts⦄ ⦃mem : Alloc V⦄ ⦃sys : Resolver (LuaWorld V)⦄
    ⦃env : Env (LuaWorld V)⦄ where
  abbrev Refuses : ℕ → LuaFunction → List LuaValue → Mnet (LuaWorld V) → List ℕ → Type 0
  Refuses fuel f args s types =
      check_type types (length types) args ≡ false → call fuel f args s ≡ some (refusal f types, s)

  refuses :
      (fuel : ℕ) (f : LuaFunction) (args : List LuaValue) (s : Mnet (LuaWorld V))
      → When (Refuses fuel f args s) (chann_types f)
  unfolding call mnet_lib Chann.chann_close Chann.chann_fd Chann.chann_type Chann.chann_listen
      Chann.chann_connect Chann.chann_disconnect Chann.chann_set_index Chann.chann_get_index
      Chann.chann_active_event Chann.chann_recv Chann.chann_send Chann.chann_cached
      Chann.chann_state Chann.chann_bytes Chann.chann_set_bufsize Chann.chann_addr
  refuses fuel LuaFunction.chann_close args s = λ bad. on_light-refused args s _ bad
  refuses fuel LuaFunction.chann_fd args s = λ bad. on_light-refused args s _ bad
  refuses fuel LuaFunction.chann_type args s = λ bad. on_light-refused args s _ bad
  refuses fuel LuaFunction.chann_listen args s = λ bad. checked-refused args s _ _ _ bad
  refuses fuel LuaFunction.chann_connect args s = λ bad. checked-refused args s _ _ _ bad
  refuses fuel LuaFunction.chann_disconnect args s = λ bad. on_light-refused args s _ bad
  refuses fuel LuaFunction.chann_set_index args s = λ bad. checked-refused args s _ _ _ bad
  refuses fuel LuaFunction.chann_get_index args s = λ bad. rw (sym (is_light_iff args) ∙ bad) refl
  refuses fuel LuaFunction.chann_active_event args s = λ bad. checked-refused args s _ _ _ bad
  refuses fuel LuaFunction.chann_recv args s = λ bad. on_light-refused args s _ bad
  refuses fuel LuaFunction.chann_send args s = λ bad. checked-refused args s _ _ _ bad
  refuses fuel LuaFunction.chann_cached args s = λ bad. on_light-refused args s _ bad
  refuses fuel LuaFunction.chann_state args s = λ bad. on_light-refused args s _ bad
  refuses fuel LuaFunction.chann_bytes args s = λ bad. checked-refused args s _ _ _ bad
  refuses fuel LuaFunction.chann_set_bufsize args s = λ bad. checked-refused args s _ _ _ bad
  refuses fuel LuaFunction.chann_addr args s = λ bad. on_light-refused args s _ bad
  refuses fuel _ args s = tt

  -- A call of a function on a channel where an argument that it expects, whichever it is, is missing
  -- or has another type changes nothing: it raises an error where more than the channel is checked,
  -- and otherwise it returns nothing, or the index 0.
  pub ill_typed_refused :
      (fuel : ℕ) (f : LuaFunction) (types : List ℕ) (args : List LuaValue) (s : Mnet (LuaWorld V))
      → chann_types f ≡ some types
      → Mismatch types args
      → call fuel f args s ≡ some (refusal f types, s)
  ill_typed_refused fuel f types args s known m =
      subst (When (Refuses fuel f args s)) known (refuses fuel f args s)
        (check_type-Mismatch types args m)

  abbrev Faults : ℕ → LuaFunction → List LuaValue → Mnet (LuaWorld V) → List ℕ → Type 0
  Faults fuel f args s types =
      check_type types (length types) args ≡ true
      → Reads f args
      → IsFreed s (to_userdata (arg 1 args))
      → call fuel f args s ≡ none

  faults :
      (fuel : ℕ) (f : LuaFunction) (args : List LuaValue) (s : Mnet (LuaWorld V))
      → When (Faults fuel f args s) (chann_types f)
  unfolding call mnet_lib on_light checked load_lc Chann.chann_close Chann.chann_fd Chann.chann_type
      Chann.chann_listen Chann.chann_connect Chann.chann_disconnect Chann.chann_set_index
      Chann.chann_get_index Chann.chann_active_event Chann.chann_recv Chann.chann_send
      Chann.chann_cached Chann.chann_state Chann.chann_bytes Chann.chann_set_bufsize
      Chann.chann_addr
  faults fuel LuaFunction.chann_close args s =
      λ good reads freed. rw (sym (is_light_iff args) ∙ good, freed.some_at, freed.gone, ◌>>=◌) refl
  faults fuel LuaFunction.chann_fd args s =
      λ good reads freed. rw (sym (is_light_iff args) ∙ good, freed.some_at, freed.gone, ◌>>=◌) refl
  faults fuel LuaFunction.chann_type args s =
      λ good reads freed. rw (sym (is_light_iff args) ∙ good, freed.some_at, freed.gone, ◌>>=◌) refl
  faults fuel LuaFunction.chann_listen args s =
      λ good reads freed. rw (good, freed.gone, ◌>>=◌) refl
  faults fuel LuaFunction.chann_connect args s =
      λ good reads freed. rw (good, freed.gone, ◌>>=◌) refl
  faults fuel LuaFunction.chann_disconnect args s =
      λ good reads freed. rw (sym (is_light_iff args) ∙ good, freed.gone, ◌>>=◌) refl
  faults fuel LuaFunction.chann_set_index args s =
      λ good reads freed. rw (good, freed.gone, ◌>>=◌) refl
  faults fuel LuaFunction.chann_get_index args s =
      λ good reads freed. rw (sym (is_light_iff args) ∙ good, freed.gone, ◌>>=◌) refl
  faults fuel LuaFunction.chann_active_event args s =
      λ good reads freed. rw (good, freed.gone, ◌>>=◌) refl
  faults fuel LuaFunction.chann_recv args s =
      λ good reads freed. rw (sym (is_light_iff args) ∙ good, freed.some_at, freed.gone, ◌>>=◌) refl
  faults fuel LuaFunction.chann_send args s =
      λ good reads freed. rw (good, reads.1, freed.some_at, reads.2, freed.gone, ◌>>=◌) refl
  faults fuel LuaFunction.chann_cached args s =
      λ good reads freed. rw (sym (is_light_iff args) ∙ good, freed.gone, ◌>>=◌) refl
  faults fuel LuaFunction.chann_state args s =
      λ good reads freed. rw (sym (is_light_iff args) ∙ good, freed.gone, ◌>>=◌) refl
  faults fuel LuaFunction.chann_bytes args s = λ good reads freed. rw (good, freed.gone, ◌>>=◌) refl
  faults fuel LuaFunction.chann_set_bufsize args s =
      λ good reads freed. rw (good, freed.gone, ◌>>=◌) refl
  faults fuel LuaFunction.chann_addr args s =
      λ good reads freed. rw (sym (is_light_iff args) ∙ good, freed.gone, ◌>>=◌) refl
  faults fuel _ args s = tt

  -- A function on a channel that is called with arguments of the right types, but with a pointer to a
  -- record that is freed, is undefined: it reads that record. `chann_send` of an empty text does not.
  pub dangling_undefined :
      (fuel : ℕ) (f : LuaFunction) (types : List ℕ) (args : List LuaValue) (s : Mnet (LuaWorld V))
      → chann_types f ≡ some types
      → check_type types (length types) args ≡ true
      → Reads f args
      → IsFreed s (to_userdata (arg 1 args))
      → call fuel f args s ≡ none
  dangling_undefined fuel f types args s known =
      subst (When (Faults fuel f args s)) known (faults fuel f args s)
