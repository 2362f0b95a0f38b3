-- ===== src/Net/Hooks.antt =====
-- The allocator and the log of src/mnet_core.c: the static variables that `mnet_allocator` and
-- `mnet_setlog` set, and `mm_malloc`, `mm_realloc`, `mm_free` and `mm_log`. The text of a message is
-- given as `vsprintf` makes it.
use m_net.Base.{
  ℕ, ◌≡◌, refl, true, Option, none, some, List, ltb, ◌==◌, if◌then◌else◌, replicate, length,
}
use m_net.Base.Int.{ℤ, pos, leb_ℤ}
use m_net.Skiplist.{Ptr, null}

-- A function of the library itself, or one of the user, by number.
pub data Hook : Type 0 where
  builtin : Hook
  external : ℕ → Hook

pub record Hooks : Type 0 where
  pub malloc : Hook
  pub realloc : Hook
  pub free : Hook
  pub log : Hook
  pub log_level : ℤ

-- The variables at the start: MNET_LOG_INFO is 2.
abbrev pub default_hooks : Hooks
default_hooks = record {
  malloc = Hook.builtin;
  realloc = Hook.builtin;
  free = Hook.builtin;
  log = Hook.builtin;
  log_level = pos 2;
}

-- A null pointer leaves the function that is set.
abbrev given : Option ℕ → Hook → Hook
given none old = old
given (some k) old = Hook.external k

abbrev pub mnet_allocator : Option ℕ → Option ℕ → Option ℕ → Hooks → Hooks
mnet_allocator new_malloc new_realloc new_free h = record h {
  malloc = given new_malloc h.malloc;
  realloc = given new_realloc h.realloc;
  free = given new_free h.free;
}

abbrev pub mnet_setlog : ℤ → Option ℕ → Hooks → Hooks
mnet_setlog level cb h = record h {
  log_level = if leb_ℤ (pos 0) level then level else h.log_level;
  log = given cb h.log;
}

-- What a message comes to: nothing, a write past the end of `buf`, or a call of the log with the
-- channel, the level and the text.
pub data Logged : Type 0 where
  silent overrun : Logged
  called : Hook → Ptr → ℤ → List ℕ → Logged

-- The size of `buf`.
abbrev pub log_size : ℕ
log_size = 192

unfoldable pub mm_log : Hooks → Ptr → ℤ → List ℕ → Logged
mm_log h n level text =
    if leb_ℤ level h.log_level
    then (if ltb (length text) log_size then Logged.called h.log n level text else Logged.overrun)
    else Logged.silent

-- The functions behind the hooks, on a world: what they return, and the bytes at an address.
pub record Memory (V : Type 0) : Type 0 where
  pub malloc : Hook → ℕ → V → Ptr × V
  pub realloc : Hook → Ptr → ℕ → V → Ptr × V
  pub free : Hook → Ptr → V → V
  pub fill : Ptr → List ℕ → V → V

module _ {V : Type 0} ⦃mem : Memory V⦄ where
  -- The memory is set to 0, also where there is none: that is undefined.
  unfoldable pub mm_malloc : Hooks → ℕ → V → Option (Ptr × V)
  mm_malloc h n v =
      let (p, w) = mem.malloc h.malloc n v in
      if p == null then none else some (p, mem.fill p (replicate n 0) w)

  abbrev pub mm_realloc : Hooks → Ptr → ℕ → V → Ptr × V
  mm_realloc h p n v = mem.realloc h.realloc p n v

  abbrev pub mm_free : Hooks → Ptr → V → V
  mm_free h p v = mem.free h.free p v

-- A message after `mnet_setlog` with a level and a function: the function gets it exactly when the
-- message's level is not above the one that was set, and a negative level leaves that of before.
-- Condition: the text has at most 191 characters.
pub log_after_setlog :
    (h : Hooks) (set level : ℤ) (cb : ℕ) (n : Ptr) (text : List ℕ)
    → ltb (length text) log_size ≡ true
    → mm_log (mnet_setlog set (some cb) h) n level text ≡ (
        if leb_ℤ level (if leb_ℤ (pos 0) set then set else h.log_level)
        then Logged.called (Hook.external cb) n level text
        else Logged.silent)
unfolding mm_log
log_after_setlog h set level cb n text short = rw short refl
