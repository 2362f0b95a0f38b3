-- ===== src/Tls/World.antt =====
-- The data of extension/openssl/mnet_tls.c, what it calls of OpenSSL and of the C library, and
-- `_ssl_is_rw` and `_ssl_set_fd`. The records that `calloc` returns are in a store of their own.
use m_net.Base.{ℕ, Bool, true, false, Option, none, some, List, ◌==◌, ◌≡◌, arith, if◌then◌else◌}
use m_net.Base.Int.{ℤ}
use m_net.Skiplist.{Ptr, null}
use m_net.Net.State.{Mnet, M, ChannState, pure, ◌>>=◌, ◌>>◌, update}

-- mnet_tls_ud_t; its state is a number of chann_state_t.
pub record TlsUd : Type 0 where
  pub ln : Ptr
  pub state : ChannState
  pub ssl : Ptr

abbrev pub zero_ud : TlsUd
zero_ud = record { ln = null; state = ChannState.closed; ssl = null }

-- The world of OpenSSL and of the system, and the records in use.
pub record TlsWorld (V : Type 0) : Type 0 where
  pub os : V
  pub uds : Ptr → Option TlsUd

pub data SslMode : Type 0 where
  enable_partial_write accept_moving_write_buffer : SslMode

-- The results of SSL_get_error; `other` is any that is not SSL_ERROR_WANT_READ or _WRITE.
pub data SslError : Type 0 where
  want_read want_write other : SslError

abbrev pub is_want : SslError → Bool
is_want SslError.want_read = true
is_want SslError.want_write = true
is_want SslError.other = false

-- What mnet_tls.c calls and does not implement. SSL_get_error only looks at the state.
pub record Openssl (V : Type 0) : Type 0 where
  pub calloc : V → Ptr × V
  pub ssl_new : Ptr → V → Ptr × V
  pub set_mode : Ptr → SslMode → V → V
  pub set_fd : Ptr → ℤ → V → V
  pub accept : Ptr → V → ℤ × V
  pub connect : Ptr → V → ℤ × V
  pub read : Ptr → ℕ → V → ℤ × List ℕ × V
  pub write : Ptr → List ℕ → V → ℤ × V
  pub get_error : Ptr → ℤ → V → SslError
  pub shutdown : Ptr → V → V
  pub clear : Ptr → V → V
  pub free : Ptr → V → V

module _ {V : Type 0} where
  -- A step of the world outside.
  abbrev pub outside : {A : Type 0} → (V → A × V) → M (TlsWorld V) A
  outside f s =
      let (a, v) = f s.world.os in some (a, record s { world = record s.world { os = v } })

  abbrev pub outside_only : (V → V) → M (TlsWorld V) (Unit {0})
  outside_only f s = some (tt, record s { world = record s.world { os = f s.world.os } })

  abbrev pub put_ud : Ptr → Option TlsUd → Mnet (TlsWorld V) → Mnet (TlsWorld V)
  put_ud p u s =
      let old = s.world.uds in
      record s { world = record s.world { uds = λ q. if q == p then u else old q } }

  -- A read and a write of a record's fields; through a null or dangling pointer they are undefined.
  unfoldable pub load_ud : Ptr → M (TlsWorld V) TlsUd
  load_ud p s =
      if p == null then none else elim (s.world.uds p) [ none ↦ none | some u ↦ some (u, s) ]

  unfoldable pub modify_ud : Ptr → (TlsUd → TlsUd) → M (TlsWorld V) (Unit {0})
  modify_ud p f = do u ← load_ud p; update (put_ud p (some (f u)))

module _ {V : Type 0} (s : Mnet (TlsWorld V)) (p : Ptr) where
  pub put_ud_self : (u : Option TlsUd) → (put_ud p u s).world.uds p ≡ u
  put_ud_self u = ground arith

  pub load_ud_lem :
      (u : TlsUd) → (p == null) ≡ false → s.world.uds p ≡ some u → load_ud p s ≡ some (u, s)
  unfolding load_ud
  load_ud_lem u some_ud known = rw (some_ud, known)

  pub modify_ud_lem :
      (u : TlsUd) (f : TlsUd → TlsUd)
      → (p == null) ≡ false
      → s.world.uds p ≡ some u
      → modify_ud p f s ≡ some (tt, put_ud p (some (f u)) s)
  unfolding modify_ud
  modify_ud_lem u f some_ud known = rw (load_ud_lem u some_ud known, ◌>>=◌)

module _ {V : Type 0} ⦃lib : Openssl V⦄ where
  -- `calloc` of a record, which is null when there is no memory.
  unfoldable pub calloc_ud : M (TlsWorld V) Ptr
  calloc_ud = do
    p ← outside lib.calloc
    if p == null then pure p else (do update (put_ud p (some zero_ud)); pure p)

  abbrev pub ssl_is_rw : Ptr → ℤ → M (TlsWorld V) Bool
  ssl_is_rw ssl ret s = some (is_want (lib.get_error ssl ret s.world.os), s)

  unfoldable pub ssl_set_fd : Ptr → ℤ → M (TlsWorld V) (Unit {0})
  ssl_set_fd ssl fd = do
    outside_only (lib.set_mode ssl SslMode.enable_partial_write)
    outside_only (lib.set_mode ssl SslMode.accept_moving_write_buffer)
    outside_only (lib.set_fd ssl fd)
