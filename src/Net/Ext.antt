-- ===== src/Net/Ext.antt =====
-- The extension table: `_ext_config`, the internal extension functions, calls through the table,
-- and `mnet_ext_register` of src/mnet_core.c.
pub mod Register
use m_net.Base.{
  ℕ, Bool, true, false, ◌&&◌, ◌||◌, not, Option, none, some, List, leb, ◌==◌, if◌then◌else◌, take,
}
use m_net.Base.Int.{ℤ, pos, ltb_ℤ}
use m_net.Skiplist.{Ptr, null}
use m_net.Net.State.{
  Mnet, M, Fn, ExtConfig, type_stream, type_broadcast, ext_max_size, pure, fault, ◌>>=◌, ◌>>◌, get,
  update, load, modify,
}
use m_net.Net.Env.{Env, SysCall, sys, errno, ewouldblock}

-- A zeroed table entry, and `_ext_internal_config`.
abbrev pub no_ext : ExtConfig
no_ext = record {
  reserved = false;
  ext_ctx = null;
  type_fn = none;
  filter_fn = none;
  open_cb = none;
  close_cb = none;
  listen_cb = none;
  accept_cb = none;
  connect_cb = none;
  disconnect_cb = none;
  state_fn = none;
  recv_fn = none;
  send_fn = none;
}

abbrev pub ext_internal_config : ExtConfig
ext_internal_config = record {
  reserved = false;
  ext_ctx = null;
  type_fn = some Fn.ext_type_fn;
  filter_fn = some Fn.ext_filter_fn;
  open_cb = some Fn.ext_op_cb;
  close_cb = some Fn.ext_op_cb;
  listen_cb = some Fn.ext_op_cb;
  accept_cb = some Fn.ext_op_cb;
  connect_cb = some Fn.ext_op_cb;
  disconnect_cb = some Fn.ext_op_cb;
  state_fn = some Fn.ext_state_fn;
  recv_fn = none;
  send_fn = none;
}

abbrev pub is_some {ℓ} : {A : Type ℓ} → Option A → Bool
is_some none = false
is_some (some _) = true

-- A negative result is 0 if the call would have blocked.
unfoldable pub blocked_as_zero : ℤ → ℕ → ℤ
blocked_as_zero ret e = if ltb_ℤ ret (pos 0) && (e == ewouldblock) then pos 0 else ret

-- A write to the table.
abbrev pub put_ext : {W : Type 0} → ℕ → ExtConfig → Mnet W → Mnet W
put_ext ctype ext s =
    let old = s.ext_config in record s { ext_config = λ t. if t == ctype then ext else old t }

module _ {W : Type 0} ⦃env : Env W⦄ where
  -- A call through a function pointer; of a null one, or of a function of another type, undefined.
  unfoldable pub call_type : Option Fn → Ptr → ℕ → M W ℕ
  call_type (some Fn.ext_type_fn) ctx ctype = pure ctype
  call_type (some (Fn.user k)) ctx ctype = pure (env.user_type k ctx ctype)
  call_type _ ctx ctype = fault

  unfoldable pub call_filter : Option Fn → Ptr → Ptr → M W Bool
  call_filter (some Fn.ext_filter_fn) ctx n = pure true
  call_filter (some (Fn.user k)) ctx n = env.user_filter k ctx n
  call_filter _ ctx n = fault

  unfoldable pub call_op : Option Fn → Ptr → Ptr → M W (Unit {0})
  call_op (some Fn.ext_op_cb) ctx n = pure tt
  call_op (some (Fn.user k)) ctx n = env.user_op k ctx n
  call_op _ ctx n = fault

  unfoldable pub call_state : Option Fn → Ptr → Ptr → ℤ → M W ℤ
  call_state (some Fn.ext_state_fn) ctx n state = pure state
  call_state (some (Fn.user k)) ctx n state = env.user_state k ctx n state
  call_state _ ctx n state = fault

  unfoldable pub ext_stream_recv : Ptr → ℕ → M W (ℤ × List ℕ)
  ext_stream_recv n len = do
    c ← load n
    s ← get
    let (ret, bytes, w) = env.recv c.fd len s.world
    update (λ s'. record s' { world = w })
    e ← errno
    pure (blocked_as_zero ret e, bytes)

  unfoldable pub ext_dgram_recv : Ptr → ℕ → M W (ℤ × List ℕ)
  ext_dgram_recv n len = do
    c ← load n
    s ← get
    let (ret, bytes, from, size, w) = env.recv_from c.fd len c.addr_len s.world
    update (λ s'. record s' { world = w })
    modify n (λ k. record k { addr = from; addr_len = size })
    e ← errno
    pure (blocked_as_zero ret e, bytes)

  unfoldable pub ext_stream_send : Ptr → List ℕ → ℕ → M W ℤ
  ext_stream_send n buf len = do
    c ← load n
    ret ← sys (SysCall.send c.fd (take len buf))
    e ← errno
    pure (blocked_as_zero ret e)

  unfoldable pub ext_dgram_send : Ptr → List ℕ → ℕ → M W ℤ
  ext_dgram_send n buf len = do
    c ← load n
    ret ← sys (SysCall.send_to c.fd (take len buf) c.addr c.addr_len)
    e ← errno
    pure (blocked_as_zero ret e)

  unfoldable pub call_recv : Option Fn → Ptr → Ptr → ℕ → M W (ℤ × List ℕ)
  call_recv (some Fn.ext_stream_recv) ctx n len = ext_stream_recv n len
  call_recv (some Fn.ext_dgram_recv) ctx n len = ext_dgram_recv n len
  call_recv (some (Fn.user k)) ctx n len = env.user_recv k ctx n len
  call_recv _ ctx n len = fault

  unfoldable pub call_send : Option Fn → Ptr → Ptr → List ℕ → ℕ → M W ℤ
  call_send (some Fn.ext_stream_send) ctx n buf len = ext_stream_send n buf len
  call_send (some Fn.ext_dgram_send) ctx n buf len = ext_dgram_send n buf len
  call_send (some (Fn.user k)) ctx n buf len = env.user_send k ctx n (take len buf)
  call_send _ ctx n buf len = fault

  -- `_ext_config`.
  abbrev pub ext_config : ℕ → M W ExtConfig
  ext_config ctype s = some (s.ext_config ctype, s)

  -- `mnet_ext_register`; the argument is none for NULL.
  unfoldable pub ext_register : ℕ → Option ExtConfig → M W Bool
  ext_register ctype none = pure false
  ext_register ctype (some ext) =
      if leb ctype type_broadcast || leb ext_max_size ctype then pure false else (do
        slot ← ext_config ctype
        if not slot.reserved
              && is_some ext.type_fn
              && is_some ext.filter_fn
              && is_some ext.open_cb
              && is_some ext.close_cb
              && is_some ext.listen_cb
              && is_some ext.accept_cb
              && is_some ext.connect_cb
              && is_some ext.disconnect_cb
              && is_some ext.state_fn
              && is_some ext.recv_fn
              && is_some ext.send_fn
            then (do
              raw_type ← call_type ext.type_fn ext.ext_ctx ctype
              if leb type_stream raw_type && leb raw_type type_broadcast
                  then (do update (put_ext ctype (record ext { reserved = true })); pure true)
                  else pure false)
            else pure false)
