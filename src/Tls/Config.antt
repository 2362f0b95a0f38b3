-- ===== src/Tls/Config.antt =====
-- `mnet_tls_config` of extension/openssl/mnet_tls.c, and the library with the TLS callbacks in place.
use m_net.Base.{ℕ, Bool, false, some, ◌==◌, if◌then◌else◌}
use m_net.Skiplist.{Ptr, null}
use m_net.Net.State.{M, Fn, ExtConfig, pure}
use m_net.Net.Env.{Env}
use m_net.Net.Ext.{ext_register}
use m_net.Tls.World.{TlsWorld, Openssl}
use m_net.Tls.Callbacks.{
  tls_type_fn, tls_filter_fn, tls_open_cb, tls_close_cb, tls_listen_cb, tls_accept_cb,
  tls_connect_cb, tls_disconnect_cb, tls_state_fn, tls_recv_fn, tls_send_fn,
}

abbrev pub chann_type_tls : ℕ
chann_type_tls = 4

-- The numbers by which the table refers to the functions of the extension.
abbrev pub fn_data : ℕ
fn_data = 0

abbrev pub fn_open : ℕ
fn_open = 1

abbrev pub fn_close : ℕ
fn_close = 2

abbrev pub fn_listen : ℕ
fn_listen = 3

abbrev pub fn_accept : ℕ
fn_accept = 4

abbrev pub fn_connect : ℕ
fn_connect = 5

abbrev pub fn_disconnect : ℕ
fn_disconnect = 6

-- The entry that `mnet_tls_config` registers.
abbrev pub tls_ext : Ptr → ExtConfig
tls_ext ctx = record {
  reserved = false;
  ext_ctx = ctx;
  type_fn = some (Fn.user fn_data);
  filter_fn = some (Fn.user fn_data);
  open_cb = some (Fn.user fn_open);
  close_cb = some (Fn.user fn_close);
  listen_cb = some (Fn.user fn_listen);
  accept_cb = some (Fn.user fn_accept);
  connect_cb = some (Fn.user fn_connect);
  disconnect_cb = some (Fn.user fn_disconnect);
  state_fn = some (Fn.user fn_data);
  recv_fn = some (Fn.user fn_data);
  send_fn = some (Fn.user fn_data);
}

module _ {V : Type 0} ⦃lib : Openssl V⦄ where
  -- The library in which the callback on a disconnect is that of TLS. The other callbacks run in it:
  -- they call back into the library only by `mnet_chann_disconnect`.
  abbrev pub disconnecting : Env (TlsWorld V) → Env (TlsWorld V)
  disconnecting env = record env {
    user_op = λ k ctx n.
        if k == fn_disconnect then tls_disconnect_cb ⦃env = env⦄ n else env.user_op k ctx n;
  }

  abbrev pub tls_op : Env (TlsWorld V) → ℕ → Ptr → Ptr → M (TlsWorld V) (Unit {0})
  tls_op env k ctx n =
      if k == fn_open
      then tls_open_cb ⦃env = disconnecting env⦄ n
      else (if k == fn_close
          then tls_close_cb ⦃env = disconnecting env⦄ n
          else (if k == fn_listen
              then tls_listen_cb ⦃env = disconnecting env⦄ n
              else (if k == fn_accept
                  then tls_accept_cb ⦃env = disconnecting env⦄ ctx n
                  else (if k == fn_connect
                      then tls_connect_cb ⦃env = disconnecting env⦄ ctx n
                      else (disconnecting env).user_op k ctx n))))

  -- The library with all of TLS in place, on the kernel of `env`.
  abbrev pub with_tls : Env (TlsWorld V) → Env (TlsWorld V)
  with_tls env = record env {
    user_type =
        λ k ctx ctype. if k == fn_data then tls_type_fn ctype else env.user_type k ctx ctype;
    user_filter = λ k ctx h.
        if k == fn_data then tls_filter_fn ⦃env = disconnecting env⦄ h else env.user_filter k ctx h;
    user_op = tls_op env;
    user_state = λ k ctx n state.
        if k == fn_data
        then tls_state_fn ⦃env = disconnecting env⦄ n state
        else env.user_state k ctx n state;
    user_recv = λ k ctx n len.
        if k == fn_data
        then tls_recv_fn ⦃env = disconnecting env⦄ n len
        else env.user_recv k ctx n len;
    user_send = λ k ctx n buf.
        if k == fn_data
        then tls_send_fn ⦃env = disconnecting env⦄ n buf
        else env.user_send k ctx n buf;
  }

  -- The context of OpenSSL is null for NULL.
  unfoldable pub mnet_tls_config : Env (TlsWorld V) → Ptr → M (TlsWorld V) Bool
  mnet_tls_config env ctx =
      if ctx == null
      then pure false
      else ext_register ⦃env = with_tls env⦄ chann_type_tls (some (tls_ext ctx))
