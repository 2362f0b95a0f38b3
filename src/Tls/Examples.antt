-- ===== src/Tls/Examples.antt =====
-- The theorems on TLS at a concrete library: one channel, and an OpenSSL that agrees to everything.
use m_net.Base.{ℕ, ◌≡◌, ◌⊎◌, refl, true, false, none, some, [], ◌∷◌, arith, ◌==◌, if◌then◌else◌}
use m_net.Base.Int.{pos, negsuc}
use m_net.Skiplist.{null}
use m_net.Net.State.{Mnet, Chann, ChannState, ChannEvent, zero_chann, ◌>>◌}
use m_net.Net.Env.{Env}
use m_net.Net.Ext.{no_ext, put_ext}
use m_net.Net.Chann.{chann_disconnect_socket}
use m_net.Net.Send.{mnet_chann_send, mnet_chann_recv}
use m_net.Net.Poll.{tell}
use m_net.Net.Quiet.{quiet, one_chann}
use m_net.Tls.World.{TlsUd, TlsWorld, Openssl, SslError}
use m_net.Tls.Callbacks.{tls_open_cb, tls_close_cb, tls_listen_cb}
use m_net.Tls.Config.{chann_type_tls, with_tls, mnet_tls_config}
use m_net.Tls.Link.{IsLinked, IsUp, tls_entry, hung_up, disconnect-hung_up}
use m_net.Tls.Gate.{Passes, Completes, Waits, Breaks, recv_gated}
use m_net.Tls.Data.{early_data_refused}
use m_net.Tls.Write.{Takes, Caches, Refuses, tls_send_splits}
use m_net.Tls.Life.{Releases, config_once, open-Releases}

-- The world counts the calls of OpenSSL.
instance abbrev agreeing : Openssl ℕ
agreeing = record {
  calloc = λ v. (9, v);
  ssl_new = λ ctx v. (8, v);
  set_mode = λ ssl m v. v;
  set_fd = λ ssl fd v. v;
  accept = λ ssl v. (pos 1, v);
  connect = λ ssl v. (pos 1, v);
  read = λ ssl len v. (pos 2, 7 ∷ 8 ∷ [], v);
  write = λ ssl bs v. (pos 1, v);
  get_error = λ ssl ret v. SslError.other;
  shutdown = λ ssl v. v;
  clear = λ ssl v. v;
  free = λ ssl v. v;
}

-- A client whose socket is connected and whose handshake is not done.
abbrev tls_chann : Chann
tls_chann = record zero_chann {
  fd = pos 5;
  state = ChannState.connected;
  ctype = chann_type_tls;
  ext_ud = 7;
}

abbrev shaking : TlsUd
shaking = record { ln = null; state = ChannState.connecting; ssl = 8 }

abbrev kernel : Env (TlsWorld ℕ)
kernel = quiet

abbrev tls_net : Mnet (TlsWorld ℕ)
tls_net =
    one_chann (λ t. if t == chann_type_tls then tls_entry 2 else no_ext) tls_chann
      (record { os = 0; uds = λ p. if p == 7 then some shaking else none })

shaking-IsLinked : IsLinked 3 tls_net tls_chann 2 7 shaking
shaking-IsLinked = record {
  some_chann = refl;
  there = refl;
  entry = refl;
  linked = refl;
  some_ud = refl;
  known = refl;
}

shaking-IsUp : IsUp 3 tls_net tls_chann 2 7 shaking
shaking-IsUp = record {
  link = shaking-IsLinked;
  begun = refl;
  opened = refl;
  active = refl;
  queue = record { counted = refl; all_pending = tt };
  sent_all = refl;
}

recv_gated_example :
    let r = tell ⦃env = with_tls kernel⦄ 3 ChannEvent.recv null (pos 0) tls_net in
    Passes kernel 3 tls_net tls_chann 2 7 shaking r
    ⊎ Completes kernel 3 tls_net tls_chann 2 7 shaking r
    ⊎ Waits kernel 3 tls_net tls_chann 2 7 shaking r
    ⊎ Breaks kernel 3 tls_net tls_chann 2 7 shaking r
recv_gated_example = recv_gated kernel 3 tls_net tls_chann 2 7 shaking shaking-IsUp

disconnect-hung_up_example :
    chann_disconnect_socket ⦃env = with_tls kernel⦄ 3 tls_net
    ≡ some (true, hung_up kernel 3 tls_net tls_chann 7 shaking)
disconnect-hung_up_example = disconnect-hung_up kernel 3 tls_net tls_chann 2 7 shaking shaking-IsUp

early_data_refused_example :
    (mnet_chann_send ⦃env = with_tls kernel⦄ 3 (some (1 ∷ 2 ∷ [])) 2 tls_net
      ≡ some (negsuc 0, tls_net))
    × (mnet_chann_recv ⦃env = with_tls kernel⦄ 3 true 2 tls_net ≡ some ((negsuc 0, []), tls_net))
early_data_refused_example =
    early_data_refused kernel 3 tls_net tls_chann 2 7 shaking (1 ∷ 2 ∷ []) 2 shaking-IsLinked refl
      (omega arith)

open-Releases_example :
    Releases kernel 3 tls_net tls_chann
      ((do tls_open_cb ⦃env = kernel⦄ 3; tls_close_cb ⦃env = kernel⦄ 3) tls_net)
    × Releases kernel 3 tls_net tls_chann
        ((do tls_open_cb ⦃env = kernel⦄ 3; tls_listen_cb ⦃env = kernel⦄ 3) tls_net)
open-Releases_example = open-Releases kernel 3 tls_net tls_chann refl refl refl refl refl

-- Before the extension is registered.
abbrev plain_net : Mnet (TlsWorld ℕ)
plain_net = record tls_net { ext_config = λ t. no_ext }

config_once_example :
    let t = put_ext chann_type_tls (tls_entry 2) plain_net in
    (mnet_tls_config kernel 2 plain_net ≡ some (true, t))
    × (mnet_tls_config kernel 6 t ≡ some (false, t))
config_once_example = config_once kernel 2 6 plain_net refl refl

-- The same channel when the handshake is done.
abbrev up : TlsUd
up = record shaking { state = ChannState.connected }

abbrev up_net : Mnet (TlsWorld ℕ)
up_net = record tls_net { world = record { os = 0; uds = λ p. if p == 7 then some up else none } }

up-IsLinked : IsLinked 3 up_net tls_chann 2 7 up
up-IsLinked = record {
  some_chann = refl;
  there = refl;
  entry = refl;
  linked = refl;
  some_ud = refl;
  known = refl;
}

tls_send_splits_example :
    let r = mnet_chann_send ⦃env = with_tls kernel⦄ 3 (some (1 ∷ 2 ∷ [])) 2 up_net in
    Takes kernel 3 up_net tls_chann 2 7 up (1 ∷ 2 ∷ []) 2 r
    ⊎ Caches kernel 3 up_net tls_chann 2 7 up (1 ∷ 2 ∷ []) 2 r
    ⊎ Refuses kernel 3 up_net tls_chann 2 7 up (1 ∷ 2 ∷ []) 2 r
tls_send_splits_example =
    tls_send_splits kernel 3 up_net tls_chann 2 7 up (1 ∷ 2 ∷ []) 2 up-IsLinked refl
      (record { counted = refl; all_pending = tt }) refl (omega arith)
