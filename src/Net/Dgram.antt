-- ===== src/Net/Dgram.antt =====
-- The datagram calls of src/mnet_core.h: `mnet_dgram_recv` and `mnet_dgram_send`.
use m_net.Base.{ℕ, Bool, ◌&&◌, ◌||◌, Option, none, some, List, ltb, ◌==◌, if◌then◌else◌}
use m_net.Base.Int.{ℤ, pos, leb_ℤ}
use m_net.Skiplist.{Ptr}
use m_net.Net.State.{
  M, Chann, ChannState, Addr, rank, type_dgram, type_broadcast, pure, ◌>>=◌, ◌>>◌, load,
}
use m_net.Net.Env.{Env}
use m_net.Net.Chann.{chann_fill_addr}
use m_net.Net.Send.{shown_state, mnet_chann_send, mnet_chann_recv}
use m_net.Net.Api.{mnet_chann_connect}

-- Whether a channel is of one of the two datagram types.
abbrev pub is_dgram : Chann → Bool
is_dgram c = (c.ctype == type_dgram) || (c.ctype == type_broadcast)

module _ {W : Type 0} ⦃env : Env W⦄ where
  -- The address of the sender comes with the bytes; `buf` is false for NULL.
  unfoldable pub mnet_dgram_recv : Ptr → Bool → ℕ → M W (ℤ × List ℕ × Option Addr)
  mnet_dgram_recv n buf len = do
    c ← load n
    if is_dgram c && buf && ltb 0 len
        then (do
          state ← shown_state n
          if leb_ℤ (pos (rank ChannState.connected)) state
              then (do
                (ret, bytes) ← mnet_chann_recv n buf len
                k ← load n
                pure (ret, bytes, some k.addr))
              else pure (pos 0, List.[], none))
        else pure (pos 0, List.[], none)

  unfoldable pub mnet_dgram_send : Ptr → Option (List ℕ × ℕ) → Option (List ℕ) → ℕ → M W ℤ
  mnet_dgram_send n (some (host, port)) (some buf) len = do
    c ← load n
    if is_dgram c && ltb 0 len
        then (do
          state ← shown_state n
          if leb_ℤ (pos (rank ChannState.connected)) state
              then chann_fill_addr n (some host) port
              else (do _ ← mnet_chann_connect n (some host) port; pure tt)
          mnet_chann_send n (some buf) len)
        else pure (pos 0)
  mnet_dgram_send n _ _ len = do _ ← load n; pure (pos 0)
