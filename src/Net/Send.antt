-- ===== src/Net/Send.antt =====
-- Data in and out of a channel: `_chann_send`, `_chann_sended_rwb`, `mnet_chann_send`,
-- `mnet_chann_recv`, `mnet_chann_cached` and `mnet_chann_bytes` of src/mnet_core.c. Lengths are natural numbers: a
-- negative one takes the branches of 0.
pub mod Kernel
pub mod Stream
pub mod Round
pub mod Flush
pub mod Interest
pub mod Steps
pub mod Session
pub mod Failure
use m_net.Base.{
  ℕ, zero, suc, ◌+◌, ◌-◌, Bool, true, false, ◌&&◌, ◌||◌, not, Option, none, some, List, [], ltb,
  leb, ◌==◌, if◌then◌else◌, drop,
}
use m_net.Base.Int.{ℤ, pos, negsuc, ◌+ℤ◌, ltb_ℤ, leb_ℤ, pos_part}
use m_net.Skiplist.{Ptr, null}
use m_net.Rwb
use m_net.Net.State.{
  Mnet, M, Chann, ChannState, ChannEvent, rank, pure, fault, ◌>>=◌, ◌>>◌, get, update, load, modify,
}
use m_net.Net.Env.{Env, errno}
use m_net.Net.Ext.{ext_config, call_send, call_recv, call_state, is_some}
use m_net.Net.Event.{EvtSet, evt_add}
use m_net.Net.Chann.{chann_disconnect_socket, chann_msg}

module _ {W : Type 0} ⦃env : Env W⦄ where
  -- The number of bytes that went out, counted; negative on an error.
  unfoldable pub chann_send : Ptr → List ℕ → ℕ → M W ℤ
  chann_send n buf len = do
    c ← load n
    ext ← ext_config c.ctype
    ret ← call_send ext.send_fn ext.ext_ctx n buf len
    if ltb_ℤ (pos 0) ret
        then (do modify n (λ k. record k { bytes_send = k.bytes_send +ℤ ret }); pure ret)
        else pure ret

  -- The channel goes to the front of the list of disconnected ones.
  unfoldable pub push_dis : Ptr → M W (Unit {0})
  push_dis n = do
    s ← get
    modify n (λ c. record c { dis_next = s.dis_channs })
    update (λ t. record t { dis_channs = n })

  -- What `send` and `recv` do on an error.
  unfoldable pub chann_fail : Ptr → M W (Unit {0})
  chann_fail n = do
    _ ← chann_disconnect_socket n
    e ← errno
    told ← chann_msg n ChannEvent.disconnect null (pos e)
    if told then push_dis n else pure tt

  unfoldable pub drain_queue : Ptr → ℕ → M W (Unit {0})
  drain_queue n k = do
    c ← load n
    elim (Rwb.drain c.rwb_send k) [
      | none ↦ fault
      | some h ↦ modify n (λ d. record d { rwb_send = h })
    ]

  -- The loop of `_chann_sended_rwb`, on fuel.
  unfoldable pub sended_loop : ℕ → Ptr → M W Bool
  sended_loop zero n = fault
  sended_loop (suc fuel) n = do
    c ← load n
    elim (Rwb.drain_param c.rwb_send) [
      | none ↦ fault
      | some (buf, len) ↦ do
        ret ← chann_send n buf len
        if ltb_ℤ (pos 0) ret
            then drain_queue n (pos_part ret)
            else (if ltb_ℤ ret (pos 0) then chann_fail n else pure tt)
        k ← load n
        let again = sended_loop fuel n
        if ltb_ℤ (pos 0) ret && leb_ℤ (pos len) ret && ltb 0 k.rwb_send.count
            then again
            else pure (leb k.rwb_send.count 0)
    ]

  -- True when all cached data is sent. A round that goes on takes a block off the queue.
  unfoldable pub chann_sended_rwb : Ptr → M W Bool
  chann_sended_rwb n = do
    c ← load n
    if leb c.rwb_send.count 0 then pure true else sended_loop (c.rwb_send.count + 1) n

  -- The state that an extension shows for a channel.
  unfoldable pub shown_state : Ptr → M W ℤ
  shown_state n = do
    c ← load n
    ext ← ext_config c.ctype
    call_state ext.state_fn ext.ext_ctx n (pos (rank c.state))

  -- `buf` is none for NULL. The message that is logged on a refusal reads a field of the channel, so
  -- a null one is undefined.
  unfoldable pub mnet_chann_send : Ptr → Option (List ℕ) → ℕ → M W ℤ
  mnet_chann_send n none len = do _ ← load n; pure (negsuc 0)
  mnet_chann_send n (some buf) len = do
    c ← load n
    if leb len 0 then pure (negsuc 0) else (do
      state ← shown_state n
      if leb_ℤ (pos (rank ChannState.connected)) state
          then (if ltb 0 c.rwb_send.count
              then (do
                modify n (λ k. record k { rwb_send = Rwb.cache k.rwb_send buf len })
                pure (pos len))
              else (do
                ret ← chann_send n buf len
                if ltb_ℤ ret (pos 0)
                    then (do chann_fail n; pure (negsuc 0))
                    else (if ltb_ℤ ret (pos len)
                        then (do
                          modify n (λ k. record k {
                            rwb_send =
                                Rwb.cache k.rwb_send (drop (pos_part ret) buf) (len - pos_part ret);
                          })
                          _ ← evt_add n EvtSet.write
                          pure (pos len))
                        else pure ret)))
          else pure (negsuc 0))

  -- The bytes are those stored in the buffer of the caller.
  unfoldable pub mnet_chann_recv : Ptr → Bool → ℕ → M W (ℤ × List ℕ)
  mnet_chann_recv n buf len = do
    c ← load n
    if not buf || leb len 0 then pure (negsuc 0, []) else (do
      state ← shown_state n
      if leb_ℤ (pos (rank ChannState.connected)) state
          then (do
            ext ← ext_config c.ctype
            (ret, bytes) ← call_recv ext.recv_fn ext.ext_ctx n len
            if ltb_ℤ ret (pos 0) then chann_fail n else pure tt
            modify n (λ k. record k { bytes_recv = k.bytes_recv +ℤ ret })
            pure (ret, bytes))
          else pure (negsuc 0, []))

  unfoldable pub mnet_chann_cached : Ptr → M W ℤ
  mnet_chann_cached n =
      if n == null then pure (pos 0) else (do c ← load n; pure (Rwb.cached c.rwb_send))

  unfoldable pub mnet_chann_bytes : Ptr → Bool → M W ℤ
  mnet_chann_bytes n be_send =
      if n == null
      then pure (negsuc 0)
      else (do c ← load n; pure (if be_send then c.bytes_send else c.bytes_recv))
