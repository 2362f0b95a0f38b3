-- ===== src/Tls/Write.antt =====
-- What becomes of the bytes that are sent on a TLS channel: `mnet_chann_send` of src/mnet_core.c with
-- `_tls_send_fn` of extension/openssl/mnet_tls.c.
use m_net.Base.{
  ℕ, zero, suc, ◌-◌, ◌≤◌, ◌<◌, ◌≡◌, refl, ap, ◌∙◌, ◌⊎◌, inl, inr, ◌++◌, Bool-cases, true, false,
  Option, some, List, arith, leb, ltb, take, drop,
}
use m_net.Base.Int.{ℤ, pos, negsuc, ◌+ℤ◌, ltb_ℤ, leb_ℤ}
use m_net.Skiplist.{Ptr}
use m_net.Rwb
use m_net.Rwb.{RwbHead}
use m_net.Rwb.Contents.{contents, IsQueue, contents-cache, contents-nil_of_count}
use m_net.Net.State.{Mnet, Chann, ChannState, rank, pure, ◌>>=◌, ◌>>◌, set_heap}
use m_net.Net.State.Heap.{heap-set_self}
use m_net.Net.Env.{Env}
use m_net.Net.Event.{EvtSet, evt_add}
use m_net.Net.Send.{chann_send, chann_fail, mnet_chann_send}
use m_net.Tls.World.{TlsUd, TlsWorld, Openssl}
use m_net.Tls.Config.{with_tls}
use m_net.Tls.Link.{IsLinked}
use m_net.Tls.Data.{shown_tls, written, after_write, call_send_tls}

module _ {V : Type 0} ⦃lib : Openssl V⦄ (env : Env (TlsWorld V)) (n : Ptr) (s : Mnet (TlsWorld V))
    (c : Chann) (ctx tu : Ptr) (u : TlsUd) where
  -- The channel when OpenSSL has taken `k` bytes.
  abbrev pub counted : ℕ → Chann
  counted zero = c
  counted (suc k) = record c { bytes_send = c.bytes_send +ℤ pos (suc k) }

  abbrev pub sent : List ℕ → ℕ → ℕ → Mnet (TlsWorld V)
  sent buf len zero = after_write env n s c ctx tu u buf len
  sent buf len (suc k) =
      set_heap (after_write env n s c ctx tu u buf len) n (some (counted (suc k)))

  sent-heap :
      (buf : List ℕ) (len k : ℕ)
      → IsLinked n s c ctx tu u
      → (sent buf len k).heap n ≡ some (counted k)
  sent-heap buf len zero l = l.there
  sent-heap buf len (suc k) l =
      heap-set_self (after_write env n s c ctx tu u buf len) n (some (counted (suc k)))

  chann_send_tls :
      (buf : List ℕ) (len k : ℕ)
      → IsLinked n s c ctx tu u
      → written env n s c ctx tu u buf len ≡ pos k
      → chann_send ⦃env = with_tls env⦄ n buf len s ≡ some (pos k, sent buf len k)
  unfolding chann_send
  chann_send_tls buf len zero l e =
      rw (l.there, call_send_tls env n s c ctx tu u buf len l, e, ◌>>=◌, ◌>>◌) refl
  chann_send_tls buf len (suc k) l e =
      let some_out : ltb_ℤ (pos 0) (pos (suc k)) ≡ true = ground arith in
      rw (l.there, call_send_tls env n s c ctx tu u buf len l, e, some_out, l.there, e, ◌>>=◌, ◌>>◌)
        refl

  chann_send_refused :
      (buf : List ℕ) (len k : ℕ)
      → IsLinked n s c ctx tu u
      → written env n s c ctx tu u buf len ≡ negsuc k
      → chann_send ⦃env = with_tls env⦄ n buf len s
        ≡ some (negsuc k, after_write env n s c ctx tu u buf len)
  unfolding chann_send
  chann_send_refused buf len k l e =
      let none_out : ltb_ℤ (pos 0) (negsuc k) ≡ false = ground arith in
      rw (l.there, call_send_tls env n s c ctx tu u buf len l, e, none_out, ◌>>=◌, ◌>>◌) refl

  -- OpenSSL refused: the channel is failed.
  abbrev pub Refuses : List ℕ → ℕ → Option (ℤ × Mnet (TlsWorld V)) → Type 0
  Refuses buf len r =
      (k : ℕ) × (written env n s c ctx tu u buf len ≡ negsuc k)
      × (r
          ≡ (do chann_fail ⦃env = with_tls env⦄ n; pure (negsuc 0))
              (after_write env n s c ctx tu u buf len))

  -- OpenSSL took all.
  abbrev pub Takes : List ℕ → ℕ → Option (ℤ × Mnet (TlsWorld V)) → Type 0
  Takes buf len r =
      (k : ℕ) × (written env n s c ctx tu u buf len ≡ pos k)
      × (len ≤ k)
      × (r ≡ some (pos k, sent buf len k))

  -- OpenSSL took the first `k` bytes: the others are cached, and the library waits to write.
  abbrev pub Caches : List ℕ → ℕ → Option (ℤ × Mnet (TlsWorld V)) → Type 0
  Caches buf len r =
      (k : ℕ) × (q : RwbHead) × (written env n s c ctx tu u buf len ≡ pos k)
      × (k < len)
      × (contents q ≡ take (len - k) (drop k buf))
      × (r
          ≡ (do _ ← evt_add ⦃env = with_tls env⦄ n EvtSet.write; pure (pos len))
              (set_heap (sent buf len k) n (some (record (counted k) { rwb_send = q }))))

  caches :
      (buf : List ℕ) (len k : ℕ)
      → IsLinked n s c ctx tu u
      → leb_ℤ (pos (rank ChannState.connected)) (pos (rank u.state)) ≡ true
      → ltb 0 c.rwb_send.count ≡ false
      → written env n s c ctx tu u buf len ≡ pos k
      → k < len
      → mnet_chann_send ⦃env = with_tls env⦄ n (some buf) len s
        ≡ (do _ ← evt_add ⦃env = with_tls env⦄ n EvtSet.write; pure (pos len))
            (set_heap (sent buf len k) n (
              some (record (counted k) {
                rwb_send = Rwb.cache (counted k).rwb_send (drop k buf) (len - k);
              })))
  unfolding mnet_chann_send
  caches buf len k l up unused e part =
      let room : leb len 0 ≡ false = ground arith in
      let good : ltb_ℤ (pos k) (pos 0) ≡ false = ground arith in
      let less : ltb_ℤ (pos k) (pos len) ≡ true = ground arith in
      rw
        (
          l.there,
          room,
          shown_tls env n s c ctx tu u l,
          up,
          unused,
          chann_send_tls buf len k l e,
          good,
          less,
          sent-heap buf len k l,
          ◌>>=◌,
          ◌>>◌,
        )
        refl

  takes :
      (buf : List ℕ) (len k : ℕ)
      → IsLinked n s c ctx tu u
      → leb_ℤ (pos (rank ChannState.connected)) (pos (rank u.state)) ≡ true
      → ltb 0 c.rwb_send.count ≡ false
      → 0 < len
      → written env n s c ctx tu u buf len ≡ pos k
      → len ≤ k
      → mnet_chann_send ⦃env = with_tls env⦄ n (some buf) len s ≡ some (pos k, sent buf len k)
  unfolding mnet_chann_send
  takes buf len k l up unused some_len e whole =
      let room : leb len 0 ≡ false = ground arith in
      let good : ltb_ℤ (pos k) (pos 0) ≡ false = ground arith in
      let all : ltb_ℤ (pos k) (pos len) ≡ false = ground arith in
      rw
        (
          l.there,
          room,
          shown_tls env n s c ctx tu u l,
          up,
          unused,
          chann_send_tls buf len k l e,
          good,
          all,
          ◌>>=◌,
          ◌>>◌,
        )
        refl

  refuses :
      (buf : List ℕ) (len k : ℕ)
      → IsLinked n s c ctx tu u
      → leb_ℤ (pos (rank ChannState.connected)) (pos (rank u.state)) ≡ true
      → ltb 0 c.rwb_send.count ≡ false
      → 0 < len
      → written env n s c ctx tu u buf len ≡ negsuc k
      → mnet_chann_send ⦃env = with_tls env⦄ n (some buf) len s
        ≡ (do chann_fail ⦃env = with_tls env⦄ n; pure (negsuc 0))
            (after_write env n s c ctx tu u buf len)
  unfolding mnet_chann_send
  refuses buf len k l up unused some_len e =
      let room : leb len 0 ≡ false = ground arith in
      let bad : ltb_ℤ (negsuc k) (pos 0) ≡ true = ground arith in
      rw
        (
          l.there,
          room,
          shown_tls env n s c ctx tu u l,
          up,
          unused,
          chann_send_refused buf len k l e,
          bad,
          ◌>>=◌,
          ◌>>◌,
        )
        refl

  -- `mnet_chann_send` on a TLS channel whose handshake is done, with nothing cached: the bytes that
  -- SSL_write does not take, all of them when it waits for the peer, are cached in order behind those
  -- it takes; only when it refuses is the channel failed. Condition: there is a length.
  pub tls_send_splits :
      (buf : List ℕ) (len : ℕ)
      → IsLinked n s c ctx tu u
      → leb_ℤ (pos (rank ChannState.connected)) (pos (rank u.state)) ≡ true
      → IsQueue c.rwb_send
      → ltb 0 c.rwb_send.count ≡ false
      → 0 < len
      → let r = mnet_chann_send ⦃env = with_tls env⦄ n (some buf) len s in
        Takes buf len r ⊎ Caches buf len r ⊎ Refuses buf len r
  tls_send_splits buf len l up q unused some_len = go (written env n s c ctx tu u buf len) refl
    where
      go :
          (w : ℤ)
          → written env n s c ctx tu u buf len ≡ w
          → let r = mnet_chann_send ⦃env = with_tls env⦄ n (some buf) len s in
            Takes buf len r ⊎ Caches buf len r ⊎ Refuses buf len r
      go (negsuc k) e = inr (inr (k, e, refuses buf len k l up unused some_len e))
      go (pos k) e = elim (Bool-cases (ltb k len)) [
        | inl part ↦ inr (
            inl (
              k,
              Rwb.cache (counted k).rwb_send (drop k buf) (len - k),
              e,
              ground (arith, part),
              cached k,
              caches buf len k l up unused e (ground (arith, part)),
            ))
        | inr whole ↦
            let all : len ≤ k = ground (arith, whole) in
            inl (k, e, all, takes buf len k l up unused some_len e all)
      ]
        where
          cached :
              (k : ℕ)
              → contents (Rwb.cache (counted k).rwb_send (drop k buf) (len - k))
                ≡ take (len - k) (drop k buf)
          cached zero =
              contents-cache c.rwb_send (drop 0 buf) (len - 0) q
              ∙ ap (λ r. r ++ take (len - 0) (drop 0 buf))
                  (contents-nil_of_count c.rwb_send q unused)
          cached (suc k) =
              contents-cache c.rwb_send (drop (suc k) buf) (len - suc k) q
              ∙ ap (λ r. r ++ take (len - suc k) (drop (suc k) buf))
                  (contents-nil_of_count c.rwb_send q unused)
