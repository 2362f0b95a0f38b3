-- ===== src/Net/Poll/Order/Events.antt =====
-- Events of channels that are closed or can be read, and what `mnet_result_next` of
-- src/mnet_core.c does with the next of them.
use m_net.Base.{
  ℕ, suc, ◌+◌, ◌≡◌, refl, sym, ap, ◌∙◌, ◌||◌, ◌⊎◌, inl, inr, Bool-cases, true, false, Option, none,
  some, List, [], ◌∷◌, ◌++◌, All, arith, ◌==◌, if◌then◌else◌, length, some_inj,
}
use m_net.Base.Int.{ℤ, pos, ◌+ℤ◌, ltb_ℤ, leb_ℤ}
use m_net.Skiplist.{Ptr, null}
use m_net.Net.State.{
  Mnet, Chann, ChannState, ChannEvent, Kev, Fn, rank, pure, ◌>>=◌, ◌>>◌, set_heap,
}
use m_net.Net.State.Heap.{heap-set_self, heap-set_ne}
use m_net.Net.Env.{Env}
use m_net.Net.Chann.Message.{with_message, chann_msg_here}
use m_net.Net.Poll.{nth, tell, on_event, on_connected, evt_result_next}
use m_net.Net.Poll.Report.{tm_next-idle}

-- An event that says that a connected channel can be read, and nothing else of interest.
pub record IsReadable (c : Chann) (kev : Kev) : Type 0 where
  pub connected : c.state ≡ ChannState.connected
  pub opened : ltb_ℤ c.fd (pos 0) ≡ false
  pub ep_in : kev.events.ep_in ≡ true
  pub no_err : kev.events.ep_err ≡ false
  pub no_hup : (kev.events.ep_hup || kev.events.ep_rdhup) ≡ false

-- The channels with such an event, in order; one that was closed in between is passed over.
abbrev pub with_first : Ptr → Option Chann → List Ptr → List Ptr
with_first n none rest = rest
with_first n (some c) rest = if rank c.state == 0 then rest else n ∷ rest

abbrev pub readable : (Ptr → Option Chann) → List Kev → List Ptr
readable h [] = []
readable h (k ∷ ks) = with_first k.opaque (h k.opaque) (readable h ks)

nth-append : (pre rest : List Kev) (k : Kev) → nth (pre ++ k ∷ rest) (length pre) ≡ some k
nth-append [] rest k = refl
nth-append (x ∷ pre) rest k = nth-append pre rest k

pub next_index : (k : ℕ) → pos k +ℤ pos 1 ≡ pos (k + 1)
unfolding ◌+ℤ◌
next_index k = ground arith

-- In `h'` the channels of `h` have the state, the descriptor and the type that they had.
abbrev Same : (Ptr → Option Chann) → (Ptr → Option Chann) → Type 0
Same h h' =
    (q : Ptr) (c : Chann)
    → h q ≡ some c
    → (d : Chann) × (h' q ≡ some d) × (d.state ≡ c.state) × (d.fd ≡ c.fd) × (d.ctype ≡ c.ctype)

module _ {W : Type 0} where
  -- An event of a channel of a built-in type, which is closed or can be read.
  abbrev pub Item : Mnet W → Kev → Type 0
  Item s kev =
      (c : Chann) × (s.heap kev.opaque ≡ some c)
      × ((s.ext_config c.ctype).filter_fn ≡ some Fn.ext_filter_fn)
      × (((rank c.state == 0) ≡ true) ⊎ IsReadable c kev)

  -- No timer is due, no channel has failed, and of the events of the last poll `pre` are done and
  -- `rest` are left.
  pub record IsAt (s : Mnet W) (pre rest : List Kev) : Type 0 where
    pub idle : s.tm_pos ≡ null
    pub none_failed : s.dis_channs ≡ null
    pub events : s.evt ≡ pre ++ rest
    pub index : s.fd_index +ℤ pos 1 ≡ pos (length pre)
    pub count : s.fd_count ≡ pos (length pre + length rest)
    pub items : All (Item s) rest

  pub told-Same :
      (s : Mnet W) (n : Ptr) (c : Chann) (event : ChannEvent) (r : Ptr) (err : ℤ)
      → s.heap n ≡ some c
      → Same s.heap (set_heap s n (some (with_message n c event r err))).heap
  told-Same s n c event r err there q d at_q = elim (Bool-cases (q == n)) [
    | inl hit ↦
        let e : q ≡ n = ground (arith, hit) in
        let same : c ≡ d = some_inj (sym there ∙ ap s.heap (sym e) ∙ at_q) in
        let told = with_message n c event r err in
        (
          told,
          ap (set_heap s n (some told)).heap e ∙ heap-set_self s n (some told),
          ap Chann.state same,
          ap Chann.fd same,
          ap Chann.ctype same,
        )
    | inr miss ↦ (
      d,
      heap-set_ne s n q (some (with_message n c event r err)) (ground (arith, miss)) ∙ at_q,
      refl,
      refl,
      refl,
    )
  ]

  pub readable-Same :
      (s : Mnet W) (h' : Ptr → Option Chann) (ks : List Kev)
      → Same s.heap h'
      → All (Item s) ks
      → readable h' ks ≡ readable s.heap ks
  readable-Same s h' [] same items = refl
  readable-Same s h' (k ∷ ks) same items =
      let (c, there, builtin, kind) = items.0 in
      let (d, there', state, fd, ctype) = same k.opaque c there in
      let rest = readable-Same s h' ks same items.1 in
      let n = k.opaque in
      ap (λ o. with_first n o (readable h' ks)) there'
      ∙ ap (λ r. with_first n (some d) r) rest
      ∙ ap (λ x. if rank x == 0 then readable s.heap ks else n ∷ readable s.heap ks) state
      ∙ sym (ap (λ o. with_first n o (readable s.heap ks)) there)

  Item-Same :
      (s t : Mnet W) (k : Kev)
      → Same s.heap t.heap
      → t.ext_config ≡ s.ext_config
      → Item s k
      → Item t k
  Item-Same s t k same ext (c, there, builtin, kind) =
      let (d, there', state, fd, ctype) = same k.opaque c there in
      (
        d,
        there',
        ap (λ f. (f d.ctype).filter_fn) ext ∙ ap (λ x. (s.ext_config x).filter_fn) ctype ∙ builtin,
        elim kind [
          | inl closed ↦ inl (ap (λ x. rank x == 0) state ∙ closed)
          | inr v ↦ inr (record {
            connected = state ∙ v.connected;
            opened = ap (λ x. ltb_ℤ x (pos 0)) fd ∙ v.opened;
            ep_in = v.ep_in;
            no_err = v.no_err;
            no_hup = v.no_hup;
          })
        ],
      )

  pub Items-Same :
      (s t : Mnet W) (ks : List Kev)
      → Same s.heap t.heap
      → t.ext_config ≡ s.ext_config
      → All (Item s) ks
      → All (Item t) ks
  Items-Same s t [] same ext items = tt
  Items-Same s t (k ∷ ks) same ext items =
      (Item-Same s t k same ext items.0, Items-Same s t ks same ext items.1)

module _ {W : Type 0} ⦃env : Env W⦄ where
  -- What an event of a closed channel does, and one of a channel that can be read.
  pub skip_lem :
      (s : Mnet W) (k : Kev) (c : Chann)
      → s.heap k.opaque ≡ some c
      → (rank c.state == 0) ≡ true
      → on_event k s ≡ some (none, s)
  unfolding on_event
  skip_lem s k c there closed = rw (there, closed, ◌>>=◌) refl

  pub read_lem :
      (s : Mnet W) (k : Kev) (c : Chann)
      → s.heap k.opaque ≡ some c
      → (s.ext_config c.ctype).filter_fn ≡ some Fn.ext_filter_fn
      → IsReadable c k
      → on_event k s
        ≡ some (
          some k.opaque,
          set_heap s k.opaque (some (with_message k.opaque c ChannEvent.recv null (pos 0))),
        )
  unfolding on_event on_connected tell
  read_lem s k c there builtin v =
      let active : (rank c.state == 0) ≡ false = ap (λ x. rank x == 0) v.connected in
      rw
        (
          there,
          active,
          v.opened,
          v.no_err,
          v.no_hup,
          v.connected,
          v.ep_in,
          chann_msg_here k.opaque s c ChannEvent.recv null (pos 0) there builtin,
          ◌>>=◌,
        )
        (ap
          (λ st. some (
            some k.opaque,
            set_heap s k.opaque (
                some
                  (with_message k.opaque (record c { state = st }) ChannEvent.recv null (pos 0))),
          ))
          v.connected)

  -- One call of `mnet_result_next` up to the event it takes.
  abbrev pub stepped : Mnet W → ℕ → Mnet W
  stepped s k = record s { fd_index = pos k }

  pub take_lem :
      (fuel : ℕ) (s : Mnet W) (pre rest : List Kev) (k : Kev)
      → IsAt s pre (k ∷ rest)
      → evt_result_next (suc (suc fuel)) s
        ≡ (do
          told ← on_event k
          elim told [ none ↦ evt_result_next (suc fuel) | some n ↦ pure (some n) ])
            (stepped s (length pre))
  unfolding evt_result_next
  take_lem fuel s pre rest k a =
      let no_failed : (s.dis_channs == null) ≡ true = ap (λ (p : Ptr). p == null) a.none_failed in
      let left : leb_ℤ (pos (length pre + suc (length rest))) (pos (length pre)) ≡ false =
        ground arith in
      rw
        (
          tm_next-idle fuel s a.idle,
          no_failed,
          a.index,
          a.count,
          left,
          a.events,
          nth-append pre rest k,
          ◌>>=◌,
          ◌>>◌,
        )
        refl

  pub end_lem :
      (fuel : ℕ) (s : Mnet W) (pre : List Kev)
      → IsAt s pre []
      → evt_result_next (suc (suc fuel)) s ≡ some (none, stepped s (length pre))
  unfolding evt_result_next
  end_lem fuel s pre a =
      let no_failed : (s.dis_channs == null) ≡ true = ap (λ (p : Ptr). p == null) a.none_failed in
      let over : leb_ℤ (pos (length pre + 0)) (pos (length pre)) ≡ true = ground arith in
      rw (tm_next-idle fuel s a.idle, no_failed, a.index, a.count, over, ◌>>=◌, ◌>>◌) refl
