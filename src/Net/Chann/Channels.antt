-- ===== src/Net/Chann/Channels.antt =====
-- The list of all channels: what it is for it to be well formed, and that `_chann_create` keeps it so.
use m_net.Base.{
  ℕ, ◌+◌, ◌≡◌, ◌≢◌, refl, sym, ap, subst, ◌∙◌, inl, inr, Bool-cases, some_inj, true, false, Option,
  some, List, [], ◌∷◌, arith, ◌==◌, length, ==_ne,
}
use m_net.Skiplist.{Ptr, null}
use m_net.Skiplist.Ring.{Out, Distinct}
use m_net.Net.State.{Mnet, Chann, ChannState, zero_chann, ◌>>=◌, ◌>>◌, set_heap}
use m_net.Net.State.Heap.{heap-set_self, heap-set_ne}
use m_net.Net.Env.{Env}
use m_net.Net.Chann.{chann_create}

-- From `cur` the next fields lead through `xs` to NULL, and the prev fields back to `p`.
abbrev pub Linked : (Ptr → Option Chann) → Ptr → Ptr → List Ptr → Type 0
Linked h p cur [] = cur ≡ null
Linked h p cur (x ∷ xs) =
    (cur ≡ x) × (x ≢ null) × ((c : Chann) × (h x ≡ some c) × (c.prev ≡ p) × Linked h x c.next xs)

-- The list of all channels holds `xs`, each once, and their number is right.
pub record IsList {W : Type 0} (s : Mnet W) (xs : List Ptr) : Type 0 where
  pub linked : Linked s.heap null s.channs xs
  pub apart : Distinct xs
  pub counted : s.chann_count ≡ length xs

-- Links stay where a channel that is not on the list is written.
pub Linked-set :
    {W : Type 0}
    → (s : Mnet W) (a : Ptr) (c : Option Chann) (p cur : Ptr) (xs : List Ptr) → Out a xs
    → Linked s.heap p cur xs
    → Linked (set_heap s a c).heap p cur xs
Linked-set s a c p cur [] o l = l
Linked-set s a c p cur (x ∷ xs) o (e, some_at, (d, there, back, rest)) = (
  e,
  some_at,
  (
    d,
    heap-set_ne s a x c (λ same. o.0 (sym same)) ∙ there,
    back,
    Linked-set s a c x d.next xs o.1 rest,
  ),
)

-- Links stay where a channel is written with the links that it has.
Linked-same :
    {W : Type 0}
    → (s : Mnet W) (a : Ptr) (c d : Chann) (p cur : Ptr) (xs : List Ptr) → s.heap a ≡ some c
    → d.prev ≡ c.prev
    → d.next ≡ c.next
    → Linked s.heap p cur xs
    → Linked (set_heap s a (some d)).heap p cur xs
Linked-same s a c d p cur [] there same_prev same_next l = l
Linked-same s a c d p cur (x ∷ xs) there same_prev same_next (e, some_at, (k, at_x, back, rest)) =
    let onward = Linked-same s a c d x k.next xs there same_prev same_next rest in
    elim (Bool-cases (x == a)) [
      | inl hit ↦
          let e' : x ≡ a = ground (arith, hit) in
          let same : k ≡ c = some_inj (sym at_x ∙ ap s.heap e' ∙ there) in
          let h' = (set_heap s a (some d)).heap in
          (
            e,
            some_at,
            (
              d,
              ap h' e' ∙ heap-set_self s a (some d),
              same_prev ∙ sym (ap Chann.prev same) ∙ back,
              subst (λ q. Linked h' x q xs) (ap Chann.next same ∙ sym same_next) onward,
            ),
          )
      | inr miss ↦
          (e, some_at, (k, heap-set_ne s a x (some d) (ground (arith, miss)) ∙ at_x, back, onward))
    ]

pub same_links-IsList :
    {W : Type 0}
    → (s : Mnet W) (a : Ptr) (c d : Chann) (xs : List Ptr) → s.heap a ≡ some c
    → d.prev ≡ c.prev
    → d.next ≡ c.next
    → IsList s xs
    → IsList (set_heap s a (some d)) xs
same_links-IsList s a c d xs there same_prev same_next h = record {
  linked = Linked-same s a c d null s.channs xs there same_prev same_next h.linked;
  apart = h.apart;
  counted = h.counted;
}

module _ {W : Type 0} ⦃env : Env W⦄ (ctype : ℕ) (state : ChannState) (s : Mnet W) where
  -- The address that the allocator gives, the channel that is put there, and the state then.
  abbrev pub fresh : Ptr
  fresh = (env.malloc s.world).0

  abbrev pub made : Chann
  made = record zero_chann { ctype = ctype; state = state; next = s.channs }

  abbrev stored : Mnet W
  stored = set_heap (record s { world = (env.malloc s.world).1 }) fresh (some made)

  -- On a well-formed list of all channels, when the allocator gives a fresh address, `_chann_create`
  -- ends without a fault, the list then holds the new channel in front of the others and is well
  -- formed, and the channel has its type and state.
  pub create-IsList :
      (xs : List Ptr)
      → IsList s xs
      → fresh ≢ null
      → Out fresh xs
      → (s' : Mnet W) × (chann_create ctype state s ≡ some (fresh, s'))
        × IsList s' (fresh ∷ xs)
        × (s'.heap fresh ≡ some made)
  unfolding chann_create
  create-IsList [] h some_at out =
      let is_null : (s.channs == null) ≡ true = ap (λ (p : Ptr). p == null) h.linked in
      let here = heap-set_self (record s { world = (env.malloc s.world).1 }) fresh (some made) in
      (
        record stored { channs = fresh; chann_count = s.chann_count + 1 },
        rw (is_null, ◌>>=◌, ◌>>◌) refl,
        record {
          linked = (refl, some_at, (made, here, refl, h.linked));
          apart = (tt, tt);
          counted = omega (arith, h.counted);
        },
        here,
      )
  create-IsList (x ∷ xs) h some_at out =
      let (e, first_at, (c, there, back, rest)) = h.linked in
      let s0 : Mnet W = record s { world = (env.malloc s.world).1 } in
      let not_first : fresh ≢ s.channs = λ same. out.0 (same ∙ e) in
      let not_null : (s.channs == null) ≡ false =
        ap (λ (p : Ptr). p == null) e ∙ ==_ne x null first_at in
      let found : stored.heap s.channs ≡ some c =
        heap-set_ne s0 fresh s.channs (some made) (λ same. not_first (sym same))
        ∙ ap s.heap e
        ∙ there in
      let d : Chann = record c { prev = fresh } in
      let here =
        heap-set_ne stored s.channs fresh (some d) not_first ∙ heap-set_self s0 fresh (some made) in
      let others =
        Linked-set stored s.channs (some d) x c.next xs (subst (λ p. Out p xs) (sym e) h.apart.0)
          (Linked-set s0 fresh (some made) x c.next xs out.1 rest) in
      (
        record (set_heap stored s.channs (some d)) {
          channs = fresh;
          chann_count = s.chann_count + 1;
        },
        rw (not_null, found, ◌>>=◌, ◌>>◌) refl,
        record {
          linked = (
            refl,
            some_at,
            (
              made,
              here,
              refl,
              (
                e,
                first_at,
                (
                  d,
                  ap (set_heap stored s.channs (some d)).heap (sym e)
                      ∙ heap-set_self stored s.channs (some d),
                  refl,
                  others,
                ),
              ),
            ),
          );
          apart = (out, h.apart);
          counted = omega (arith, h.counted);
        },
        here,
      )
