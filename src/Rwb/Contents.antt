-- ===== src/Rwb/Contents.antt =====
-- The bytes that a send queue holds, its well-formedness, and what `_rwb_cache` adds.
use m_net.Base.{
  ℕ, ◌+◌, ◌≤◌, ◌<◌, ◌≡◌, refl, sym, ap, ◌∙◌, inl, inr, false, some, ◌-◌, List, [], ◌∷◌, ◌++◌,
  append_assoc, append-nil, arith, ltb, leb, Bool-cases, All, length, take, drop, length-append,
  length-replicate, length-take_le, drop-length_le, replicate, memcpy,
}
use m_net.Rwb.{Rwb, RwbHead, rwb_new, at_tail, cache, drain_param}

abbrev pub unsent : List Rwb → List ℕ
unsent [] = []
unsent (b ∷ bs) = drop b.ptr b.buf ++ unsent bs

-- The bytes still to be sent, oldest first.
abbrev pub contents : RwbHead → List ℕ
contents h = unsent h.blocks

-- A block has something left to send, and a buffer of its length.
pub record IsBlock (b : Rwb) : Type 0 where
  pub pending : b.ptr < b.len
  pub sized : length b.buf ≡ b.len

pub record IsQueue (h : RwbHead) : Type 0 where
  pub counted : h.count ≡ length h.blocks
  pub all_pending : All IsBlock h.blocks

unsent-append : (bs cs : List Rwb) → unsent (bs ++ cs) ≡ unsent bs ++ unsent cs
unsent-append [] cs = refl
unsent-append (b ∷ bs) cs = rw (unsent-append bs cs, append_assoc)

All-append_one : (bs : List Rwb) (b : Rwb) → All IsBlock bs → IsBlock b → All IsBlock (bs ++ b ∷ [])
All-append_one [] b h k = (k, tt)
All-append_one (c ∷ bs) b h k = (h.0, All-append_one bs b h.1 k)

at_tail-append_one :
    (f : Rwb → Rwb) (bs : List Rwb) (b : Rwb) → at_tail f (bs ++ b ∷ []) ≡ bs ++ f b ∷ []
unfolding at_tail
at_tail-append_one f [] b = refl
at_tail-append_one f (c ∷ []) b = refl
at_tail-append_one f (c ∷ d ∷ bs) b = ap (λ r. c ∷ r) (at_tail-append_one f (d ∷ bs) b)

nil_of_length : (bs : List Rwb) → length bs ≡ 0 → bs ≡ []
nil_of_length [] e = refl
nil_of_length (b ∷ bs) e = absurd (omega arith)

-- The block that a call of `_rwb_cache` adds.
abbrev pub filled : List ℕ → ℕ → Rwb
filled buf n = record { ptr = 0; len = n; buf = memcpy (replicate n 0) buf n }

memcpy_all : (buf : List ℕ) (n : ℕ) → memcpy (replicate n 0) buf n ≡ take n buf
memcpy_all buf n =
    let z : ℕ = 0 in
    ap (λ r. take n buf ++ r)
      (drop-length_le n (replicate n z) (omega (arith, length-replicate n z)))
    ∙ append-nil (take n buf)

blocks-cache :
    (h : RwbHead) (buf : List ℕ) (n : ℕ)
    → IsQueue h
    → cache h buf n ≡ record { blocks = h.blocks ++ filled buf n ∷ []; count = h.count + 1 }
unfolding cache rwb_new
blocks-cache h buf n q = elim (Bool-cases (leb h.count 0)) [
  | inl none_yet ↦ rw none_yet (
      ap (λ bs. record { blocks = bs ++ filled buf n ∷ []; count = h.count + 1 })
        (sym (nil_of_length h.blocks (ground (arith, q.counted)))))
  | inr some_yet ↦
      rw some_yet
        (ap (λ bs. record { blocks = bs; count = h.count + 1 }) (at_tail-append_one _ h.blocks _))
]

-- `_rwb_cache` puts the first `n` bytes of the buffer behind those that the queue holds.
-- Condition: the queue is well formed.
pub contents-cache :
    (h : RwbHead) (buf : List ℕ) (n : ℕ)
    → IsQueue h
    → contents (cache h buf n) ≡ contents h ++ take n buf
contents-cache h buf n q =
    rw (blocks-cache h buf n q, unsent-append, memcpy_all, append-nil (take n buf))

-- `_rwb_cache` of `n` bytes leaves a well-formed queue well formed, when `n` is not 0 and the buffer
-- has that many.
pub cache-IsQueue :
    (h : RwbHead) (buf : List ℕ) (n : ℕ)
    → IsQueue h
    → 0 < n
    → n ≤ length buf
    → IsQueue (cache h buf n)
cache-IsQueue h buf n q pos enough = rw (blocks-cache h buf n q) (record {
  counted = omega (arith, length-append h.blocks (filled buf n ∷ []), q.counted);
  all_pending = All-append_one h.blocks _ q.all_pending (record {
    pending = pos;
    sized = ap length (memcpy_all buf n) ∙ length-take_le n buf enough;
  });
})

abbrev pub queue : List Rwb → RwbHead
queue bs = record { blocks = bs; count = length bs }

pub queue_lem : (h : RwbHead) → IsQueue h → h ≡ queue h.blocks
queue_lem h q = ap (λ c. record { blocks = h.blocks; count = c }) q.counted

pub contents-nil_of_count : (h : RwbHead) → IsQueue h → ltb 0 h.count ≡ false → contents h ≡ []
contents-nil_of_count h q none_left =
    ap unsent (nil_of_length h.blocks (ground (arith, q.counted, none_left)))

-- On a queue with a head `_rwb_drain_param` gives its unsent bytes and their number.
pub drain_param_lem :
    (h : RwbHead) (b : Rwb) (bs : List Rwb)
    → h ≡ queue (b ∷ bs)
    → drain_param h ≡ some (drop b.ptr b.buf, b.len - b.ptr)
unfolding drain_param
drain_param_lem h b bs e = ap drain_param e
