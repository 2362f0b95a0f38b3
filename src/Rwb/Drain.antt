-- ===== src/Rwb/Drain.antt =====
-- `_rwb_drain` takes as many bytes off the front as it is told, on every queue it is given.
use m_net.Base.{
  ℕ, zero, suc, ◌+◌, ◌-◌, ◌≤◌, ◌<◌, ◌≡◌, refl, sym, ap, ◌∙◌, inl, inr, Option, some, List, [], ◌∷◌,
  ◌++◌, arith, ltb, Bool-cases, All, length, drop, drop-nil, length-drop, drop-drop, drop-append_le,
  drop-append_ge,
}
use m_net.Rwb.{Rwb, RwbHead, drain_loop, drain}
use m_net.Rwb.Contents.{unsent, contents, IsBlock, IsQueue, queue, queue_lem}

-- What is left after `n` bytes are taken.
abbrev Drained : List Rwb → ℕ → Option RwbHead → Type 0
Drained bs n r =
    (cs : List Rwb) × (r ≡ some (queue cs)) × All IsBlock cs × (unsent cs ≡ drop n (unsent bs))

loop_nil : (fuel n : ℕ) → Drained [] n (drain_loop (suc fuel) (queue []) n)
unfolding drain_loop
loop_nil fuel n = ([], refl, tt, sym (drop-nil n [] refl))

loop_done :
    (fuel : ℕ) (bs : List Rwb) → All IsBlock bs → Drained bs 0 (drain_loop (suc fuel) (queue bs) 0)
unfolding drain_loop
loop_done fuel bs p = (bs, ground arith, p, refl)

-- The head survives a drain of less than it holds.
loop_part :
    (fuel : ℕ) (b : Rwb) (bs : List Rwb) (n : ℕ)
    → All IsBlock (b ∷ bs)
    → n < b.len - b.ptr
    → Drained (b ∷ bs) n (drain_loop (suc (suc fuel)) (queue (b ∷ bs)) n)
unfolding drain_loop
loop_part fuel b bs n p part = (
  record b { ptr = b.ptr + n } ∷ bs,
  ground arith,
  (record { pending = omega arith; sized = p.0.sized }, p.1),
  sym (
      drop-append_le n (drop b.ptr b.buf) (unsent bs)
        (omega (arith, length-drop b.ptr b.buf, p.0.sized))
      ∙ ap (λ r. r ++ unsent bs) (drop-drop n b.ptr b.buf)),
)

-- A head that is used up goes, and the loop runs on.
loop_next :
    (fuel : ℕ) (b : Rwb) (bs : List Rwb) (n : ℕ)
    → IsBlock b
    → b.len - b.ptr ≤ n
    → drain_loop (suc fuel) (queue (b ∷ bs)) n ≡ drain_loop fuel (queue bs) (n - (b.len - b.ptr))
unfolding drain_loop
loop_next fuel b [] n p whole = ground arith
loop_next fuel b (c ∷ bs) n p whole = ground arith

loop :
    (fuel : ℕ) (bs : List Rwb) (n : ℕ)
    → All IsBlock bs
    → length bs < fuel
    → Drained bs n (drain_loop (suc fuel) (queue bs) n)
loop fuel [] n p enough = loop_nil fuel n
loop zero (b ∷ bs) n p enough = absurd (omega arith)
loop (suc fuel) (b ∷ bs) n p enough = elim (Bool-cases (ltb n (b.len - b.ptr))) [
  | inl part ↦ loop_part fuel b bs n p (ground (arith, part))
  | inr whole ↦
      let covered : b.len - b.ptr ≤ n = ground (arith, whole) in
      let (cs, ends, pending, rest) = loop fuel bs (n - (b.len - b.ptr)) p.1 (omega arith) in
      (
        cs,
        loop_next (suc fuel) b bs n p.0 covered ∙ ends,
        pending,
        rest
            ∙ ap (λ k. drop (n - k) (unsent bs))
                (sym (length-drop b.ptr b.buf ∙ ap (λ k. k - b.ptr) p.0.sized))
            ∙ sym (
                drop-append_ge n (drop b.ptr b.buf) (unsent bs)
                  (omega (arith, length-drop b.ptr b.buf, p.0.sized))),
      )
]

drain_lem :
    (h : RwbHead) (n : ℕ)
    → IsQueue h
    → drain h n ≡ drain_loop (suc (length h.blocks + 1)) (queue h.blocks) n
unfolding drain
drain_lem h n q =
    let rounds : length h.blocks + 2 ≡ suc (length h.blocks + 1) = omega arith in
    ap (λ k. drain_loop (k.count + 2) k n) (queue_lem h q)
    ∙ ap (λ k. drain_loop k (queue h.blocks) n) rounds

-- On every well-formed queue `_rwb_drain` ends, leaves it well formed, and takes the `n` oldest bytes
-- off it, or all of them if there are fewer.
pub drain-contents :
    (h : RwbHead) (n : ℕ)
    → IsQueue h
    → (h' : RwbHead) × (drain h n ≡ some h') × IsQueue h' × (contents h' ≡ drop n (contents h))
unfolding drain
drain-contents h n q =
    let (cs, ends, pending, rest) =
      loop (length h.blocks + 1) h.blocks n q.all_pending (omega arith) in
    (queue cs, drain_lem h n q ∙ ends, record { counted = refl; all_pending = pending }, rest)

-- A drain of just what the head holds takes the head off.
pub drain_head :
    (b : Rwb) (bs : List Rwb) → IsBlock b → drain (queue (b ∷ bs)) (b.len - b.ptr) ≡ some (queue bs)
unfolding drain drain_loop
drain_head b bs p =
    let rounds : length (b ∷ bs) + 2 ≡ suc (suc (suc (length bs))) = omega arith in
    let left = b.len - b.ptr in
    let none_left : left - left ≡ 0 = omega arith in
    ap (λ k. drain_loop k (queue (b ∷ bs)) left) rounds
    ∙ loop_next (suc (suc (length bs))) b bs left p (omega arith)
    ∙ ap (drain_loop (suc (suc (length bs))) (queue bs)) none_left
    ∙ ground arith
