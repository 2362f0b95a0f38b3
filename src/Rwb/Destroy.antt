-- ===== src/Rwb/Destroy.antt =====
-- `_rwb_destroy` on a well-formed queue.
use m_net.Base.{
  ℕ, zero, suc, ◌+◌, ◌<◌, ◌⊎◌, inl, inr, some-none, ◌≡◌, ◌≢◌, ◌↔◌, refl, sym, subst, ap, leb, true,
  ◌∙◌, none, some, List, [], ◌∷◌, arith, All, length, drop, length-drop, length-append,
}
use m_net.Rwb.{Rwb, RwbHead, Rounds, empty, destroy_loop, destroy}
use m_net.Rwb.Contents.{unsent, contents, IsBlock, IsQueue, queue, queue_lem}

destroy_loop_pending :
    (fuel : ℕ) (b : Rwb) (bs : List Rwb)
    → IsBlock b
    → destroy_loop fuel (queue (b ∷ bs)) ≡ Rounds.running (queue (b ∷ bs))
unfolding destroy_loop
destroy_loop_pending zero b bs p = ground arith
destroy_loop_pending (suc fuel) b bs p = ground (arith, destroy_loop_pending fuel b bs p)

length-unsent_pos : (b : Rwb) (bs : List Rwb) → IsBlock b → 0 < length (unsent (b ∷ bs))
length-unsent_pos b bs p = omega (
  arith,
  length-append (drop b.ptr b.buf) (unsent bs),
  length-drop b.ptr b.buf,
  p.sized,
  p.pending,
)

destroy_loop_empty : (fuel : ℕ) → destroy_loop fuel empty ≡ Rounds.ended empty
unfolding destroy_loop
destroy_loop_empty zero = refl
destroy_loop_empty (suc fuel) = refl

-- Any number of rounds of the loop ends with the empty queue, or leaves the queue as it is.
abbrev pub Ends : RwbHead → ℕ → Type 0
Ends h fuel =
    ((contents h ≡ []) × (destroy_loop fuel h ≡ Rounds.ended empty))
    ⊎ ((contents h ≢ []) × (destroy_loop fuel h ≡ Rounds.running h))

rounds_queue : (bs : List Rwb) (fuel : ℕ) → All IsBlock bs → Ends (queue bs) fuel
rounds_queue [] fuel p = inl (refl, destroy_loop_empty fuel)
rounds_queue (b ∷ bs) fuel p = inr (
  λ e. omega (arith, length-unsent_pos b bs p.0, ap length e),
  destroy_loop_pending fuel b bs p.0,
)

-- The loop of `_rwb_destroy` on a well-formed queue: if every cached byte is sent it has ended with
-- the empty queue, and otherwise it still runs after any number of rounds, without a fault, and with
-- the queue as it was, so it never ends.
pub destroy_loop-Ends : (h : RwbHead) (fuel : ℕ) → IsQueue h → Ends h fuel
destroy_loop-Ends h fuel q =
    subst (λ k. Ends k fuel) (sym (queue_lem h q)) (rounds_queue h.blocks fuel q.all_pending)

pub destroy_loop_runs :
    (h : RwbHead)
    → IsQueue h
    → contents h ≢ []
    → (fuel : ℕ) → destroy_loop fuel h ≡ Rounds.running h
destroy_loop_runs h q some_left fuel = elim (destroy_loop-Ends h fuel q) [
  | inl (sent, ends) ↦ absurd (some_left sent)
  | inr (left, runs) ↦ runs
]

stuck :
    (bs : List Rwb)
    → destroy (queue bs) ≡ some empty
    → destroy_loop (length bs + 1) (queue bs) ≡ Rounds.running (queue bs)
    → ⊥
unfolding destroy
stuck bs ends runs =
    let r : destroy (queue bs) ≡ none = rw (destroy, runs) refl in some-none (sym ends ∙ r)

destroy_cases :
    (bs : List Rwb) → All IsBlock bs → (destroy (queue bs) ≡ some empty) ↔ (unsent bs ≡ [])
unfolding destroy destroy_loop
destroy_cases [] p = (λ _. refl, λ _. refl)
destroy_cases (b ∷ bs) p = (
  λ ends. absurd (stuck (b ∷ bs) ends (destroy_loop_pending (length (b ∷ bs) + 1) b bs p.0)),
  λ e. absurd (omega (arith, length-unsent_pos b bs p.0, ap length e)),
)

-- On a well-formed queue `_rwb_destroy` ends exactly when every cached byte is sent, and then the queue is the empty one.
pub destroy_ends_iff : (h : RwbHead) → IsQueue h → (destroy h ≡ some empty) ↔ (contents h ≡ [])
destroy_ends_iff h q =
    subst (λ k. (destroy k ≡ some empty) ↔ (contents h ≡ [])) (sym (queue_lem h q))
      (destroy_cases h.blocks q.all_pending)

-- `_rwb_destroy` has no result while a byte is unsent.
pub destroy-none : (h : RwbHead) → IsQueue h → contents h ≢ [] → destroy h ≡ none
unfolding destroy
destroy-none h q some_left = rw (destroy, destroy_loop_runs h q some_left (h.count + 1)) refl

count_queue : (bs : List Rwb) → All IsBlock bs → (leb (length bs) 0 ≡ true) ↔ (unsent bs ≡ [])
count_queue [] p = (λ _. refl, λ _. refl)
count_queue (b ∷ bs) p = (
  λ e. absurd (ground (arith, e)),
  λ e. absurd (omega (arith, length-unsent_pos b bs p.0, ap length e)),
)

pub count-zero_iff : (h : RwbHead) → IsQueue h → (leb h.count 0 ≡ true) ↔ (contents h ≡ [])
count-zero_iff h q =
    subst (λ k. (leb k.count 0 ≡ true) ↔ (contents h ≡ [])) (sym (queue_lem h q))
      (count_queue h.blocks q.all_pending)
