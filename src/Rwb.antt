-- ===== src/Rwb.antt =====
-- The FIFO of unsent data of a channel: rwb_t, rwb_head_t and the _rwb_ functions of
-- src/mnet_core.c. The chain of blocks from `head` to `tail` is a list; `count` is kept apart, as
-- the code branches on it. `none` is a read through a null head, or fuel that has run out.
pub mod Contents
pub mod Drain
pub mod Destroy
mod Examples
use m_net.Base.{
  ℕ, zero, suc, ◌+◌, ◌-◌, ◌*◌, ◌&&◌, Option, none, some, List, [], ◌∷◌, ◌++◌, ltb, leb,
  if◌then◌else◌, drop, replicate, min_of, memcpy,
}
use m_net.Base.Int.{ℤ, pos, to_int32}

-- `rwb_t`: `ptr` bytes of `buf` are sent, `len` is its size.
pub record Rwb : Type 0 where
  pub ptr : ℕ
  pub len : ℕ
  pub buf : List ℕ

pub record RwbHead : Type 0 where
  pub blocks : List Rwb
  pub count : ℕ

-- A zeroed `rwb_head_t`.
abbrev pub empty : RwbHead
empty = record { blocks = []; count = 0 }

abbrev pub buffered : Rwb → ℕ
buffered b = b.len - b.ptr

pub rwb_new : ℕ → Rwb
rwb_new len = record { ptr = 0; len = len; buf = replicate len 0 }

-- `f` at the tail of the chain.
pub at_tail : (Rwb → Rwb) → List Rwb → List Rwb
at_tail f [] = []
at_tail f (b ∷ []) = f b ∷ []
at_tail f (b ∷ c ∷ bs) = b ∷ at_tail f (c ∷ bs)

-- With no block the new one is head and tail, otherwise it is linked behind the tail.
pub create_tail : RwbHead → ℕ → RwbHead
unfolding rwb_new
create_tail h len =
    if leb h.count 0
    then record { blocks = rwb_new len ∷ []; count = h.count + 1 }
    else record { blocks = h.blocks ++ rwb_new len ∷ []; count = h.count + 1 }

pub cache : RwbHead → List ℕ → ℕ → RwbHead
unfolding create_tail at_tail
cache h buf buf_len =
    let h' = create_tail h buf_len in
    record h' { blocks = at_tail (λ b. record b { buf = memcpy b.buf buf buf_len }) h'.blocks }

-- The head leaves the chain only when all of it is sent; the last one resets the handle.
pub destroy_head : RwbHead → Option RwbHead
destroy_head h = elim h.blocks [
  | [] ↦ none
  | b ∷ next ↦
      if leb (buffered b) 0
      then (if leb (h.count - 1) 0
          then some empty
          else some (record { blocks = next; count = h.count - 1 }))
      else some h
]

-- The unsent bytes of the head and their number.
pub drain_param : RwbHead → Option (List ℕ × ℕ)
drain_param h = elim h.blocks [ [] ↦ none | b ∷ _ ↦ some (drop b.ptr b.buf, buffered b) ]

advance_head : RwbHead → ℕ → RwbHead
advance_head h n = elim h.blocks [
  | [] ↦ h
  | b ∷ next ↦ record h { blocks = record b { ptr = b.ptr + n } ∷ next }
]

-- The loop of `_rwb_drain`, on fuel.
pub drain_loop : ℕ → RwbHead → ℕ → Option RwbHead
unfolding destroy_head advance_head drain_param
drain_loop zero h drain_len = none
drain_loop (suc fuel) h drain_len =
    if ltb 0 h.count && ltb 0 drain_len
    then (elim (drain_param h) [
      | none ↦ none
      | some (_, left) ↦
          let len = min_of drain_len left in
          elim (destroy_head (advance_head h len)) [
            | none ↦ none
            | some h' ↦ drain_loop fuel h' (drain_len - len)
          ]
    ])
    else some h

-- Each round but the last takes a block off the chain.
pub drain : RwbHead → ℕ → Option RwbHead
unfolding drain_loop
drain h drain_len = drain_loop (h.count + 2) h drain_len

-- What a number of rounds of the loop of `_rwb_destroy` comes to: a fault, the end of the loop, or the
-- queue with which the loop goes on.
pub data Rounds : Type 0 where
  faulted : Rounds
  ended : RwbHead → Rounds
  running : RwbHead → Rounds

-- So many rounds of the loop of `_rwb_destroy`: it frees only heads with nothing left to send.
pub destroy_loop : ℕ → RwbHead → Rounds
unfolding destroy_head
destroy_loop zero h = if ltb 0 h.count then Rounds.running h else Rounds.ended h
destroy_loop (suc fuel) h =
    if ltb 0 h.count
    then (elim (destroy_head h) [ none ↦ Rounds.faulted | some h' ↦ destroy_loop fuel h' ])
    else Rounds.ended h

-- `none` where the loop has a fault, and where it goes on behind `count + 1` rounds.
pub destroy : RwbHead → Option RwbHead
unfolding destroy_loop
destroy h = elim (destroy_loop (h.count + 1) h) [
  | Rounds.faulted ↦ none
  | Rounds.running _ ↦ none
  | Rounds.ended h' ↦ some h'
]

-- `mnet_chann_cached` on the queue of a channel, in an int that wraps; MNET_BUF_SIZE is 64 KiB.
abbrev pub buf_size_default : ℕ
buf_size_default = 64 * 1024

pub cached : RwbHead → ℤ
cached h =
    if ltb 0 h.count
    then (elim h.blocks [
      | [] ↦ to_int32 (pos ((h.count - 1) * buf_size_default))
      | b ∷ _ ↦ to_int32 (pos (buffered b + (h.count - 1) * buf_size_default))
    ])
    else pos 0
