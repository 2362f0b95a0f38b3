-- ===== src/Rwb/Examples.antt =====
-- Runs of the send queue, and its theorems at concrete queues.
use m_net.Base.{◌≡◌, refl, some, [], ◌∷◌, arith}
use m_net.Rwb.{
  Rwb, RwbHead, cache, create_tail, rwb_new, at_tail, destroy_head, advance_head, drain_param,
  drain, drain_loop, cached,
}
use m_net.Rwb.Contents.{contents, IsQueue, queue, contents-cache, cache-IsQueue}
use m_net.Rwb.Drain.{drain-contents}
use m_net.Rwb.Destroy.{Ends, destroy_loop-Ends}
use m_net.Base.Int.{negsuc, to_int32}

abbrev first : Rwb
first = record { ptr = 1; len = 3; buf = 10 ∷ 11 ∷ 12 ∷ [] }

abbrev second : Rwb
second = record { ptr = 0; len = 2; buf = 20 ∷ 21 ∷ [] }

abbrev both : RwbHead
both = queue (first ∷ second ∷ [])

both-IsQueue : IsQueue both
both-IsQueue = record {
  counted = refl;
  all_pending = (
    record { pending = omega arith; sized = refl },
    (record { pending = omega arith; sized = refl }, tt),
  );
}

cache_run : contents (cache both (30 ∷ 31 ∷ 32 ∷ []) 2) ≡ 11 ∷ 12 ∷ 20 ∷ 21 ∷ 30 ∷ 31 ∷ []
unfolding cache create_tail rwb_new at_tail
cache_run = refl

drain_run : drain both 3 ≡ some (queue (record second { ptr = 1 } ∷ []))
unfolding drain drain_loop destroy_head advance_head drain_param
drain_run = refl

contents-cache_example :
    contents (cache both (30 ∷ 31 ∷ 32 ∷ []) 2) ≡ 11 ∷ 12 ∷ 20 ∷ 21 ∷ 30 ∷ 31 ∷ []
contents-cache_example = contents-cache both (30 ∷ 31 ∷ 32 ∷ []) 2 both-IsQueue

cache-IsQueue_example : IsQueue (cache both (30 ∷ 31 ∷ 32 ∷ []) 2)
cache-IsQueue_example =
    cache-IsQueue both (30 ∷ 31 ∷ 32 ∷ []) 2 both-IsQueue (omega arith) (omega arith)

drain-contents_example :
    (h' : RwbHead) × (drain both 3 ≡ some h') × IsQueue h' × (contents h' ≡ 21 ∷ [])
drain-contents_example = drain-contents both 3 both-IsQueue

destroy_loop-Ends_example : Ends both 1000
destroy_loop-Ends_example = destroy_loop-Ends both 1000 both-IsQueue

-- 32769 blocks are more than an int holds.
cached_test : cached (record { blocks = second ∷ []; count = 32769 }) ≡ negsuc 2147483645
unfolding cached to_int32
cached_test = refl
