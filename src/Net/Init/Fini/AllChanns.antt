-- ===== src/Net/Init/Fini/AllChanns.antt =====
-- The channels that `mnet_fini` of src/mnet_core.c goes through, one after the other.
use m_net.Base.{ℕ, suc, ◌≡◌, ◌≢◌, refl, sym, ap, Option, some, List, [], ◌∷◌, length}
use m_net.Skiplist.{Ptr, null}
use m_net.Skiplist.Ring.{Out}
use m_net.Skiplist.Entries.{Entry}
use m_net.Net.State.{Chann, ChannTm, ExtConfig}
use m_net.Net.Chann.Channels.{Linked}
use m_net.Net.Poll.Delete.DelList.{without_timer}
use m_net.Net.Init.Fini.Channel.{IsReady}

-- A channel on the list, but for its links.
pub record Listed : Type 0 where
  pub at : Ptr
  pub chann : Chann

abbrev pub listed : List Listed → List Ptr
listed [] = []
listed (x ∷ xs) = x.at ∷ listed xs

pub length-listed : (xs : List Listed) → length (listed xs) ≡ length xs
length-listed [] = refl
length-listed (x ∷ xs) = ap suc (length-listed xs)

-- The channels are in the heap, and each can be ended once those before are gone.
abbrev pub Ready :
    (Ptr → Option Chann) → (ℕ → ExtConfig) → List Listed → List (Entry ChannTm) → Type 0
Ready h ext [] es = Unit
Ready h ext (x ∷ xs) es =
    ((p p' : Ptr) × (h x.at ≡ some (record x.chann { prev = p; next = p' })))
    × IsReady ext x.chann es
    × Ready h ext xs (without_timer x.chann es)

abbrev pub Kept : Ptr → (Ptr → Option Chann) → (Ptr → Option Chann) → Type 0
Kept n h h' =
    (q : Ptr) (d : Chann)
    → q ≢ n
    → q ≢ null
    → h q ≡ some d
    → (p p' : Ptr) × (h' q ≡ some (record d { prev = p; next = p' }))

pub Ready-Kept :
    (n : Ptr) (h h' : Ptr → Option Chann) (ext : ℕ → ExtConfig) (xs : List Listed)
    (es : List (Entry ChannTm))
    → Kept n h h'
    → Out n (listed xs)
    → Out null (listed xs)
    → Ready h ext xs es
    → Ready h' ext xs es
Ready-Kept n h h' ext [] es kept out some_at r = tt
Ready-Kept n h h' ext (x ∷ xs) es kept out some_at ((p, p', there), ready, rest) = (
  kept x.at (record x.chann { prev = p; next = p' }) (λ e. out.0 (sym e)) (λ e. some_at.0 (sym e))
      there,
  ready,
  Ready-Kept n h h' ext xs (without_timer x.chann es) kept out.1 some_at.1 rest,
)

abbrev first_of : List Ptr → Ptr
first_of [] = null
first_of (x ∷ xs) = x

pub first_Linked :
    (h : Ptr → Option Chann) (p cur : Ptr) (xs : List Ptr) → Linked h p cur xs → cur ≡ first_of xs
first_Linked h p cur [] l = l
first_Linked h p cur (x ∷ xs) l = l.0
