-- ===== src/Net/Chann/Message.antt =====
-- `_chann_msg` on a channel whose filter is the built-in one.
use m_net.Base.{◌≡◌, ap, true, some}
use m_net.Base.Int.{ℤ}
use m_net.Skiplist.{Ptr}
use m_net.Net.State.{Mnet, Chann, ChannEvent, ChannMsg, Fn, ◌>>=◌, ◌>>◌, set_heap}
use m_net.Net.State.Heap.{heap-set_self, set_heap_twice}
use m_net.Net.Env.{Env}
use m_net.Net.Ext.{call_filter}
use m_net.Net.Chann.{chann_msg}

-- The message that is stored in the channel `d` at `n`.
abbrev pub message : Ptr → Chann → ChannEvent → Ptr → ℤ → ChannMsg
message n d event r err = record { event = event; err = err; n = n; r = r; opaque = d.opaque }

abbrev pub with_message : Ptr → Chann → ChannEvent → Ptr → ℤ → Chann
with_message n d event r err = record d { msg = message n d event r err }

module _ {W : Type 0} ⦃env : Env W⦄ (n : Ptr) (t : Mnet W) (d : Chann) where
  pub chann_msg_lem :
      (event : ChannEvent) (r : Ptr) (err : ℤ)
      → (t.ext_config d.ctype).filter_fn ≡ some Fn.ext_filter_fn
      → chann_msg n event r err (set_heap t n (some d))
        ≡ some (true, set_heap t n (some (with_message n d event r err)))
  unfolding chann_msg call_filter
  chann_msg_lem event r err builtin =
      rw
        (
          heap-set_self t n (some d),
          heap-set_self (set_heap t n (some d)) n (some (with_message n d event r err)),
          builtin,
          ◌>>=◌,
          ◌>>◌,
        )
        (ap (λ u. some (true, u))
          (set_heap_twice t n (some d) (some (with_message n d event r err))))

  pub chann_msg_here :
      (event : ChannEvent) (r : Ptr) (err : ℤ)
      → t.heap n ≡ some d
      → (t.ext_config d.ctype).filter_fn ≡ some Fn.ext_filter_fn
      → chann_msg n event r err t ≡ some (true, set_heap t n (some (with_message n d event r err)))
  unfolding chann_msg call_filter
  chann_msg_here event r err there builtin =
      rw (there, heap-set_self t n (some (with_message n d event r err)), builtin, ◌>>=◌, ◌>>◌)
