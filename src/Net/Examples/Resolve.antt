-- ===== src/Net/Examples/Resolve.antt =====
-- The theorem on `mnet_resolve` at a resolver that knows 8.8.8.8 only.
use m_net.Base.{ℕ, ◌≡◌, ◌⊎◌, refl, true, none, some, List, [], ◌∷◌, All}
use m_net.Base.Int.{pos}
use m_net.Net.State.{type_stream}
use m_net.Net.Address.Resolve.{
  Resolver, IsShort, First, with_name, with_addresses, valid_in, mnet_resolve, resolve-First,
}

-- "8.8.8.8".
abbrev eights : List ℕ
eights = 56 ∷ 46 ∷ 56 ∷ 46 ∷ 56 ∷ 46 ∷ 56 ∷ []

instance abbrev one_name : Resolver ℕ
one_name = record {
  getaddrinfo = λ host port dgram w. (some (1 ∷ []), w);
  inet_ntop = λ a. eights;
  getnameinfo = λ a w. (some eights, w);
}

refused : mnet_resolve {W = ℕ} (some (97 ∷ [])) (pos 53) type_stream true 0 ≡ (none, 0)
unfolding mnet_resolve with_addresses valid_in
refused = refl

resolve-First_example :
    (All (IsShort one_name.inet_ntop) (1 ∷ [])
      × (mnet_resolve {W = ℕ} (some (97 ∷ [])) (pos 53) type_stream true 0 ≡ (none, 0)))
    ⊎ ((a : ℕ) × First one_name.inet_ntop (1 ∷ []) a
        × (mnet_resolve {W = ℕ} (some (97 ∷ [])) (pos 53) type_stream true 0
            ≡ with_name (pos 53) (one_name.getnameinfo a 0)))
resolve-First_example = resolve-First (97 ∷ []) (pos 53) type_stream 0 0 (1 ∷ []) refl
