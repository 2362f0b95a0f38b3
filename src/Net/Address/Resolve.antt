-- ===== src/Net/Address/Resolve.antt =====
-- `mnet_resolve` of src/mnet_core.c. The resolver of the system is a parameter; an address is a
-- number, and a text is the list of its characters.
use m_net.Base.{
  ℕ, ◌<◌, ◌≤◌, ◌≡◌, refl, ap, ◌∙◌, ◌||◌, ◌⊎◌, inl, inr, Bool, true, false, Option, none, some, List,
  [], ◌∷◌, ◌++◌, arith, ltb, ◌==◌, if◌then◌else◌, All, Bool-cases, length,
}
use m_net.Base.Int.{ℤ, pos, ltb_ℤ}
use m_net.Net.State.{type_dgram, type_broadcast}

-- getaddrinfo of a host, a port if it is given, and for datagrams or a stream: the addresses, or none
-- on an error; inet_ntop; and getnameinfo, numeric.
pub record Resolver (W : Type 0) : Type 0 where
  pub getaddrinfo : List ℕ → Option ℤ → Bool → W → Option (List ℕ) × W
  pub inet_ntop : ℕ → List ℕ
  pub getnameinfo : ℕ → W → Option (List ℕ) × W

-- The loop over the addresses: the first whose text is longer than that of 0.0.0.0.
unfoldable pub valid_in : (ℕ → List ℕ) → List ℕ → Option ℕ
valid_in ntop [] = none
valid_in ntop (a ∷ as') =
    let rest = valid_in ntop as' in if ltb 7 (length (ntop a)) then some a else rest

module _ {W : Type 0} ⦃sys : Resolver W⦄ where
  -- The part behind getaddrinfo, and that behind getnameinfo.
  abbrev pub with_name : ℤ → Option (List ℕ) × W → Option (List ℕ × ℤ) × W
  with_name port (none, w) = (none, w)
  with_name port (some ip, w) = (some (ip, port), w)

  unfoldable pub with_addresses : ℤ → Option (List ℕ) × W → Option (List ℕ × ℤ) × W
  with_addresses port (none, w) = (none, w)
  with_addresses port (some ai, w) = elim (valid_in sys.inet_ntop ai) [
    | none ↦ (none, w)
    | some a ↦ with_name port (sys.getnameinfo a w)
  ]

  -- `addr` is false for NULL; none is the result 0.
  unfoldable pub mnet_resolve : Option (List ℕ) → ℤ → ℕ → Bool → W → Option (List ℕ × ℤ) × W
  mnet_resolve none port ctype addr w = (none, w)
  mnet_resolve (some host) port ctype false w = (none, w)
  mnet_resolve (some host) port ctype true w =
      let dgram = (ctype == type_dgram) || (ctype == type_broadcast) in
      let given = if ltb_ℤ (pos 0) port then some port else none in
      with_addresses port (sys.getaddrinfo host given dgram w)

-- The text of an address is no longer than "0.0.0.0".
abbrev pub IsShort : (ℕ → List ℕ) → ℕ → Type 0
IsShort ntop a = length (ntop a) ≤ 7

abbrev pub First : (ℕ → List ℕ) → List ℕ → ℕ → Type 0
First ntop ai a =
    (before : List ℕ) × (after : List ℕ) × (ai ≡ before ++ a ∷ after)
    × All (IsShort ntop) before
    × (7 < length (ntop a))

valid_in-cases :
    (ntop : ℕ → List ℕ) (ai : List ℕ)
    → ((valid_in ntop ai ≡ none) × All (IsShort ntop) ai)
      ⊎ ((a : ℕ) × (valid_in ntop ai ≡ some a) × First ntop ai a)
unfolding valid_in
valid_in-cases ntop [] = inl (refl, tt)
valid_in-cases ntop (a ∷ ai) = elim (Bool-cases (ltb 7 (length (ntop a)))) [
  | inl long ↦ inr (a, rw long refl, ([], ai, refl, tt, ground (arith, long)))
  | inr short ↦
      let is_short : IsShort ntop a = ground (arith, short) in
      elim (valid_in-cases ntop ai) [
        | inl (e, all) ↦ inl (rw short e, (is_short, all))
        | inr (b, e, (before, after, parts, all, long)) ↦
            inr (b, rw short e, (a ∷ before, after, ap (λ r. a ∷ r) parts, (is_short, all), long))
      ]
]

module _ {W : Type 0} ⦃sys : Resolver W⦄ where
  -- When the resolver of the system finds addresses, `mnet_resolve` succeeds exactly with the name of
  -- the first one whose text has more than 7 characters, and with the port that was asked for. It
  -- passes over every address with a text of 7 characters, such as 8.8.8.8, and refuses when there is
  -- no other.
  pub resolve-First :
      (host : List ℕ) (port : ℤ) (ctype : ℕ) (w w' : W) (ai : List ℕ)
      → sys.getaddrinfo host
          (if ltb_ℤ (pos 0) port then some port else none)
          ((ctype == type_dgram) || (ctype == type_broadcast))
          w
        ≡ (some ai, w')
      → (All (IsShort sys.inet_ntop) ai × (mnet_resolve (some host) port ctype true w ≡ (none, w')))
        ⊎ ((a : ℕ) × First sys.inet_ntop ai a
            × (mnet_resolve (some host) port ctype true w ≡ with_name port (sys.getnameinfo a w')))
  unfolding mnet_resolve with_addresses
  resolve-First host port ctype w w' ai found = elim (valid_in-cases sys.inet_ntop ai) [
    | inl (e, all) ↦ inl (all, ap (with_addresses port) found ∙ rw (with_addresses, e) refl)
    | inr (a, e, first) ↦
        inr (a, first, ap (with_addresses port) found ∙ rw (with_addresses, e) refl)
  ]
