-- ===== src/Net/Address.antt =====
-- Addresses: `mnet_parse_ipport`, `mnet_chann_socket_addr` and `mnet_chann_peer_addr` of
-- src/mnet_core.c. A text is the list of its characters without the final 0; `atoi` is a parameter,
-- and an address is given as numbers, not as the text that `inet_ntoa` makes of it.
pub mod Parse
pub mod Resolve
use m_net.Base.{
  ℕ, suc, Bool, ◌&&◌, Option, none, some, List, [], ◌∷◌, ◌++◌, ltb, leb, ◌==◌, if◌then◌else◌, take,
  drop, replicate,
}
use m_net.Base.Int.{ℤ, pos, leb_ℤ}
use m_net.Skiplist.{Ptr, null}
use m_net.Net.State.{M, ChannState, Addr, rank, type_stream, pure, ◌>>=◌, ◌>>◌, get, update, load}
use m_net.Net.Env.{Env}
use m_net.Net.Send.{shown_state}

-- The first place of a character: `strchr`.
unfoldable pub strchr : List ℕ → ℕ → Option ℕ
strchr [] c = none
strchr (x ∷ xs) c =
    let rest = strchr xs c in
    if x == c then some 0 else (elim rest [ none ↦ none | some i ↦ some (suc i) ])

-- ':' and "0.0.0.0".
abbrev pub colon : ℕ
colon = 58

abbrev pub any_ip : List ℕ
any_ip = 48 ∷ 46 ∷ 48 ∷ 46 ∷ 48 ∷ 46 ∷ 48 ∷ []

-- The size of the field `ip` of chann_addr_t.
abbrev pub ip_size : ℕ
ip_size = 17

-- The 16 bytes of the field `ip` that are copied; `strncpy` fills them up with 0.
abbrev pub padded_ip : List ℕ → List ℕ
padded_ip t = take 16 (t ++ replicate 16 0)

-- What a call comes to: a refusal, a write past the end of `ip`, or a host and a port.
pub data Parsed : Type 0 where
  refused overrun : Parsed
  parsed : List ℕ → ℤ → Parsed

unfoldable pub parse_ipport : (List ℕ → ℤ) → List ℕ → Parsed
parse_ipport atoi ipport = elim (strchr ipport colon) [
  | none ↦ Parsed.refused
  | some p ↦
      let port = atoi (drop (suc p) ipport) in
      if leb 7 p
      then (if ltb p ip_size then Parsed.parsed (take p ipport) port else Parsed.overrun)
      else Parsed.parsed any_ip port
]

module _ {W : Type 0} ⦃env : Env W⦄ where
  -- `addr` is false for NULL; none is the result 0.
  unfoldable pub mnet_chann_socket_addr : Ptr → Bool → M W (Option Addr)
  mnet_chann_socket_addr n addr =
      if n == null then pure none else (do c ← load n; pure (if addr then some c.addr else none))

  unfoldable pub mnet_chann_peer_addr : Ptr → Bool → M W (Option Addr)
  mnet_chann_peer_addr n out_addr = if n == null then pure none else (do
    c ← load n
    if c.ctype == type_stream
        then (do
          state ← shown_state n
          if leb_ℤ (pos (rank ChannState.connected)) state && out_addr
              then (do
                s ← get
                let (found, addr, w) = env.peer c.fd s.world
                update (λ t. record t { world = w })
                pure (if found then some addr else none))
              else pure none)
        else pure none)
