-- ===== src/Wrapper/Host.antt =====
-- `resolveHost` of the class ChannAddr of src/mnet_wrapper.h.
use m_net.Base.{
  ℕ, suc, ◌+◌, ap, ◌∙◌, ◌≡◌, ◌≤◌, ◌<◌, refl, true, false, ◌&&◌, some, List, ◌∷◌, ◌++◌, arith, ltb,
  leb, ◌==◌, All, length, length-append,
}
use m_net.Base.Int.{ℤ}
use m_net.Net.State.{Mnet}
use m_net.Net.Env.{Env}
use m_net.Net.Address.{colon, ip_size}
use m_net.Net.Address.Parse.{strchr-append, take-append_length, drop-append_one, parse-join}
use m_net.Net.Address.Resolve.{Resolver, mnet_resolve}
use m_net.Wrapper.World.{CppWorld, Program}
use m_net.Wrapper.Object.{chann_type, chann_addr, found_addr, resolved, resolve_host}

-- A text without a colon.
abbrev pub Plain : List ℕ → Type 0
Plain = All (λ x. (x == colon) ≡ false)

length_one : (xs : List ℕ) → length xs + 1 ≡ suc (length xs)
length_one xs = omega arith

module _ {V : Type 0} ⦃prog : Program V⦄ ⦃sys : Resolver (CppWorld V)⦄ ⦃env : Env (CppWorld V)⦄
    (s : Mnet (CppWorld V)) where
  chann_addr_lem :
      (t : Mnet (CppWorld V)) (ip port : List ℕ)
      → Plain ip
      → 7 ≤ length ip
      → length ip < ip_size
      → chann_addr (ip ++ colon ∷ port) t
        ≡ some (record { ip = ip; port = prog.atoi port; addr_string = ip ++ colon ∷ port }, t)
  unfolding chann_addr
  chann_addr_lem t ip port plain long short =
      let is_long : leb 7 (length ip) ≡ true = ground arith in
      let is_short : ltb (length ip) ip_size ≡ true = ground arith in
      rw (chann_addr, parse-join prog.atoi ip port plain, is_long, is_short) refl

  -- `resolveHost` of a host, a colon and a port: when `mnet_resolve` of that host, port and type
  -- finds the address `ip` with the port `p`, the result has both, and the text of both with a colon
  -- between them. Conditions: neither the host nor `ip` has a colon, the host and the type are not
  -- empty, `ip` has 7 to 16 characters, and `atoi` reads back what `sprintf` writes.
  pub resolve_host_address :
      (host port stream_type ip : List ℕ) (p : ℤ) (w : CppWorld V)
      → Plain host
      → 0 < length host
      → 0 < length stream_type
      → Plain ip
      → 7 ≤ length ip
      → length ip < ip_size
      → prog.atoi (prog.decimal p) ≡ p
      → mnet_resolve (some host) (prog.atoi port) (chann_type stream_type) true s.world
        ≡ (some (ip, p), w)
      → resolve_host (host ++ colon ∷ port) stream_type s
        ≡ some (
          record { ip = ip; port = p; addr_string = ip ++ colon ∷ prog.decimal p },
          record s { world = w },
        )
  unfolding resolve_host resolved found_addr
  resolve_host_address host port stream_type ip p w plain some_host some_type plain_ip long short
        reads found =
      let t : Mnet (CppWorld V) = record s { world = w } in
      let both : (ltb 0 (length (host ++ colon ∷ port)) && ltb 0 (length stream_type)) ≡ true =
        ground (arith, length-append host (colon ∷ port)) in
      let behind : ltb 0 (length host) ≡ true = ground arith in
      rw
        (
          both,
          strchr-append colon host port plain,
          behind,
          take-append_length host (colon ∷ port),
          length_one host,
          drop-append_one host port colon,
        )
        (ap (λ r. found_addr r s) found
          ∙ chann_addr_lem t ip (prog.decimal p) plain_ip long short
          ∙ ap
              (λ k.
                some (record { ip = ip; port = k; addr_string = ip ++ colon ∷ prog.decimal p }, t))
              reads)
