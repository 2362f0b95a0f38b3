-- ===== src/Net/Address/Parse.antt =====
-- `mnet_parse_ipport` on a text with a colon.
use m_net.Base.{
  ℕ, suc, ◌≡◌, refl, ap, false, some, List, [], ◌∷◌, ◌++◌, arith, ltb, leb, ◌==◌, if◌then◌else◌,
  All, length, take, drop,
}
use m_net.Base.Int.{ℤ}
use m_net.Net.Address.{strchr, colon, any_ip, ip_size, Parsed, parse_ipport}

pub strchr-append :
    (c : ℕ) (host rest : List ℕ)
    → All (λ x. (x == c) ≡ false) host
    → strchr (host ++ c ∷ rest) c ≡ some (length host)
unfolding strchr
strchr-append c [] rest h = ground arith
strchr-append c (x ∷ host) rest h = rw (h.0, strchr-append c host rest h.1) refl

pub take-append_length : (xs ys : List ℕ) → take (length xs) (xs ++ ys) ≡ xs
take-append_length [] ys = refl
take-append_length (x ∷ xs) ys = ap (λ r. x ∷ r) (take-append_length xs ys)

pub drop-append_one : (xs ys : List ℕ) (c : ℕ) → drop (suc (length xs)) (xs ++ c ∷ ys) ≡ ys
drop-append_one [] ys c = refl
drop-append_one (x ∷ xs) ys c = drop-append_one xs ys c

-- `mnet_parse_ipport` of a host, a colon and a port: a host of 7 to 16 characters is kept, a shorter
-- one is replaced by 0.0.0.0, and a longer one is written past the end of the field. Condition: the
-- host has no colon.
pub parse-join :
    (atoi : List ℕ → ℤ) (host port : List ℕ)
    → All (λ x. (x == colon) ≡ false) host
    → parse_ipport atoi (host ++ colon ∷ port) ≡ (
        if leb 7 (length host)
        then (if ltb (length host) ip_size then Parsed.parsed host (atoi port) else Parsed.overrun)
        else Parsed.parsed any_ip (atoi port))
unfolding parse_ipport
parse-join atoi host port h =
    rw
      (
        strchr-append colon host port h,
        drop-append_one host port colon,
        take-append_length host (colon ∷ port),
        parse_ipport,
      )
      refl
