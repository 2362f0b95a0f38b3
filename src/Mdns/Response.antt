-- ===== src/Mdns/Response.antt =====
-- The answer of extension/mdns/mdns.c: `_response_check_header`, `_response_check_question`,
-- `_response_fetch_res`, `mdns_response_fetch_qid` and `mdns_response_parse`. A read past the end of
-- the buffer is `none`.
use m_net.Base.{
  ℕ, zero, suc, ◌+◌, ◌*◌, ◌/◌, ◌%◌, ◌&&◌, ◌||◌, not, Bool, true, false, Option, none, some, List,
  [], ◌∷◌, ltb, leb, ◌==◌, if◌then◌else◌, take, drop, length,
}
use m_net.Base.Int.{ℤ, pos, negsuc, ltb_ℤ, leb_ℤ}
use m_net.Mdns.{construct_domain_field, header_size}

infixl 5 ◌>>=◌
abbrev ◌>>=◌ : {A B : Type 0} → Option A → (A → Option B) → Option B
◌>>=◌ none f = none
◌>>=◌ (some a) f = f a

-- `buf[i]`, and a number of two bytes in network order.
unfoldable pub byte : List ℕ → ℕ → Option ℕ
byte [] i = none
byte (x ∷ xs) zero = some x
byte (x ∷ xs) (suc i) = byte xs i

unfoldable pub word : List ℕ → ℕ → Option ℕ
word buf i = do high ← byte buf i; low ← byte buf (i + 1); some (high * 256 + low)

-- `strlen`: the place of the first 0.
unfoldable pub strlen : List ℕ → Option ℕ
strlen [] = none
strlen (x ∷ xs) =
    let rest = strlen xs in
    if x == 0 then some 0 else (elim rest [ none ↦ none | some k ↦ some (suc k) ])

-- Whether `strncmp` finds no difference in the first `k` bytes.
unfoldable pub same_prefix : ℕ → List ℕ → List ℕ → Option Bool
same_prefix zero xs ys = some true
same_prefix (suc k) [] ys = none
same_prefix (suc k) (x ∷ xs) [] = none
same_prefix (suc k) (x ∷ xs) (y ∷ ys) =
    let rest = same_prefix k xs ys in
    if x == y then (if x == 0 then some true else rest) else some false

unfoldable pub response_check_header : List ℕ → Option ℤ
response_check_header buf = do
  flags ← byte buf 2
  codes ← byte buf 3
  qdcount ← word buf 4
  ancount ← word buf 6
  let rcode = codes % 16
  if not (flags / 128 == 1)
        || not (flags / 8 % 16 == 0)
        || not (flags % 2 == 1)
        || not (codes / 16 % 8 == 0)
        || not (qdcount == 1)
        || (ancount == 0 && rcode == 0)
        || leb 6 rcode
      then some (negsuc 9)
      else (if leb 1 rcode then some (negsuc (9 + rcode)) else some (pos 1))

-- `stack` is what the local buffer holds before. A name that is refused is compared all the same.
unfoldable pub response_check_question : List ℕ → List ℕ → List ℕ → Option ℤ
response_check_question stack buf domain = do
  (size, name) ← construct_domain_field stack domain
  same ← same_prefix (length domain) (drop header_size buf) name
  some (if same then pos 1 else negsuc 22)

-- The size of the fixed part of a record.
abbrev pub rr_size : ℕ
rr_size = 10

-- The loop over the records, `k` to go.
unfoldable pub fetch_loop : ℕ → List ℕ → ℕ → ℕ → Option (ℤ × List ℕ)
fetch_loop zero buf content_len prev_size = some (negsuc 33, [])
fetch_loop (suc k) buf content_len prev_size =
    if leb content_len (prev_size + 2 + header_size) then some (negsuc 30, []) else (do
      aname_size ← strlen (drop prev_size buf)
      if ltb aname_size 2 || leb content_len (prev_size + aname_size + rr_size)
          then some (negsuc 31, [])
          else (do
            type ← word buf (prev_size + aname_size)
            class ← word buf (prev_size + aname_size + 2)
            rdlen ← word buf (prev_size + aname_size + 8)
            let offset = prev_size + aname_size + rr_size
            let rest = fetch_loop k buf content_len (offset + rdlen)
            if ltb content_len (offset + rdlen)
                then some (negsuc 32, [])
                else (if class == 1 && (type == 1 || type == 12)
                    then (if leb (offset + 4) (length buf)
                        then some (pos 1, take 4 (drop offset buf))
                        else none)
                    else rest)))

unfoldable pub response_fetch_res : List ℕ → ℕ → ℕ → Option (ℤ × List ℕ)
response_fetch_res buf content_len query_size = do
  ancount ← word buf 6
  fetch_loop ancount buf content_len query_size

unfoldable pub response_fetch_qid : List ℕ → Option ℕ
response_fetch_qid buf = do low ← byte buf 0; high ← byte buf 1; some (high * 256 + low)

-- The result and the bytes that are stored in `out_ipv4`. All three checks are made.
unfoldable pub response_parse : List ℕ → List ℕ → ℕ → ℕ → List ℕ → Option (ℤ × List ℕ)
response_parse stack buf content_len query_size domain =
    if leb content_len 0 || leb query_size 0 then some (pos 0, []) else (do
      header ← response_check_header buf
      question ← response_check_question stack buf domain
      (res, ipv4) ← response_fetch_res buf content_len query_size
      some (
        if ltb_ℤ (pos 0) header && ltb_ℤ (pos 0) question && ltb_ℤ (pos 0) res
            then pos 1
            else (if leb_ℤ header (pos 0)
                then header
                else (if leb_ℤ question (pos 0) then question else res)),
        ipv4,
      ))
