-- ===== src/Mdns/Query.antt =====
-- `mdns_query_build` read back: the id by `mdns_response_fetch_qid`, the name by a reader of names.
use m_net.Base.{
  ℕ, zero, suc, ◌+◌, ◌-◌, ◌%◌, ◌≤◌, ◌<◌, ◌≡◌, refl, sym, ap, ◌∙◌, true, false, Option, none, some,
  List, [], ◌∷◌, ◌++◌, append_assoc, append-nil, arith, leb, ◌==◌, if◌then◌else◌, All, length, take,
  drop, replicate, length-append, length-replicate,
}
use m_net.Base.Int.{pos}
use m_net.Mdns.{
  dot_char, domain_len, buf_size, header_size, store, query_header, query_question, query_build,
}
use m_net.Mdns.Name.{IsLabel, dotted, encode, construct-encode}
use m_net.Mdns.Response.{byte, response_fetch_qid}

-- The labels of a name in a message, up to the empty one.
pub labels : ℕ → List ℕ → Option (List (List ℕ))
labels zero bs = none
labels (suc fuel) [] = none
labels (suc fuel) (k ∷ bs) =
    let rest = labels fuel (drop k bs) in
    if k == 0
    then some []
    else (if leb k (length bs)
        then elim rest [ none ↦ none | some ls ↦ some (take k bs ∷ ls) ]
        else none)

abbrev zeros : ℕ → List ℕ
zeros n = replicate n 0

take-append_length : (xs ys : List ℕ) → take (length xs) (xs ++ ys) ≡ xs
take-append_length [] ys = refl
take-append_length (x ∷ xs) ys = ap (λ r. x ∷ r) (take-append_length xs ys)

drop-append_length : (xs ys : List ℕ) → drop (length xs) (xs ++ ys) ≡ ys
drop-append_length [] ys = refl
drop-append_length (x ∷ xs) ys = drop-append_length xs ys

drop-append_add : (k : ℕ) (xs ys : List ℕ) → drop (length xs + k) (xs ++ ys) ≡ drop k ys
drop-append_add k [] ys = ap (λ m. drop m ys) (omega arith)
drop-append_add k (x ∷ xs) ys =
    ap (λ m. drop m (x ∷ (xs ++ ys)))
      (let e : suc (length xs) + k ≡ suc (length xs + k) = omega arith in e)
    ∙ drop-append_add k xs ys

take-append_add : (k : ℕ) (xs ys : List ℕ) → take (length xs + k) (xs ++ ys) ≡ xs ++ take k ys
take-append_add k [] ys = ap (λ m. take m ys) (omega arith)
take-append_add k (x ∷ xs) ys =
    ap (λ m. take m (x ∷ (xs ++ ys)))
      (let e : suc (length xs) + k ≡ suc (length xs + k) = omega arith in e)
    ∙ ap (λ r. x ∷ r) (take-append_add k xs ys)

take-replicate : (k n : ℕ) → k ≤ n → take k (zeros n) ≡ zeros k
take-replicate zero n h = refl
take-replicate (suc k) zero h = absurd (omega arith)
take-replicate (suc k) (suc n) h = ap (λ r. 0 ∷ r) (take-replicate k n (omega arith))

drop-replicate : (k n : ℕ) → drop k (zeros n) ≡ zeros (n - k)
drop-replicate zero n = ap (λ m. zeros m) (omega arith)
drop-replicate (suc k) zero =
    let none_left : zero - suc k ≡ zero = omega arith in ap zeros (sym none_left)
drop-replicate (suc k) (suc n) = drop-replicate k n ∙ ap (λ m. zeros m) (omega arith)

-- A write into the zeros behind what is written, `j` zeros further.
store-zeros :
    (p q : List ℕ) (k j at : ℕ)
    → at ≡ length p + j
    → j + length q ≤ k
    → store (p ++ zeros k) at q ≡ ((p ++ zeros j) ++ q) ++ zeros (k - (j + length q))
store-zeros p q k j at e room =
    let past : at + length q ≡ length p + (j + length q) = omega arith in
    ap (λ m. take m (p ++ zeros k) ++ q ++ drop (m + length q) (p ++ zeros k)) e
    ∙ ap (λ r. r ++ q ++ drop (length p + j + length q) (p ++ zeros k))
        (take-append_add j p (zeros k) ∙ ap (λ r. p ++ r) (take-replicate j k (omega arith)))
    ∙ ap (λ m. ((p ++ zeros j) ++ q) ++ drop m (p ++ zeros k)) (omega (arith, past))
    ∙ ap (λ r. ((p ++ zeros j) ++ q) ++ r)
        (drop-append_add (j + length q) p (zeros k) ∙ drop-replicate (j + length q) k)

length-encode :
    (l : List ℕ) (ls : List (List ℕ)) → length (encode l ls) ≡ suc (length (dotted l ls))
length-encode l [] = refl
length-encode l (m ∷ ls) = omega (
  arith,
  length-append (length l ∷ l) (encode m ls),
  length-append l (dot_char ∷ dotted m ls),
  length-encode m ls,
)

-- The reader takes an encoded name apart, whatever follows it.
labels-encode :
    (fuel : ℕ) (l : List ℕ) (ls : List (List ℕ)) (rest : List ℕ)
    → IsLabel l
    → All IsLabel ls
    → length ls + 1 < fuel
    → labels fuel (encode l ls ++ 0 ∷ rest) ≡ some (l ∷ ls)
unfolding labels
labels-encode zero l ls rest h hs low = absurd (omega arith)
labels-encode (suc zero) l ls rest h hs low = absurd (omega arith)
labels-encode (suc (suc fuel)) l [] rest h hs low =
    let some_char : (length l == 0) ≡ false = ground (arith, h.some_char) in
    let room : leb (length l) (length (l ++ 0 ∷ rest)) ≡ true =
      ground (arith, length-append l (0 ∷ rest)) in
    rw (some_char, room, drop-append_length l (0 ∷ rest), take-append_length l (0 ∷ rest)) refl
labels-encode (suc (suc fuel)) l (m ∷ ls) rest h hs low =
    let tail = encode m ls ++ 0 ∷ rest in
    let split : (l ++ encode m ls) ++ 0 ∷ rest ≡ l ++ tail =
      append_assoc l (encode m ls) (0 ∷ rest) in
    let some_char : (length l == 0) ≡ false = ground (arith, h.some_char) in
    let room : leb (length l) (length (l ++ tail)) ≡ true = ground (arith, length-append l tail) in
    rw
      (
        split,
        some_char,
        room,
        drop-append_length l tail,
        labels-encode (suc fuel) m ls rest hs.0 hs.1 (omega arith),
        split,
        take-append_length l tail,
      )
      refl

-- The buffer of a query for the encoded name `e`.
abbrev query_buf : ℕ → List ℕ → List ℕ
query_buf qid e =
    (((query_header qid ++ e) ++ zeros 1) ++ query_question)
    ++ zeros (1012 - (0 + length e) - (1 + 4))

stored_query :
    (qid k : ℕ) (e tail : List ℕ)
    → length e ≡ k
    → k < 256
    → store
        (store (store (zeros buf_size) 0 (query_header qid)) header_size (take k (e ++ tail)))
        (header_size + k + 1)
        query_question
      ≡ query_buf qid e
stored_query qid k e tail size low =
    let header = query_header qid in
    let left = 1012 - (0 + length e) in
    let at = header_size + k + 1 in
    let name_taken : take k (e ++ tail) ≡ e =
      ap (λ i. take i (e ++ tail)) (sym size) ∙ take-append_length e tail in
    ap (λ b. store (store b header_size (take k (e ++ tail))) at query_question)
      (store-zeros [] header buf_size 0 0 refl (omega arith))
    ∙ ap (λ b. store (store (header ++ zeros 1012) header_size b) at query_question) name_taken
    ∙ ap (λ b. store b at query_question)
        (store-zeros header e 1012 0 header_size refl (omega (arith, size))
          ∙ ap (λ p. (p ++ e) ++ zeros left) (append-nil header))
    ∙ store-zeros (header ++ e) query_question left 1 at
        (omega (arith, length-append header e, size)) (omega (arith, size))

length-query_buf : (qid : ℕ) (e : List ℕ) → length e < 256 → length (query_buf qid e) ≡ buf_size
length-query_buf qid e low =
    let header = query_header qid in
    let rest = 1012 - (0 + length e) - (1 + 4) in
    omega (
      arith,
      length-append ((header ++ e) ++ zeros 1) query_question,
      length-append (((header ++ e) ++ zeros 1) ++ query_question) (zeros rest),
      length-append (header ++ e) (zeros 1),
      length-append header e,
      length-replicate rest (let z : ℕ = 0 in z),
    )

-- `mdns_query_build` of a domain of two labels or more, of at most 254 characters in all, with an id
-- from 1 to 65535: the result is the size of header, name and question, the buffer has its 1024
-- bytes, `mdns_response_fetch_qid` reads the id back, and the name behind the header reads back as
-- the labels of the domain.
pub query_build-labels :
    (qid : ℕ) (l m : List ℕ) (ls : List (List ℕ))
    → 0 < qid
    → qid < 65536
    → IsLabel l
    → All IsLabel (m ∷ ls)
    → length (dotted l (m ∷ ls)) < 255
    → (buf : List ℕ) × (query_build qid (dotted l (m ∷ ls))
        ≡ some (pos (length (dotted l (m ∷ ls)) + 18), buf))
      × (length buf ≡ buf_size)
      × (response_fetch_qid buf ≡ some qid)
      × (labels (length ls + 4) (drop header_size buf) ≡ some (l ∷ m ∷ ls))
unfolding query_build response_fetch_qid byte
query_build-labels qid l m ls some_id low_id h hs short =
    let n = length (dotted l (m ∷ ls)) in
    let e = encode l (m ∷ ls) in
    let size : length e ≡ n + 1 = omega (arith, length-encode l (m ∷ ls)) in
    let rest = zeros (1012 - (0 + length e) - (1 + 4)) in
    let id_given : leb qid 0 ≡ false = ground arith in
    let not_cut : (n + 1) % 256 ≡ n + 1 = omega arith in
    let not_refused : leb (n + 1) 0 ≡ false = ground arith in
    let total : header_size + (n + 1) + 1 + 4 ≡ n + 18 = omega arith in
    (
      query_buf qid e,
      rw
          (
            id_given,
            construct-encode (zeros domain_len) l m ls refl h hs (omega arith),
            not_cut,
            not_refused,
          )
          (ap (λ b. some (pos (header_size + (n + 1) + 1 + 4), b))
              (stored_query qid (n + 1) e (drop (n + 1) (zeros domain_len)) size (omega arith))
            ∙ ap (λ k. some (pos k, query_buf qid e)) total),
      length-query_buf qid e (omega (arith, size)),
      ap some (omega arith),
      ap (labels (length ls + 4)) (
            append_assoc (e ++ zeros 1) query_question rest
            ∙ append_assoc e (zeros 1) (query_question ++ rest))
          ∙ labels-encode (length ls + 4) l (m ∷ ls) (query_question ++ rest) h hs (omega arith),
    )
