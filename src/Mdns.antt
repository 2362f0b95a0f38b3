-- ===== src/Mdns.antt =====
-- The query of extension/mdns/mdns.c: `_get_label_len`, `_construct_domain_field` and
-- `mdns_query_build`. A text is the list of its characters without the final 0, a buffer the list
-- of its bytes; a write past its end is `none`. Bit fields are laid out as on a little-endian
-- machine.
pub mod Response
pub mod Name
pub mod Query
mod Examples
use m_net.Base.{
  ℕ, zero, suc, ◌+◌, ◌-◌, ◌/◌, ◌%◌, ◌||◌, Bool, true, false, Option, none, some, List, [], ◌∷◌,
  ◌++◌, ltb, leb, ◌==◌, if◌then◌else◌, take, drop, length, replicate,
}
use m_net.Base.Int.{ℤ, pos, negsuc}

abbrev pub dot_char : ℕ
dot_char = 46

abbrev pub header_size : ℕ
header_size = 12

abbrev pub buf_size : ℕ
buf_size = 1024

abbrev pub domain_len : ℕ
domain_len = 256

-- `buf[i] = v`.
unfoldable pub store_byte : List ℕ → ℕ → ℕ → Option (List ℕ)
store_byte [] i v = none
store_byte (x ∷ xs) zero v = some (v ∷ xs)
store_byte (x ∷ xs) (suc i) v = elim (store_byte xs i v) [ none ↦ none | some ys ↦ some (x ∷ ys) ]

-- `memcpy(buf + at, bs, length)`, inside the buffer.
abbrev pub store : List ℕ → ℕ → List ℕ → List ℕ
store buf at bs = take at buf ++ bs ++ drop (at + length bs) buf

-- What the loop over the domain comes to: a write past the end, a label that is empty or too long,
-- or the values of `i`, `j` and `dot` at its end. The buffer is kept in each case.
pub data Field : Type 0 where
  overrun : Field
  rejected : List ℕ → Field
  ended : ℕ → ℕ → ℕ → List ℕ → Field

-- Whether a label may have this length.
abbrev pub is_label_len : ℕ → Bool
is_label_len llen = if ltb 63 llen || leb llen 0 then false else true

unfoldable pub construct_loop : List ℕ → ℕ → ℕ → ℕ → List ℕ → Field
construct_loop [] i j dot buf = Field.ended i j dot buf
construct_loop (c ∷ cs) i j dot buf =
    if ltb i domain_len
    then (if c == dot_char
        then (if is_label_len (i - j)
            then elim (store_byte buf j (i - j)) [
              | none ↦ Field.overrun
              | some buf' ↦ construct_loop cs (i + 1) (i + 1) (dot + 1) buf'
            ]
            else Field.rejected buf)
        else elim (store_byte buf (i + 1) c) [
          | none ↦ Field.overrun
          | some buf' ↦ construct_loop cs (i + 1) j dot buf'
        ])
    else Field.ended i j dot buf

-- The size of the name, 0 if it is refused, and the buffer; it begins with a dot.
unfoldable pub construct_domain_field : List ℕ → List ℕ → Option (ℕ × List ℕ)
construct_domain_field buf domain = elim (store_byte buf 0 dot_char) [
  | none ↦ none
  | some start ↦ elim (construct_loop domain 0 0 0 start) [
    | Field.overrun ↦ none
    | Field.rejected buf' ↦ some (0, buf')
    | Field.ended i j dot buf' ↦
        if is_label_len (i - j)
        then (elim (store_byte buf' j (i - j)) [
          | none ↦ none
          | some last ↦ some (if ltb dot 1 || ltb 255 i then 0 else i + 1, last)
        ])
        else some (0, buf')
  ]
]

-- The header of a query: recursion desired, one question.
abbrev pub query_header : ℕ → List ℕ
query_header qid = (qid % 256) ∷ (qid / 256) ∷ 1 ∷ 0 ∷ 0 ∷ 1 ∷ 0 ∷ 0 ∷ 0 ∷ 0 ∷ 0 ∷ 0 ∷ []

-- The question: an address of the internet.
abbrev pub query_question : List ℕ
query_question = 0 ∷ 1 ∷ 0 ∷ 1 ∷ []

-- The result and the buffer of 1024 bytes. The size of the name is cut to a byte.
unfoldable pub query_build : ℕ → List ℕ → Option (ℤ × List ℕ)
query_build qid domain =
    if leb qid 0
    then some (negsuc 0, [])
    else (elim (construct_domain_field (replicate domain_len 0) domain) [
      | none ↦ none
      | some (size, name) ↦
          let dlen = size % 256 in
          if leb dlen 0
          then some (negsuc 1, [])
          else (let named =
                store (store (replicate buf_size 0) 0 (query_header qid)) header_size
                  (take dlen name) in
              some (
                pos (header_size + dlen + 1 + 4),
                store named (header_size + dlen + 1) query_question,
              ))
    ])
