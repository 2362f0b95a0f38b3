-- ===== src/Mdns/Examples.antt =====
-- Runs of the query and of the parser of an answer, and the theorem on names at a concrete domain.
use m_net.Base.{ℕ, ◌+◌, length, ◌≡◌, refl, some, List, [], ◌∷◌, ◌++◌, arith, drop, replicate}
use m_net.Base.Int.{pos}
use m_net.Mdns.{buf_size, header_size, query_build, domain_len, construct_domain_field}
use m_net.Mdns.Response.{response_fetch_qid}
use m_net.Mdns.Query.{labels, query_build-labels}
use m_net.Mdns.Name.{IsLabel, dotted, encode, construct-encode}

-- "foo" and "org".
abbrev foo : List ℕ
foo = 102 ∷ 111 ∷ 111 ∷ []

abbrev org : List ℕ
org = 111 ∷ 114 ∷ 103 ∷ []

foo-IsLabel : IsLabel foo
foo-IsLabel = record {
  some_char = omega arith;
  short = omega arith;
  plain = (refl, (refl, (refl, tt)));
}

org-IsLabel : IsLabel org
org-IsLabel = record {
  some_char = omega arith;
  short = omega arith;
  plain = (refl, (refl, (refl, tt)));
}

construct-encode_example :
    construct_domain_field (replicate domain_len 0) (dotted foo (org ∷ []))
    ≡ some (8, encode foo (org ∷ []) ++ drop 8 (replicate domain_len 0))
construct-encode_example =
    construct-encode (replicate domain_len 0) foo org [] refl foo-IsLabel (org-IsLabel, tt)
      (omega arith)

abbrev no_more : List (List ℕ)
no_more = []

query_build-labels_example :
    (buf : List ℕ) × (query_build 7 (dotted foo (org ∷ []))
      ≡ some (pos (length (dotted foo (org ∷ [])) + 18), buf))
    × (length buf ≡ buf_size)
    × (response_fetch_qid buf ≡ some 7)
    × (labels (length no_more + 4) (drop header_size buf) ≡ some (foo ∷ org ∷ []))
query_build-labels_example =
    query_build-labels 7 foo org [] (omega arith) (omega arith) foo-IsLabel (org-IsLabel, tt)
      (omega arith)
