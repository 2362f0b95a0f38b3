-- ===== src/Mdns/Name.antt =====
-- `_construct_domain_field` of extension/mdns/mdns.c against the encoding of names in DNS.
use m_net.Base.{
  ℕ, zero, suc, ◌+◌, ◌-◌, ◌≤◌, ◌<◌, ◌≡◌, refl, sym, ap, ◌∙◌, subst, true, false, some, List, [],
  ◌∷◌, ◌++◌, ◌||◌, append_assoc, append-nil, arith, ltb, ◌==◌, All, length, drop, length-append,
  length-drop, drop-drop,
}
use m_net.Mdns.{
  dot_char, domain_len, Field, is_label_len, store_byte, construct_loop, construct_domain_field,
}

-- A label: 1 to 63 characters, none of them a dot.
pub record IsLabel (l : List ℕ) : Type 0 where
  pub some_char : 0 < length l
  pub short : length l ≤ 63
  pub plain : All (λ c. (c == dot_char) ≡ false) l

-- The labels `l` and `ls` with dots between them.
abbrev pub dotted : List ℕ → List (List ℕ) → List ℕ
dotted l [] = l
dotted l (m ∷ ls) = l ++ dot_char ∷ dotted m ls

-- Each label behind its length.
abbrev pub encode : List ℕ → List (List ℕ) → List ℕ
encode l [] = length l ∷ l
encode l (m ∷ ls) = (length l ∷ l) ++ encode m ls

store_byte_lem :
    (pre suf : List ℕ) (x i v : ℕ)
    → length pre ≡ i
    → store_byte (pre ++ x ∷ suf) i v ≡ some (pre ++ v ∷ suf)
unfolding store_byte
store_byte_lem [] suf x zero v e = refl
store_byte_lem [] suf x (suc i) v e = absurd (omega arith)
store_byte_lem (p ∷ pre) suf x zero v e = absurd (omega arith)
store_byte_lem (p ∷ pre) suf x (suc i) v e = rw (store_byte_lem pre suf x i v (omega arith)) refl

-- The characters of a label go to the places behind what is written.
label_loop :
    (l rest p suf : List ℕ) (i j dot : ℕ)
    → All (λ c. (c == dot_char) ≡ false) l
    → length p ≡ i + 1
    → length l ≤ length suf
    → i + length l ≤ domain_len
    → construct_loop (l ++ rest) i j dot (p ++ suf)
      ≡ construct_loop rest (i + length l) j dot ((p ++ l) ++ drop (length l) suf)
unfolding construct_loop
label_loop [] rest p suf i j dot plain at room low =
    let same : i ≡ i + 0 = omega arith in
    ap (λ k. construct_loop rest k j dot (p ++ suf)) same
    ∙ ap (λ q. construct_loop rest (i + 0) j dot (q ++ suf)) (sym (append-nil p))
label_loop (c ∷ l) rest p [] i j dot plain at room low = absurd (omega arith)
label_loop (c ∷ l) rest p (y ∷ suf) i j dot plain at room low =
    let inside : ltb i domain_len ≡ true = ground arith in
    let next : (i + 1) + length l ≡ i + suc (length l) = omega arith in
    rw (inside, plain.0, store_byte_lem p suf y (i + 1) c at)
      (ap (construct_loop (l ++ rest) (i + 1) j dot) (sym (append_assoc p (c ∷ []) suf))
        ∙ label_loop l rest (p ++ c ∷ []) suf (i + 1) j dot plain.1
            (omega (arith, length-append p (c ∷ []))) (omega arith) (omega arith)
        ∙ ap (λ k. construct_loop rest k j dot (((p ++ c ∷ []) ++ l) ++ drop (length l) suf)) next
        ∙ ap (λ q. construct_loop rest (i + suc (length l)) j dot (q ++ drop (length l) suf))
            (append_assoc p (c ∷ []) l))

-- The buffer with the length of a label in front of it.
length_stored :
    (pre l tail : List ℕ) (x i v : ℕ)
    → length pre ≡ i
    → v ≡ length l
    → store_byte (((pre ++ x ∷ []) ++ l) ++ tail) i v ≡ some ((pre ++ length l ∷ l) ++ tail)
length_stored pre l tail x i v at e =
    ap (λ b. store_byte b i v)
      (append_assoc (pre ++ x ∷ []) l tail ∙ append_assoc pre (x ∷ []) (l ++ tail))
    ∙ store_byte_lem pre (l ++ tail) x i v at
    ∙ ap (λ k. some (pre ++ k ∷ (l ++ tail))) e
    ∙ ap some (sym (append_assoc pre (length l ∷ l) tail))

drop-cons : (n : ℕ) (xs : List ℕ) → n < length xs → (y : ℕ) × (drop n xs ≡ y ∷ drop (suc n) xs)
drop-cons n [] h = absurd (omega arith)
drop-cons zero (x ∷ xs) h = (x, refl)
drop-cons (suc n) (x ∷ xs) h = drop-cons n xs (omega arith)

-- The loop has ended at `n` with `d` dots, and the last length makes the buffer `out`.
abbrev Finished : ℕ → ℕ → List ℕ → Field → Type 0
Finished n d out r =
    (j : ℕ) × (buf : List ℕ) × (r ≡ Field.ended n j d buf)
    × (is_label_len (n - j) ≡ true)
    × (store_byte buf j (n - j) ≡ some out)

Finished-same :
    (n n' d d' : ℕ) (out out' : List ℕ) (r r' : Field)
    → n ≡ n'
    → d ≡ d'
    → out ≡ out'
    → r' ≡ r
    → Finished n d out r
    → Finished n' d' out' r'
Finished-same n n' d d' out out' r r' en ed eo er (j, buf, ran, ok, stored) = (
  j,
  buf,
  er ∙ ran ∙ ap (λ k. Field.ended k j d buf) en ∙ ap (λ k. Field.ended n' j k buf) ed,
  subst (λ k. is_label_len (k - j) ≡ true) en ok,
  ap (λ k. store_byte buf j (k - j)) (sym en) ∙ stored ∙ ap some eo,
)

-- A label and what follows it.
label_read :
    (l rest pre suf : List ℕ) (x i dot : ℕ)
    → IsLabel l
    → length pre ≡ i
    → length l ≤ length suf
    → i + length l ≤ domain_len
    → construct_loop (l ++ rest) i i dot (pre ++ x ∷ suf)
      ≡ construct_loop rest (i + length l) i dot (((pre ++ x ∷ []) ++ l) ++ drop (length l) suf)
label_read l rest pre suf x i dot h at room low =
    ap (construct_loop (l ++ rest) i i dot) (sym (append_assoc pre (x ∷ []) suf))
    ∙ label_loop l rest (pre ++ x ∷ []) suf i i dot h.plain
        (omega (arith, at, length-append pre (x ∷ []))) room low

-- The dot behind a label sets its length.
dot_read :
    (l rest pre tail : List ℕ) (x i dot : ℕ)
    → IsLabel l
    → length pre ≡ i
    → i + length l < domain_len
    → construct_loop (dot_char ∷ rest) (i + length l) i dot (((pre ++ x ∷ []) ++ l) ++ tail)
      ≡ construct_loop rest
          (i + length l + 1)
          (i + length l + 1)
          (dot + 1)
          ((pre ++ length l ∷ l) ++ tail)
unfolding construct_loop
dot_read l rest pre tail x i dot h at low =
    let inside : ltb (i + length l) domain_len ≡ true = ground arith in
    let ok : is_label_len ((i + length l) - i) ≡ true = ground (arith, h.short, h.some_char) in
    rw (inside, ok, length_stored pre l tail x i ((i + length l) - i) at (omega arith)) refl

names_loop :
    (l : List ℕ) (ls : List (List ℕ)) (pre suf : List ℕ) (x i dot : ℕ)
    → IsLabel l
    → All IsLabel ls
    → length pre ≡ i
    → length (dotted l ls) ≤ length suf
    → i + length (dotted l ls) < domain_len
    → Finished
        (i + length (dotted l ls))
        (dot + length ls)
        ((pre ++ encode l ls) ++ drop (length (dotted l ls)) suf)
        (construct_loop (dotted l ls) i i dot (pre ++ x ∷ suf))
unfolding construct_loop
names_loop l [] pre suf x i dot h hs at room low =
    let none_more : dot ≡ dot + 0 = omega arith in
    (
      i,
      ((pre ++ x ∷ []) ++ l) ++ drop (length l) suf,
      ap (λ t. construct_loop t i i dot (pre ++ x ∷ suf)) (sym (append-nil l))
          ∙ label_read l [] pre suf x i dot h at room (omega arith)
          ∙ ap (λ d. Field.ended (i + length l) i d (((pre ++ x ∷ []) ++ l) ++ drop (length l) suf))
              none_more,
      ground (arith, h.short, h.some_char),
      length_stored pre l (drop (length l) suf) x i ((i + length l) - i) at (omega arith),
    )
names_loop l (m ∷ ls) pre suf x i dot h hs at room low =
    let n = length (dotted m ls) in
    let total : length (l ++ dot_char ∷ dotted m ls) ≡ length l + suc n =
      length-append l (dot_char ∷ dotted m ls) in
    let (y, next) = drop-cons (length l) suf (omega (arith, total)) in
    let pre' = pre ++ length l ∷ l in
    let suf' = drop (suc (length l)) suf in
    let whole : i + length l + 1 + n ≡ i + length (l ++ dot_char ∷ dotted m ls) =
      omega (arith, total) in
    let dots : dot + 1 + length ls ≡ dot + suc (length ls) = omega arith in
    let taken : suc (length l) + n ≡ length (l ++ dot_char ∷ dotted m ls) = omega (arith, total) in
    Finished-same _ _ _ _ _ _ _ _ whole dots
      (ap (λ p. p ++ drop n suf') (append_assoc pre (length l ∷ l) (encode m ls))
        ∙ ap (λ q. (pre ++ ((length l ∷ l) ++ encode m ls)) ++ q)
            (drop-drop n (suc (length l)) suf ∙ ap (λ k. drop k suf) taken))
      (label_read l (dot_char ∷ dotted m ls) pre suf x i dot h at (omega (arith, total))
          (omega (arith, total))
        ∙ dot_read l (dotted m ls) pre (drop (length l) suf) x i dot h at (omega (arith, total))
        ∙ ap
            (λ q.
              construct_loop (dotted m ls) (i + length l + 1) (i + length l + 1) (dot + 1)
                (pre' ++ q))
            next)
      (names_loop m ls pre' suf' y (i + length l + 1) (dot + 1) hs.0 hs.1
        (omega (arith, at, length-append pre (length l ∷ l)))
        (omega (arith, total, room, length-drop (suc (length l)) suf)) (omega (arith, total, low)))

-- `_construct_domain_field` of a domain of two labels or more, of at most 255 characters in all,
-- ends, writes within the buffer of 256 bytes, and leaves there the encoding of DNS, each label
-- behind its length; the result is the size of it.
pub construct-encode :
    (buf l m : List ℕ) (ls : List (List ℕ))
    → length buf ≡ domain_len
    → IsLabel l
    → All IsLabel (m ∷ ls)
    → length (dotted l (m ∷ ls)) < domain_len
    → construct_domain_field buf (dotted l (m ∷ ls))
      ≡ some (
        length (dotted l (m ∷ ls)) + 1,
        encode l (m ∷ ls) ++ drop (length (dotted l (m ∷ ls)) + 1) buf,
      )
unfolding construct_domain_field store_byte
construct-encode [] l m ls sized h hs low = absurd (omega arith)
construct-encode (b ∷ buf) l m ls sized h hs low =
    let n = length (dotted l (m ∷ ls)) in
    let (j, last, ran, ok, stored) =
      names_loop l (m ∷ ls) [] buf dot_char 0 0 h hs refl (omega (arith, sized)) (omega arith) in
    let good : ltb (0 + suc (length ls)) 1 || ltb 255 (0 + n) ≡ false = ground arith in
    let ends : 0 + n + 1 ≡ n + 1 = omega arith in
    let left : drop (n + 1) (b ∷ buf) ≡ drop n buf =
      ap (λ k. drop k (b ∷ buf)) (let e : n + 1 ≡ suc n = omega arith in e) in
    rw (ran, ok, stored, good, construct_domain_field)
      (ap (λ k. some (k, encode l (m ∷ ls) ++ drop n buf)) ends
        ∙ ap (λ q. some (n + 1, encode l (m ∷ ls) ++ q)) (sym left))
