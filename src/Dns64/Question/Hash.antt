-- ===== src/Dns64/Question/Hash.antt =====
-- What `dns_compute_question_hash` of src/dns64_daemon.c hashes: the bytes of the labels without
-- their lengths.
use flux_wan.Base.{
  false, ◌*◌, ℕ, zero, suc, ◌+◌, ◌≤◌, ◌<◌, ◌≡◌, refl, subst, ◌∙◌, ap, List, [], ◌∷◌, ◌++◌, map, leb,
  All, length, length-append, get_or, drop, drop-append, arith,
}
use mathlib.Core.List.{append_assoc, map-append}
use flux_wan.Dns64.Question.{
  tolower, fnv, hash_name, hash_bytes, dns_compute_question_hash, after_name, qtype_of,
}

unfoldable pub fnv_all : ℕ → List ℕ → ℕ
fnv_all hash [] = hash
fnv_all hash (c ∷ cs) = fnv_all (fnv hash c) cs

pub fnv_all-append :
    (hash : ℕ) (xs ys : List ℕ) → fnv_all hash (xs ++ ys) ≡ fnv_all (fnv_all hash xs) ys
unfolding fnv_all
fnv_all-append hash [] ys = refl
fnv_all-append hash (x ∷ xs) ys = fnv_all-append (fnv hash x) xs ys

-- A name on the wire, and the bytes of its labels.
unfoldable pub encode : List (List ℕ) → List ℕ
encode [] = 0 ∷ []
encode (l ∷ ls) = length l ∷ (l ++ encode ls)

unfoldable pub letters : List (List ℕ) → List ℕ
letters [] = []
letters (l ∷ ls) = l ++ letters ls

abbrev pub IsLabel : List ℕ → Type 0
IsLabel l = (0 < length l) × (length l < 256)

hash_label :
    (l r : List ℕ) (hash : ℕ)
    → hash_name (length l) hash (l ++ r) ≡ hash_name 0 (fnv_all hash (map tolower l)) r
unfolding hash_name fnv_all
hash_label [] r hash = refl
hash_label (c ∷ l) r hash = hash_label l r (fnv hash (tolower c))

hash_name-encode :
    (ls : List (List ℕ)) (hash : ℕ) (r : List ℕ)
    → All IsLabel ls
    → hash_name 0 hash (encode ls ++ r) ≡ (fnv_all hash (map tolower (letters ls)), r)
unfolding encode letters
hash_name-encode [] hash r h = unfold hash_name fnv_all in refl
hash_name-encode (l ∷ ls) hash r h =
    let first : hash_name 0 hash (length l ∷ ((l ++ encode ls) ++ r))
        ≡ hash_name (length l) hash ((l ++ encode ls) ++ r) =
      unfold hash_name in ground (arith, h.0) in
    rw (first, append_assoc, hash_label, map-append, fnv_all-append)
      (hash_name-encode ls (fnv_all hash (map tolower l)) r h.1)

hash_bytes-append :
    (xs ys : List ℕ) (hash : ℕ) → hash_bytes (length xs) hash (xs ++ ys) ≡ fnv_all hash xs
unfolding hash_bytes fnv_all
hash_bytes-append [] ys hash = refl
hash_bytes-append (x ∷ xs) ys hash = hash_bytes-append xs ys (fnv hash x)

encode_pos : (ls : List (List ℕ)) → 0 < length (encode ls)
unfolding encode
encode_pos [] = omega arith
encode_pos (l ∷ ls) = omega arith

drop_exact {ℓ} : {A : Type ℓ} (n : ℕ) (xs ys : List A) → length xs ≡ n → drop n (xs ++ ys) ≡ ys
drop_exact n xs ys h = subst (λ m. drop m (xs ++ ys) ≡ ys) h (drop-append xs ys)

-- A query with a name.
abbrev pub question : List ℕ → List (List ℕ) → List ℕ → List ℕ
question header labels rest = header ++ (encode labels ++ rest)

-- The hash of a question is FNV-1a over the labels in lower case, one after the other without their
-- lengths or dots, and over the four bytes of its type and class. The header and what follows
-- the question do not count.
pub question_hash-letters :
    (header : List ℕ) (labels : List (List ℕ)) (kind rest : List ℕ)
    → length header ≡ 12
    → All IsLabel labels
    → length kind ≡ 4
    → dns_compute_question_hash (question header labels (kind ++ rest))
      ≡ fnv_all 2166136261 (map tolower (letters labels) ++ kind)
question_hash-letters header labels kind rest h ls k =
    let body = encode labels ++ (kind ++ rest) in
    let long : leb (length (header ++ body)) 12 ≡ false = ground (
      arith,
      length-append header body,
      length-append (encode labels) (kind ++ rest),
      encode_pos labels,
    ) in
    let start : drop 12 (header ++ body) ≡ body = drop_exact 12 header body h in
    let tail : (hash : ℕ) → hash_bytes 4 hash (kind ++ rest) ≡ fnv_all hash kind = λ hash.
      subst (λ n. hash_bytes n hash (kind ++ rest) ≡ fnv_all hash kind) k
        (hash_bytes-append kind rest hash) in
    unfold dns_compute_question_hash in
    rw (long, start, hash_name-encode labels 2166136261 (kind ++ rest) ls, fnv_all-append) (tail _)

after_name-hash_name : (left hash : ℕ) (p : List ℕ) → after_name left p ≡ (hash_name left hash p).1
unfolding after_name hash_name
after_name-hash_name left hash [] = refl
after_name-hash_name zero hash (c ∷ p) = ground (arith, after_name-hash_name c hash p)
after_name-hash_name (suc left) hash (c ∷ p) = after_name-hash_name left (fnv hash (tolower c)) p

-- The walk of the worker for the type of the question finds it behind the same name.
pub qtype_of-question :
    (header : List ℕ) (labels : List (List ℕ)) (t u : ℕ) (rest : List ℕ)
    → length header ≡ 12
    → All IsLabel labels
    → 2 ≤ length rest
    → qtype_of (question header labels (t ∷ u ∷ rest)) ≡ t * 0x100 + u
qtype_of-question header labels t u rest h ls k =
    let start = drop_exact 12 header (encode labels ++ (t ∷ u ∷ rest)) h in
    let name = ap (λ (r : ℕ × List ℕ). r.1) (hash_name-encode labels 0 (t ∷ u ∷ rest) ls) in
    let found = after_name-hash_name 0 0 (encode labels ++ (t ∷ u ∷ rest)) ∙ name in
    unfold qtype_of get_or in rw (start, found) (ground arith)
