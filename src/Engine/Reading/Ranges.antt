-- ===== src/Engine/Reading/Ranges.antt =====
-- A file that is read in ranges.
use project_apex.Prelude.{
  ℕ, zero, suc, ◌+◌, ◌≤◌, ◌≡◌, refl, sym, ap, ◌∙◌, false, Option, none, some, List, [], ◌∷◌, ◌++◌,
  arith, ltb, length, All, Text, codes, take, drop,
}
use project_apex.Protocol.Base64
use project_apex.Protocol.Base64.{encode, decode, decode_chunks, chunks4}
use project_apex.Protocol.Base64.RoundTrip.{AreBytes, decode-encode_bytes}
use project_apex.Engine.Path.{Components}
use project_apex.Engine.Workspace.{err, ok}
use project_apex.Engine.Reading.{
  Reader, RawMeta, ReadFileResult, read_file, read_inline, max_inline_read, u64_max,
}

take-nil : {A : Type 0} (n : ℕ) → take {A = A} n [] ≡ []
take-nil zero = refl
take-nil (suc n) = refl

drop-nil : {A : Type 0} (n : ℕ) → drop {A = A} n [] ≡ []
drop-nil zero = refl
drop-nil (suc n) = refl

drop-drop : {A : Type 0} (at n : ℕ) (xs : List A) → drop n (drop at xs) ≡ drop (at + n) xs
drop-drop zero n xs = ap (λ k. drop k xs) (omega arith)
drop-drop (suc at) n [] = drop-nil n ∙ sym (drop-nil (suc at + n))
drop-drop (suc at) n (x ∷ xs) =
    let e : suc (at + n) ≡ suc at + n = omega arith in
    drop-drop at n xs ∙ ap (λ k. drop k (x ∷ xs)) e

take_add : {A : Type 0} (n m : ℕ) (xs : List A) → take n xs ++ take m (drop n xs) ≡ take (n + m) xs
take_add zero m xs = ap (λ k. take k xs) (omega arith)
take_add (suc n) m [] = take-nil m ∙ sym (take-nil (suc n + m))
take_add (suc n) m (x ∷ xs) =
    let e : suc (n + m) ≡ suc n + m = omega arith in
    ap (λ ys. x ∷ ys) (take_add n m xs) ∙ ap (λ k. take k (x ∷ xs)) e

take_whole : {A : Type 0} (n : ℕ) (xs : List A) → length xs ≤ n → take n xs ≡ xs
take_whole n [] h = take-nil n
take_whole zero (x ∷ xs) h = ground (arith, h)
take_whole (suc n) (x ∷ xs) h = ap (λ ys. x ∷ ys) (take_whole n xs (omega (arith, h)))

take-AreBytes : (n : ℕ) (xs : List ℕ) → AreBytes xs → AreBytes (take n xs)
take-AreBytes zero xs a = tt
take-AreBytes (suc n) [] a = tt
take-AreBytes (suc n) (x ∷ xs) a = (a.0, take-AreBytes n xs a.1)

drop-AreBytes : (n : ℕ) (xs : List ℕ) → AreBytes xs → AreBytes (drop n xs)
drop-AreBytes zero xs a = a
drop-AreBytes (suc n) [] a = tt
drop-AreBytes (suc n) (x ∷ xs) a = drop-AreBytes n xs a.1

-- The ranges of the given lengths, one behind the other.
unfoldable pub read_ranges :
    Reader → (List ℕ → Text) → Components → ℕ → List ℕ → Option (List ReadFileResult)
read_ranges fs digest path at [] = some []
read_ranges fs digest path at (n ∷ ns) =
    let rest = read_ranges fs digest path (at + n) ns in
    elim (read_file fs digest path (some at) (some n)) [
      | err why ↦ none
      | ok answer ↦ elim answer [
        | err refusal ↦ none
        | ok r ↦ elim rest [ none ↦ none | some rs ↦ some (r ∷ rs) ]
      ]
    ]

abbrev pub sum : List ℕ → ℕ
sum [] = 0
sum (n ∷ ns) = n + sum ns

abbrev joined : Base64.Result (List ℕ) → Base64.Result (List ℕ) → Base64.Result (List ℕ)
joined (Base64.err e) rest = Base64.err e
joined (Base64.ok front) (Base64.err e) = Base64.err e
joined (Base64.ok front) (Base64.ok rest) = Base64.ok (front ++ rest)

-- The bytes of the answers, each decoded by itself, one behind the other.
abbrev pub contents : List ReadFileResult → Base64.Result (List ℕ)
contents [] = Base64.ok []
contents (r ∷ rs) = joined (decode r.content) (contents rs)

module _ (fs : Reader) (digest : List ℕ → Text) (path : Components) (bytes : List ℕ) (m : RawMeta)
    (found : fs.metadata path ≡ ok m)
    (reads : (offset n : ℕ) → fs.read_range path offset n ≡ ok (take n (drop offset bytes)))
    (small : length bytes ≤ u64_max) where
  abbrev answer : ℕ → ℕ → ReadFileResult
  answer at n = record {
    content = encode (take n (drop at bytes));
    encoding = codes "base64";
    sha256 = digest bytes;
    total_size = m.size;
  }

  read_inline_range : (at n : ℕ) → read_inline fs digest path m.size at n ≡ ok (ok (answer at n))
  unfolding read_inline
  read_inline_range at n =
      rw (reads at n, reads 0 u64_max, ap digest (take_whole u64_max bytes small), read_inline)

  read_file_range :
      (at n : ℕ)
      → n ≤ max_inline_read
      → read_file fs digest path (some at) (some n) ≡ ok (ok (answer at n))
  unfolding read_file
  read_file_range at n h =
      let fits : ltb max_inline_read n ≡ false = ground (arith, h) in
      rw (found, fits, read_file) (read_inline_range at n)

  abbrev Gives : ℕ → List ℕ → Type 0
  Gives at ns =
      (rs : List ReadFileResult) × (read_ranges fs digest path at ns ≡ some rs)
      × (contents rs ≡ Base64.ok (take (sum ns) (drop at bytes)))
      × All (λ (r : ReadFileResult). r.sha256 ≡ digest bytes) rs

  read_ranges-Gives :
      (at : ℕ) (ns : List ℕ)
      → AreBytes bytes
      → All (λ (n : ℕ). n ≤ max_inline_read) ns
      → Gives at ns
  unfolding read_ranges
  read_ranges-Gives at [] b a = ([], refl, refl, tt)
  read_ranges-Gives at (n ∷ ns) b a =
      let (rs, tail, content, digests) = read_ranges-Gives (at + n) ns b a.1 in
      let first =
        decode-encode_bytes (take n (drop at bytes))
          (take-AreBytes n (drop at bytes) (drop-AreBytes at bytes b)) in
      let whole =
        ap (λ xs. take n (drop at bytes) ++ take (sum ns) xs) (sym (drop-drop at n bytes))
        ∙ take_add n (sum ns) (drop at bytes) in
      (
        answer at n ∷ rs,
        rw (read_file_range at n a.0, tail, read_ranges),
        rw (first, content) (ap Base64.ok whole),
        (refl, digests),
      )

  -- When the file system answers for a file with its metadata, and with the `n` bytes from an offset or
  -- as many as there are, and the file holds bytes, at most 2 ^ 64 - 1 of them, then ranges that begin
  -- at its start and follow each other, each within the threshold and together at least as long as the
  -- file, are all served, their contents, each decoded by itself, are the file one behind the other, and
  -- each answer has the digest of the whole file.
  pub read_ranges-rebuild :
      (ns : List ℕ)
      → AreBytes bytes
      → All (λ (n : ℕ). n ≤ max_inline_read) ns
      → length bytes ≤ sum ns
      → (rs : List ReadFileResult) × (read_ranges fs digest path 0 ns ≡ some rs)
        × (contents rs ≡ Base64.ok bytes)
        × All (λ (r : ReadFileResult). r.sha256 ≡ digest bytes) rs
  read_ranges-rebuild ns b a long =
      let (rs, served, content, digests) = read_ranges-Gives 0 ns b a in
      (rs, served, content ∙ ap Base64.ok (take_whole (sum ns) bytes long), digests)
