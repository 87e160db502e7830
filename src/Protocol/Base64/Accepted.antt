-- ===== src/Protocol/Base64/Accepted.antt =====
-- What `decode` accepts: bytes come out, as many as the length of the text allows, and every
-- character is a letter of the alphabet or the padding.
use project_apex.Prelude.{
  ℕ, ◌+◌, ◌*◌, ◌%◌, ◌^◌, ◌≤◌, ◌≡◌, ◌≢◌, ◌⊎◌, inl, inr, refl, List, [], ◌∷◌, ◌++◌, All, All-append,
  arith, length, Text, ◌==◌, Bool-cases, append_assoc, none, ==_iff, length-append,
}
use project_apex.Protocol.Base64.{
  Result, ok, err, ◌>>=◌, alphabet, sextet, scan, emit, chunks4, decode_chunks, decode, bad_length,
}
use project_apex.Protocol.Base64.RoundTrip.{AreBytes}

-- Where the whole is a value, so was the first part.
value_of_both :
    {A B : Type 0} {b : B} (first : Result A) (next : A → Result B)
    → (first >>= next) ≡ ok b
    → (a : A) × (first ≡ ok a) × (next a ≡ ok b)
value_of_both (err failure) next both = cc
value_of_both (ok value) next both = (value, refl, both)

-- The chunks of an accepted text, one by one: the first is scanned, the rest is accepted.
decode_chunks-cons :
    (c : Text) (cs : List Text) {bytes : List ℕ}
    → decode_chunks (c ∷ cs) ≡ ok bytes
    → (s : ℕ × ℕ) × (rest : List ℕ) × (scan 0 0 0 c ≡ ok s)
      × (decode_chunks cs ≡ ok rest)
      × (bytes ≡ emit s.0 s.1 ++ rest)
unfolding decode_chunks
decode_chunks-cons c cs h =
    let (s, scanned, h') = value_of_both (scan 0 0 0 c) _ h in
    let (rest, decoded, h'') = value_of_both (decode_chunks cs) _ h' in
    (s, rest, scanned, decoded, cc)

decode_chunks-step :
    (c : Text) (cs : List Text) {s : ℕ × ℕ} {rest : List ℕ}
    → scan 0 0 0 c ≡ ok s
    → decode_chunks cs ≡ ok rest
    → decode_chunks (c ∷ cs) ≡ ok (emit s.0 s.1 ++ rest)
unfolding decode_chunks
decode_chunks-step c cs p q = rw (p, q)

emit_bounds :
    (n pad : ℕ) → AreBytes (emit n pad) × (1 ≤ length (emit n pad)) × (length (emit n pad) ≤ 3)
unfolding emit
emit_bounds n pad = ground arith

-- An accepted text is whole chunks, and the loop accepts them.
decode-inv :
    (text : Text) {bytes : List ℕ}
    → decode text ≡ ok bytes
    → (length text % 4 ≡ 0) × (decode_chunks (chunks4 text) ≡ ok bytes)
unfolding decode
decode-inv text h = elim (Bool-cases (length text % 4 == 0)) [
  | inl whole ↦ ((==_iff (length text % 4) 0).0 whole, (rw whole at h))
  | inr rest ↦ absurd (false≢ok (rw rest at h))
]
  where
    false≢ok : {bytes : List ℕ} → err bad_length ≡ ok bytes → ⊥
    false≢ok e = cc

decode-intro :
    (text : Text) (bytes : List ℕ)
    → length text % 4 ≡ 0
    → decode_chunks (chunks4 text) ≡ ok bytes
    → decode text ≡ ok bytes
unfolding decode
decode-intro text bytes whole h = rw ((==_iff (length text % 4) 0).1 whole) h

abbrev HasBounds : Text → List ℕ → Type 0
HasBounds text bytes =
    AreBytes bytes × (length text ≤ 4 * length bytes) × (4 * length bytes ≤ 3 * length text)

chunks_bounds :
    (text : Text) {bytes : List ℕ}
    → length text % 4 ≡ 0
    → decode_chunks (chunks4 text) ≡ ok bytes
    → HasBounds text bytes
unfolding chunks4 decode_chunks
chunks_bounds [] {bytes = bytes} w h =
    let e : bytes ≡ [] = cc in rw e (tt, omega arith, omega arith)
chunks_bounds (a ∷ []) w h = absurd (omega arith)
chunks_bounds (a ∷ b ∷ []) w h = absurd (omega arith)
chunks_bounds (a ∷ b ∷ c ∷ []) w h = absurd (omega arith)
chunks_bounds (a ∷ b ∷ c ∷ d ∷ text) w h =
    let (s, rest, scanned, decoded, e) = decode_chunks-cons (a ∷ b ∷ c ∷ d ∷ []) (chunks4 text) h in
    let (some_bytes, at_least, at_most) = emit_bounds s.0 s.1 in
    let (ih_bytes, ih_least, ih_most) = chunks_bounds text {bytes = rest} (omega arith) decoded in
    rw e (
      All-append _ (emit s.0 s.1) rest some_bytes ih_bytes,
      omega (arith, length-append (emit s.0 s.1) rest),
      omega (arith, length-append (emit s.0 s.1) rest),
    )

-- Every decoded value is a byte, and a text of `4 k` characters holds from `k` to `3 k` of them.
pub decode_bounds :
    (text : Text) {bytes : List ℕ}
    → decode text ≡ ok bytes
    → AreBytes bytes × (length text ≤ 4 * length bytes) × (4 * length bytes ≤ 3 * length text)
decode_bounds text h = let (whole, decoded) = decode-inv text h in chunks_bounds text whole decoded

abbrev pub IsLetter : ℕ → Type 0
IsLetter ch = (alphabet ch ≢ none) ⊎ (ch ≡ b'=')

sextet-IsLetter : (i pad ch : ℕ) {s : ℕ × ℕ} → sextet i pad ch ≡ ok s → IsLetter ch
unfolding sextet
sextet-IsLetter i pad ch h = ground arith

scan-AreLetters : (c : Text) (i n pad : ℕ) {s : ℕ × ℕ} → scan i n pad c ≡ ok s → All IsLetter c
unfolding scan
scan-AreLetters [] i n pad h = tt
scan-AreLetters (ch ∷ c) i n pad h =
    let (s, read, rest) = value_of_both (sextet i pad ch) _ h in
    (sextet-IsLetter i pad ch read, scan-AreLetters c (i + 1) (n * 2 ^ 6 % 2 ^ 32 + s.0) s.1 rest)

chunks-AreLetters :
    (text : Text) {bytes : List ℕ} → decode_chunks (chunks4 text) ≡ ok bytes → All IsLetter text
unfolding chunks4
chunks-AreLetters [] h = tt
chunks-AreLetters (a ∷ []) h = scan-AreLetters _ 0 0 0 (decode_chunks-cons _ [] h).2
chunks-AreLetters (a ∷ b ∷ []) h = scan-AreLetters _ 0 0 0 (decode_chunks-cons _ [] h).2
chunks-AreLetters (a ∷ b ∷ c ∷ []) h = scan-AreLetters _ 0 0 0 (decode_chunks-cons _ [] h).2
chunks-AreLetters (a ∷ b ∷ c ∷ d ∷ text) h =
    let (s, rest, scanned, decoded, e) = decode_chunks-cons (a ∷ b ∷ c ∷ d ∷ []) (chunks4 text) h in
    All-append _ (a ∷ b ∷ c ∷ d ∷ []) text (scan-AreLetters _ 0 0 0 scanned)
      (chunks-AreLetters text decoded)

-- No character outside the alphabet and the padding is accepted.
pub decode-AreLetters : (text : Text) {bytes : List ℕ} → decode text ≡ ok bytes → All IsLetter text
decode-AreLetters text h = chunks-AreLetters text (decode-inv text h).1

decode_chunks-nil : {bytes : List ℕ} → decode_chunks [] ≡ ok bytes → bytes ≡ []
unfolding decode_chunks
decode_chunks-nil h = cc

decode_chunks-append :
    (s t : Text) {a b : List ℕ}
    → length s % 4 ≡ 0
    → decode_chunks (chunks4 s) ≡ ok a
    → decode_chunks (chunks4 t) ≡ ok b
    → decode_chunks (chunks4 (s ++ t)) ≡ ok (a ++ b)
unfolding chunks4
decode_chunks-append [] t {b = b} w p q = rw (decode_chunks-nil p) q
decode_chunks-append (c₀ ∷ []) t w p q = absurd (omega arith)
decode_chunks-append (c₀ ∷ c₁ ∷ []) t w p q = absurd (omega arith)
decode_chunks-append (c₀ ∷ c₁ ∷ c₂ ∷ []) t w p q = absurd (omega arith)
decode_chunks-append (c₀ ∷ c₁ ∷ c₂ ∷ c₃ ∷ s) t {b = b} w p q =
    let (r, rest, scanned, decoded, e) =
      decode_chunks-cons (c₀ ∷ c₁ ∷ c₂ ∷ c₃ ∷ []) (chunks4 s) p in
    let ih = decode_chunks-append s t {a = rest} {b = b} (omega arith) decoded q in
    rw (e, append_assoc (emit r.0 r.1) rest b)
      (decode_chunks-step (c₀ ∷ c₁ ∷ c₂ ∷ c₃ ∷ []) (chunks4 (s ++ t)) scanned ih)

-- Two texts that are accepted are accepted as one, padding in the middle included.
pub decode-append :
    (s t : Text) {a b : List ℕ} → decode s ≡ ok a → decode t ≡ ok b → decode (s ++ t) ≡ ok (a ++ b)
decode-append s t p q =
    let (ws, ps) = decode-inv s p in
    let (wt, qt) = decode-inv t q in
    decode-intro (s ++ t) _ (omega (arith, length-append s t)) (decode_chunks-append s t ws ps qt)
