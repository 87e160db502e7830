-- ===== src/Protocol/Base64/RoundTrip.antt =====
-- What `encode` writes, `decode` reads back.
use project_apex.Prelude.{
  ℕ, ◌+◌, ◌*◌, ◌/◌, ◌%◌, ◌^◌, ◌<◌, ◌≡◌, refl, List, [], ◌∷◌, ◌++◌, All, arith, length, Text, ap,
  ◌==◌, true,
}
use project_apex.Protocol.Base64.{
  ok, encode_chunk, encode, sextet, scan, emit, chunks4, decode_chunks, decode,
}
use project_apex.Protocol.Base64.Letters.{sextet-letter}

abbrev pub AreBytes : List ℕ → Type 0
AreBytes = All (λ b. b < 2 ^ 8)

-- Four accepted characters make one number of 24 bits.
scan_four :
    (c₀ c₁ c₂ c₃ x₀ x₁ x₂ x₃ p₂ p₃ : ℕ)
    → sextet 0 0 c₀ ≡ ok (x₀, 0)
    → sextet 1 0 c₁ ≡ ok (x₁, 0)
    → sextet 2 0 c₂ ≡ ok (x₂, p₂)
    → sextet 3 p₂ c₃ ≡ ok (x₃, p₃)
    → x₀ < 64
    → x₁ < 64
    → x₂ < 64
    → scan 0 0 0 (c₀ ∷ c₁ ∷ c₂ ∷ c₃ ∷ []) ≡ ok (x₀ * 2 ^ 18 + x₁ * 2 ^ 12 + x₂ * 2 ^ 6 + x₃, p₃)
unfolding scan
scan_four c₀ c₁ c₂ c₃ x₀ x₁ x₂ x₃ p₂ p₃ e₀ e₁ e₂ e₃ b₀ b₁ b₂ =
    rw (e₀, e₁, e₂, e₃) (ap (λ n. ok (n, p₃)) (omega arith))

pad_one : sextet 3 0 b'=' ≡ ok (0, 1)
unfolding sextet
pad_one = refl

pad_two : (sextet 2 0 b'=' ≡ ok (0, 1)) × (sextet 3 1 b'=' ≡ ok (0, 2))
unfolding sextet
pad_two = (refl, refl)

scan_three :
    (a b c : ℕ)
    → a < 2 ^ 8
    → b < 2 ^ 8
    → c < 2 ^ 8
    → (n : ℕ) × (scan 0 0 0 (encode_chunk (a ∷ b ∷ c ∷ [])) ≡ ok (n, 0))
      × (emit n 0 ≡ a ∷ b ∷ c ∷ [])
unfolding encode_chunk emit
scan_three a b c ha hb hc =
    let n = a * 2 ^ 16 + b * 2 ^ 8 + c in
    (
      _,
      scan_four _ _ _ _ _ _ _ _ _ _ (sextet-letter 0 (n / 2 ^ 18 % 64) (omega arith))
          (sextet-letter 1 (n / 2 ^ 12 % 64) (omega arith))
          (sextet-letter 2 (n / 2 ^ 6 % 64) (omega arith)) (sextet-letter 3 (n % 64) (omega arith))
          (omega arith) (omega arith) (omega arith),
      ground arith,
    )

scan_two :
    (a b : ℕ)
    → a < 2 ^ 8
    → b < 2 ^ 8
    → (n : ℕ) × (scan 0 0 0 (encode_chunk (a ∷ b ∷ [])) ≡ ok (n, 1)) × (emit n 1 ≡ a ∷ b ∷ [])
unfolding encode_chunk emit
scan_two a b ha hb =
    let n = a * 2 ^ 16 + b * 2 ^ 8 + 0 in
    (
      _,
      scan_four _ _ _ _ _ _ _ _ _ _ (sextet-letter 0 (n / 2 ^ 18 % 64) (omega arith))
          (sextet-letter 1 (n / 2 ^ 12 % 64) (omega arith))
          (sextet-letter 2 (n / 2 ^ 6 % 64) (omega arith)) pad_one (omega arith) (omega arith)
          (omega arith),
      ground arith,
    )

scan_one :
    (a : ℕ)
    → a < 2 ^ 8
    → (n : ℕ) × (scan 0 0 0 (encode_chunk (a ∷ [])) ≡ ok (n, 2)) × (emit n 2 ≡ a ∷ [])
unfolding encode_chunk emit
scan_one a ha =
    let n = a * 2 ^ 16 + 0 * 2 ^ 8 + 0 in
    (
      _,
      scan_four _ _ _ _ _ _ _ _ _ _ (sextet-letter 0 (n / 2 ^ 18 % 64) (omega arith))
          (sextet-letter 1 (n / 2 ^ 12 % 64) (omega arith)) pad_two.0 pad_two.1 (omega arith)
          (omega arith) (omega arith),
      ground arith,
    )

-- One chunk in front of a text that decodes.
decode_chunk :
    (c : List ℕ) (n pad : ℕ) (rest : Text) (bytes : List ℕ)
    → scan 0 0 0 (encode_chunk c) ≡ ok (n, pad)
    → emit n pad ≡ c
    → decode_chunks (chunks4 rest) ≡ ok bytes
    → decode_chunks (chunks4 (encode_chunk c ++ rest)) ≡ ok (c ++ bytes)
unfolding decode_chunks chunks4 encode_chunk
decode_chunk c n pad rest bytes s e r = simp (s, r) (ap (λ b. ok (b ++ bytes)) e)

decode_encode_chunks :
    (bytes : List ℕ) → AreBytes bytes → decode_chunks (chunks4 (encode bytes)) ≡ ok bytes
unfolding encode chunks4 decode_chunks
decode_encode_chunks [] h = refl
decode_encode_chunks (a ∷ []) h =
    let (n, s, e) = scan_one a h.0 in decode_chunk (a ∷ []) n 2 [] [] s e refl
decode_encode_chunks (a ∷ b ∷ []) h =
    let (n, s, e) = scan_two a b h.0 h.1.0 in decode_chunk (a ∷ b ∷ []) n 1 [] [] s e refl
decode_encode_chunks (a ∷ b ∷ c ∷ rest) h =
    let (n, s, e) = scan_three a b c h.0 h.1.0 h.1.1.0 in
    decode_chunk (a ∷ b ∷ c ∷ []) n 0 (encode rest) rest s e (decode_encode_chunks rest h.1.1.1)

length-encode_chunk : (c : List ℕ) → length (encode_chunk c) ≡ 4
unfolding encode_chunk
length-encode_chunk c = refl

-- An encoding has four characters for each three bytes begun.
pub length-encode : (bytes : List ℕ) → length (encode bytes) ≡ 4 * ((length bytes + 2) / 3)
unfolding encode encode_chunk
length-encode [] = refl
length-encode (a ∷ []) = refl
length-encode (a ∷ b ∷ []) = refl
length-encode (a ∷ b ∷ c ∷ rest) = omega (arith, length-encode rest)

-- Every list of bytes survives the wire: `decode` of its encoding is those bytes, with no error.
pub decode-encode_bytes : (bytes : List ℕ) → AreBytes bytes → decode (encode bytes) ≡ ok bytes
unfolding decode
decode-encode_bytes bytes h =
    let whole : (length (encode bytes) % 4 == 0) ≡ true = ground (arith, length-encode bytes) in
    rw whole (decode_encode_chunks bytes h)
