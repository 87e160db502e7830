-- ===== src/Protocol/Base64.antt =====
-- protocol/src/base64.rs: bytes as text on the wire. A byte and a character of the encoded text
-- are numbers below 256; the 24-bit group `n` is a `u32`, with its wrap-around at 2 ^ 32.
-- `a << k | b` with `b` below 2 ^ k is written as a sum, and `n >> k & 63` by division.
pub mod Letters
pub mod RoundTrip
pub mod Accepted
mod Tests
use project_apex.Prelude.{
  ℕ, suc, ◌+◌, ◌-◌, ◌*◌, ◌/◌, ◌%◌, ◌^◌, Bool, true, false, ◌&&◌, Option, none, some, List, [], ◌∷◌,
  ◌++◌, Text, codes, length, get_or, ltb, leb, ◌==◌, if◌then◌else◌,
}

pub data DecodeError : Type 0 where
  bad_character bad_length : DecodeError

pub data Result (A : Type 0) : Type 0 where
  err : DecodeError → Result A
  ok : A → Result A

-- The `?` and the early returns: what follows is only reached by a value.
infixl 5 ◌>>=◌
abbrev pub ◌>>=◌ : {A B : Type 0} → Result A → (A → Result B) → Result B
err failure >>= next = err failure
ok value >>= next = next value

abbrev pub table : Text
table = codes "ABCDEFGHIJKLMNOPQRSTUVWXYZabcdefghijklmnopqrstuvwxyz0123456789+/"

-- `TABLE[i] as char`
unfoldable pub letter : ℕ → ℕ
letter i = get_or table i 0

-- The body of the loop of `encode`, for one chunk of one to three bytes.
unfoldable pub encode_chunk : List ℕ → Text
encode_chunk c =
    let n = get_or c 0 0 * 2 ^ 16 + get_or c 1 0 * 2 ^ 8 + get_or c 2 0 in
    letter (n / 2 ^ 18 % 64)
    ∷ letter (n / 2 ^ 12 % 64)
    ∷ (if ltb 1 (length c) then letter (n / 2 ^ 6 % 64) else b'=')
    ∷ (if ltb 2 (length c) then letter (n % 64) else b'=')
    ∷ []

-- `bytes.chunks(3)`
unfoldable pub chunks3 : List ℕ → List (List ℕ)
chunks3 (a ∷ b ∷ c ∷ rest) = (a ∷ b ∷ c ∷ []) ∷ chunks3 rest
chunks3 [] = []
chunks3 rest = rest ∷ []

unfoldable pub encode_chunks : List (List ℕ) → Text
encode_chunks [] = []
encode_chunks (c ∷ cs) = encode_chunk c ++ encode_chunks cs

unfoldable pub encode : List ℕ → Text
unfolding encode_chunks chunks3
encode bytes = encode_chunks (chunks3 bytes)

-- The arms of the `match` on a character that stand for six bits.
unfoldable pub alphabet : ℕ → Option ℕ
alphabet ch =
    if leb b'A' ch && leb ch b'Z'
    then some (ch - b'A')
    else if leb b'a' ch && leb ch b'z'
    then some (ch - b'a' + 26)
    else if leb b'0' ch && leb ch b'9'
    then some (ch - b'0' + 52)
    else if ch == b'+'
    then some 62
    else if ch == b'/'
    then some 63
    else none

-- The six bits of the character at `i` of its chunk, and the padding seen so far.
unfoldable pub sextet : ℕ → ℕ → ℕ → Result (ℕ × ℕ)
unfolding alphabet
sextet i pad ch =
    if ltb 0 pad && (if ch == b'=' then false else true)
    then err bad_character
    else elim (alphabet ch) [
      | some six ↦ ok (six, pad)
      | none ↦ if ch == b'=' && leb 2 i then ok (0, pad + 1) else err bad_character
    ]

-- The inner loop of `decode`: `i`, `n` and `pad` at the characters that are left of a chunk.
unfoldable pub scan : ℕ → ℕ → ℕ → Text → Result (ℕ × ℕ)
scan i n pad [] = ok (n, pad)
scan i n pad (ch ∷ chunk) = do
  (six, pad') ← sextet i pad ch
  scan (i + 1) (n * 2 ^ 6 % 2 ^ 32 + six) pad' chunk

-- The bytes of a scanned chunk: `as u8` keeps the low eight bits.
unfoldable pub emit : ℕ → ℕ → List ℕ
emit n pad =
    (n / 2 ^ 16 % 2 ^ 8)
    ∷ ((if ltb pad 2 then n / 2 ^ 8 % 2 ^ 8 ∷ [] else [])
        ++ (if ltb pad 1 then n % 2 ^ 8 ∷ [] else []))

-- `s.chunks(4)`
unfoldable pub chunks4 : Text → List Text
chunks4 (a ∷ b ∷ c ∷ d ∷ rest) = (a ∷ b ∷ c ∷ d ∷ []) ∷ chunks4 rest
chunks4 [] = []
chunks4 rest = rest ∷ []

unfoldable pub decode_chunks : List Text → Result (List ℕ)
decode_chunks [] = ok []
decode_chunks (c ∷ cs) = do
  (n, pad) ← scan 0 0 0 c
  rest ← decode_chunks cs
  ok (emit n pad ++ rest)

unfoldable pub decode : Text → Result (List ℕ)
unfolding decode_chunks chunks4 scan sextet emit
decode text = if length text % 4 == 0 then decode_chunks (chunks4 text) else err bad_length
