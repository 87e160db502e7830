-- ===== src/Protocol/Framing/RoundTrip.antt =====
-- What `encode` frames, `decode` delivers, and stops at the next frame.
use project_apex.Prelude.{
  ℕ, ◌+◌, ◌^◌, ◌<◌, ◌≡◌, ◌≢◌, refl, Bool, some, [], ◌∷◌, ◌++◌, All, All-append, Text, arith, length,
  take_of_length-append, ap, take, ◌∙◌, List, drop, ◌≤◌, length-append, none, append_assoc, true,
  drop_of_length-append,
}
use project_apex.Prelude.Utf8.{
  from_utf8_of_ascii, IsAscii, is_whitespace, trim_start, trim_end, trim, strip_prefix-append,
  from_utf8, strip_prefix,
}
use project_apex.Prelude.Decimal.{
  decimal, AreDigits, decimal-AreDigits, parse_usize-decimal, parse_usize,
}
use project_apex.Protocol.Framing.{
  header, separator, find, decode_body, decode_header, decode, encode, max_frame_bytes, read_body,
  err, ok, too_large, frame,
}
use project_apex.Protocol.Framing.Search.{find-separator}

-- The header line of a frame that declares `n` bytes.
abbrev pub head : ℕ → Text
head n = header ++ decimal n

abbrev pub start_of : ℕ → ℕ
start_of n = length (head n) + length separator

digits-IsAscii : (text : Text) → AreDigits text → IsAscii text
digits-IsAscii [] d = tt
digits-IsAscii (c ∷ text) d = (omega arith, digits-IsAscii text d.1)

digits_plain : (text : Text) → AreDigits text → All (λ c. c ≢ 13) text
digits_plain [] d = tt
digits_plain (c ∷ text) d = (omega arith, digits_plain text d.1)

header_plain : IsAscii header × All (λ c. c ≢ 13) header
header_plain = (omega arith, omega arith)

trim_start-digits : (text : Text) → AreDigits text → trim_start text ≡ text
unfolding trim_start is_whitespace
trim_start-digits [] d = refl
trim_start-digits (c ∷ text) d = ground arith

trim_end-digits : (text : Text) → AreDigits text → trim_end text ≡ text
unfolding trim_end is_whitespace
trim_end-digits [] d = refl
trim_end-digits (c ∷ []) d = ground arith
trim_end-digits (c ∷ e ∷ text) d = rw (trim_end-digits (e ∷ text) d.1, trim_end)

trim-digits : (text : Text) → AreDigits text → trim text ≡ text
unfolding trim
trim-digits text d = rw (trim_start-digits text d) (trim_end-digits text d)

trim_start-header : (text : Text) → trim_start (header ++ text) ≡ header ++ text
unfolding trim_start is_whitespace
trim_start-header text = refl

pub find-head :
    (n : ℕ) (rest : Text) → find separator (head n ++ (separator ++ rest)) ≡ some (length (head n))
find-head n rest = find-separator (head n) rest (
    All-append _ header (decimal n) header_plain.1 (digits_plain (decimal n) (decimal-AreDigits n)))

pub head-IsAscii : (n : ℕ) → IsAscii (head n)
head-IsAscii n =
    All-append _ header (decimal n) header_plain.0
      (digits-IsAscii (decimal n) (decimal-AreDigits n))

pub understood : (n : ℕ) → strip_prefix header (trim_start (head n)) ≡ some (decimal n)
understood n =
    ap (strip_prefix header) (trim_start-header (decimal n))
    ∙ strip_prefix-append header (decimal n)

pub parsed : (n : ℕ) → n < 2 ^ 64 → parse_usize (trim (decimal n)) ≡ some n
parsed n h =
    ap parse_usize (trim-digits (decimal n) (decimal-AreDigits n)) ∙ parse_usize-decimal n h

module _ (is_json : Text → Bool) where
  -- `decode` behind a header that it understands.
  pub decode_understood :
      (buf text digits : Text) (sep n : ℕ)
      → find separator buf ≡ some sep
      → from_utf8 (take sep buf) ≡ some text
      → strip_prefix header (trim_start text) ≡ some digits
      → parse_usize (trim digits) ≡ some n
      → decode is_json buf ≡ decode_body is_json (sep + length separator) n buf
  unfolding decode decode_header
  decode_understood buf text digits sep n f u p q = rw (f, u, p, q, decode, decode_header)

  -- A header that `encode` would write is understood, whatever follows it.
  pub decode-head :
      (n : ℕ) (rest : Text)
      → n < 2 ^ 64
      → decode is_json (head n ++ (separator ++ rest))
        ≡ decode_body is_json (start_of n) n (head n ++ (separator ++ rest))
  decode-head n rest h =
      let front = take_of_length-append (head n) (separator ++ rest) in
      decode_understood (head n ++ (separator ++ rest)) (head n) (decimal n) (length (head n)) n
        (find-head n rest) (ap from_utf8 front ∙ from_utf8_of_ascii (head n) (head-IsAscii n))
        (understood n) (parsed n h)

drop_front : (s t u : Text) → drop (length s + length t) (s ++ (t ++ u)) ≡ u
drop_front s t u = rw (← length-append s t, ← append_assoc s t u) (drop_of_length-append (s ++ t) u)

drop_fronts : (s t u v : Text) → drop (length s + length t + length u) (s ++ (t ++ (u ++ v))) ≡ v
drop_fronts s t u v =
    rw (← length-append s t, ← append_assoc s t (u ++ v)) (drop_front (s ++ t) u v)

length_fronts : (s t u v : Text) → length s + length t + length u ≤ length (s ++ (t ++ (u ++ v)))
length_fronts s t u v =
    omega (arith, length-append s (t ++ (u ++ v)), length-append t (u ++ v), length-append u v)

pub encode-ok :
    (body bytes : Text)
    → encode body ≡ ok bytes
    → (length body ≤ max_frame_bytes) × (bytes ≡ head (length body) ++ (separator ++ body))
unfolding encode
encode-ok body bytes h = ground arith

module _ (is_json : Text → Bool) where
  read_body-frame :
      (body : Text)
      → from_utf8 body ≢ none
      → is_json body ≡ true
      → read_body is_json body ≡ ok (some (frame body))
  unfolding read_body
  read_body-frame body u j = ground arith

  -- A whole body at the start of what the header announced is cut out of the buffer.
  pub decode_body-whole :
      (start : ℕ) (body rest buf : Text)
      → length body ≤ max_frame_bytes
      → start + length body ≤ length buf
      → drop start buf ≡ body ++ rest
      → drop (start + length body) buf ≡ rest
      → decode_body is_json start (length body) buf ≡ (read_body is_json body, rest)
  unfolding decode_body
  decode_body-whole start body rest buf small arrived d r =
      ground (arith, take_of_length-append body rest)

  decode_body-refused :
      (start n : ℕ) (buf : Text)
      → max_frame_bytes < n
      → decode_body is_json start n buf ≡ (err (too_large n), drop start buf)
  unfolding decode_body
  decode_body-refused start n buf h = ground arith

  -- A frame that `encode` wrote, with any bytes behind it: `decode` returns its body and leaves
  -- exactly those bytes, provided that the body is well-formed UTF-8 and JSON.
  pub decode-encode :
      (body rest : Text) {bytes : List ℕ}
      → encode body ≡ ok bytes
      → from_utf8 body ≢ none
      → is_json body ≡ true
      → decode is_json (bytes ++ rest) ≡ (ok (some (frame body)), rest)
  decode-encode body rest {bytes} e u j =
      let (small, shape) = encode-ok body bytes e in
      let n = length body in
      let buf = head n ++ (separator ++ (body ++ rest)) in
      let all : bytes ++ rest ≡ buf =
        rw (
          shape,
          append_assoc (head n) (separator ++ body) rest,
          append_assoc separator body rest,
        ) in
      let at_body = drop_front (head n) separator (body ++ rest) in
      let at_rest : drop (start_of n + n) buf ≡ rest = drop_fronts (head n) separator body rest in
      rw (all, decode-head is_json n (body ++ rest) (omega arith))
        (decode_body-whole (start_of n) body rest buf small
            (length_fronts (head n) separator body rest) at_body at_rest
          ∙ ap (λ r. (r, rest)) (read_body-frame body u j))

  -- A header that declares more bytes than the cap, in a number of 64 bits, is refused and dropped
  -- with its separator, and all that stands behind it is left.
  pub decode_too_large :
      (n : ℕ) (rest : Text)
      → max_frame_bytes < n
      → n < 2 ^ 64
      → decode is_json (head n ++ (separator ++ rest)) ≡ (err (too_large n), rest)
  decode_too_large n rest h l =
      decode-head is_json n rest l
      ∙ decode_body-refused (start_of n) n _ h
      ∙ ap (λ b. (err (too_large n), b)) (drop_front (head n) separator rest)
