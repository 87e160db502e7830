-- ===== src/Protocol/Framing/Partial.antt =====
-- A frame that is still arriving.
use project_apex.Prelude.{
  ℕ, ◌≡◌, List, Text, Bool, ◌≤◌, length, none, ◌<◌, arith, ◌++◌, ◌+◌, length-append, ◌≢◌, [], some,
  ap, Option-cases, inl, inr, take, ◌∙◌, Bool-cases, length-pos, ltb, ltb→lt, sym, take-append_le,
  take_of_length-append,
}
use project_apex.Protocol.Framing.{
  decode, decode_body, encode, find, max_frame_bytes, ok, separator, header,
}
use project_apex.Protocol.Framing.RoundTrip.{
  encode-ok, head, find-head, start_of, decode_understood, head-IsAscii, understood, parsed,
}
use project_apex.Protocol.Framing.Search.{find-le, find-append, find-within}
use project_apex.Prelude.Utf8.{from_utf8, from_utf8_of_ascii}
use project_apex.Prelude.Decimal.{decimal, length-decimal-le}

head_short : (n : ℕ) → n ≤ max_frame_bytes → length (head n) ≤ 23
head_short n h =
    omega (arith, length-append header (decimal n), length-decimal-le 6 n (omega arith))

-- A separator that is missing from the first bytes has not arrived whole.
absent_short :
    (pre suf : List ℕ) (i : ℕ)
    → find separator (pre ++ suf) ≡ some i
    → find separator pre ≡ none
    → length pre < i + length separator
absent_short pre suf i f absent = elim (Bool-cases (ltb (length pre) (i + length separator))) [
  | inl short ↦ ltb→lt _ _ short
  | inr long ↦
      let found = find-within separator pre suf i (omega arith) f (ground arith) in
      absurd (ground arith)
]

module _ (is_json : Text → Bool) where
  decode_no_separator :
      (buf : List ℕ)
      → find separator buf ≡ none
      → length buf ≤ 1024
      → decode is_json buf ≡ (ok none, buf)
  unfolding decode
  decode_no_separator buf f l = ground arith

  decode_body-waits :
      (start n : ℕ) (buf : List ℕ)
      → n ≤ max_frame_bytes
      → length buf < start + n
      → decode_body is_json start n buf ≡ (ok none, buf)
  unfolding decode_body
  decode_body-waits start n buf small l = ground arith

  -- The first bytes of a frame, short of the whole of it, wherever the reads cut it: `decode` asks
  -- for more and leaves them in the buffer.
  pub decode-prefix :
      (body pre suf : List ℕ)
      → encode body ≡ ok (pre ++ suf)
      → suf ≢ []
      → decode is_json pre ≡ (ok none, pre)
  decode-prefix body pre suf e rest =
      let (small, shape) = encode-ok body (pre ++ suf) e in
      let n = length body in
      let i = length (head n) in
      let found : find separator (pre ++ suf) ≡ some i = rw shape (find-head n body) in
      let whole : length pre + length suf ≡ start_of n + n = omega (
        arith,
        length-append pre suf,
        length-append (head n) (separator ++ body),
        length-append separator body,
        ap length shape,
      ) in
      let left : 0 < length suf = length-pos suf rest in
      elim (Option-cases (find separator pre)) [
        | inl absent ↦
            decode_no_separator pre absent
              (omega (arith, absent_short pre suf i found absent, head_short n small))
        | inr (j, here) ↦
            let later = find-append separator pre suf j (omega arith) here in
            let room = find-le separator pre j (omega arith) here in
            let same_place : j ≡ i = ground (arith, later, found) in
            let front : take j pre ≡ head n =
              sym (take-append_le j pre suf (omega arith))
              ∙ ap (λ k. take k (pre ++ suf)) same_place
              ∙ ap (take i) shape
              ∙ take_of_length-append (head n) (separator ++ body) in
            decode_understood is_json pre (head n) (decimal n) j n here
              (ap from_utf8 front ∙ from_utf8_of_ascii (head n) (head-IsAscii n)) (understood n)
              (parsed n (omega arith))
            ∙ decode_body-waits (j + length separator) n pre small (omega arith)
      ]
