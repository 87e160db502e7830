-- ===== src/Protocol/Framing/Progress.antt =====
-- What a call of `decode` takes from the buffer, on every branch.
use project_apex.Prelude.{
  none, some, length-drop, length-take, inl, inr, Bool-cases, Option-cases, ℕ, ◌≡◌, List, Text,
  Bool, Option, drop, ◌++◌, length, ◌+◌, ◌≢◌, arith, ◌≤◌, ◌<◌, ltb, sym, take-append_le,
  drop_of_length, take, refl,
}
use project_apex.Prelude.Utf8.{from_utf8, trim, trim_start, strip_prefix}
use project_apex.Protocol.Framing.{
  decode, header_not_utf8, bad_header, bad_length, no_separator, body_not_utf8, body_not_json,
  malformed, too_large, Result, Frame, frame, ok, err, decode_body, decode_header, read_body,
  separator, find, header, max_frame_bytes, parse_usize,
}
use project_apex.Protocol.Framing.Search.{find-le, find-append}

-- What each outcome of `decode buf` says of the buffer that is left.
abbrev pub Consumed : List ℕ → Result (Option Frame) → List ℕ → Type 0
Consumed buf (ok none) left = left ≡ buf
Consumed buf (ok (some (frame body))) left =
    length left + length body + length separator ≤ length buf
Consumed buf (err (too_large n)) left = length left < length buf
Consumed buf (err (malformed header_not_utf8)) left = left ≡ buf
Consumed buf (err (malformed (no_separator n))) left = length left < length buf
Consumed buf (err (malformed (bad_header h))) left = length left < length buf
Consumed buf (err (malformed (bad_length d))) left = length left < length buf
Consumed buf (err (malformed body_not_utf8)) left = length left < length buf
Consumed buf (err (malformed body_not_json)) left = length left < length buf

abbrev Cut : List ℕ → Result (Option Frame) × List ℕ → Type 0
Cut buf (r, left) = Consumed buf r left × ((n : ℕ) × (left ≡ drop n buf))

module _ (is_json : Text → Bool) where
  read_body-Consumed :
      (buf left body : List ℕ)
      → length left + length body + length separator ≤ length buf
      → Consumed buf (read_body is_json body) left
  unfolding read_body
  read_body-Consumed buf left body h = elim (Option-cases (from_utf8 body)) [
    | inl broken ↦ rw (broken, read_body) (omega arith)
    | inr (text, fine) ↦ elim (Bool-cases (is_json body)) [
      | inl json ↦ rw (fine, json, read_body) h
      | inr other ↦ rw (fine, other, read_body) (omega arith)
    ]
  ]

  decode_body-Cut :
      (start n : ℕ) (buf : List ℕ)
      → length separator ≤ start
      → start ≤ length buf
      → Cut buf (decode_body is_json start n buf)
  unfolding decode_body
  decode_body-Cut start n buf h l = elim (Bool-cases (ltb max_frame_bytes n)) [
    | inl large ↦ rw (large, decode_body) (omega (arith, length-drop start buf), (start, refl))
    | inr small ↦ elim (Bool-cases (ltb (length buf) (start + n))) [
      | inl short ↦ rw (small, short, decode_body) (refl, (0, refl))
      | inr whole ↦
          let room : start + n ≤ length buf = ground arith in
          rw (small, whole, decode_body)
            (
              read_body-Consumed buf (drop (start + n) buf) (take n (drop start buf)) (
                  omega (
                    arith,
                    length-drop (start + n) buf,
                    length-take n (drop start buf),
                    length-drop start buf,
                  )),
              (start + n, refl),
            )
    ]
  ]

  decode_header-Cut :
      (sep : ℕ) (text buf : List ℕ)
      → sep + length separator ≤ length buf
      → Cut buf (decode_header is_json sep text buf)
  unfolding decode_header
  decode_header-Cut sep text buf h = elim (Option-cases (strip_prefix header (trim_start text))) [
    | inl other ↦
        rw (other, decode_header)
          (omega (arith, length-drop (sep + length separator) buf), (sep + length separator, refl))
    | inr (digits, understood) ↦ elim (Option-cases (parse_usize (trim digits))) [
      | inl bad ↦
          rw (understood, bad, decode_header)
            (
              omega (arith, length-drop (sep + length separator) buf),
              (sep + length separator, refl),
            )
      | inr (n, parsed) ↦
          rw (understood, parsed, decode_header)
            (decode_body-Cut (sep + length separator) n buf (omega arith) h)
    ]
  ]

  -- A call of `decode` leaves an end of the buffer. It leaves all of it when it asks for more
  -- bytes, and when the header is not UTF-8; a frame takes its body and a separator at least, and
  -- every other error takes at least one byte.
  pub decode_progress :
      (buf : List ℕ)
      → Consumed buf (decode is_json buf).0 (decode is_json buf).1
        × ((n : ℕ) × ((decode is_json buf).1 ≡ drop n buf))
  unfolding decode
  decode_progress buf = elim (Option-cases (find separator buf)) [
    | inl absent ↦ elim (Bool-cases (ltb 1024 (length buf))) [
      | inl endless ↦
          rw (absent, endless, decode) (ground arith, (length buf, sym (drop_of_length buf)))
      | inr short ↦ rw (absent, short, decode) (refl, (0, refl))
    ]
    | inr (sep, found) ↦ elim (Option-cases (from_utf8 (take sep buf))) [
      | inl broken ↦ rw (found, broken, decode) (refl, (0, refl))
      | inr (text, fine) ↦
          rw (found, fine, decode)
            (decode_header-Cut sep text buf (find-le separator buf sep (omega arith) found))
    ]
  ]

  decode_header-ne :
      (sep : ℕ) (text buf : List ℕ)
      → (decode_header is_json sep text buf).0 ≢ err (malformed header_not_utf8)
  unfolding decode_header decode_body read_body
  decode_header-ne sep text buf h = ground arith

  -- A buffer whose header `decode` has reported as not UTF-8 is reported so again, and left as it
  -- is, whatever bytes arrive behind it.
  pub decode_stuck :
      (buf more : List ℕ)
      → (decode is_json buf).0 ≡ err (malformed header_not_utf8)
      → decode is_json (buf ++ more) ≡ (err (malformed header_not_utf8), buf ++ more)
  unfolding decode
  decode_stuck buf more h = elim (Option-cases (find separator buf)) [
    | inl absent ↦ absurd (ground arith)
    | inr (sep, found) ↦
        let room = find-le separator buf sep (omega arith) found in
        let same = take-append_le sep buf more (omega arith) in
        elim (Option-cases (from_utf8 (take sep buf))) [
          | inl broken ↦
              rw (find-append separator buf more sep (omega arith) found, same, broken, decode)
          | inr (text, fine) ↦
              absurd (decode_header-ne sep text buf (rw (found, fine, decode) at h))
        ]
  ]
