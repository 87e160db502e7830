-- ===== src/Protocol/Framing.antt =====
-- protocol/src/framing.rs: `Content-Length` framing. A buffer is the list of the bytes that have
-- arrived; `decode` returns its result and the buffer that it leaves. `serde_json`, which is not
-- part of the repository, is the parameter `is_json`: whether it accepts a text.
pub mod Search
pub mod RoundTrip
pub mod Partial
pub mod Progress
mod Tests
use project_apex.Prelude.{
  ℕ, zero, suc, ◌+◌, ◌*◌, Bool, true, false, Option, none, some, List, [], ◌∷◌, ◌++◌, Text, codes,
  length, take, drop, ltb, if◌then◌else◌,
}
use project_apex.Prelude.Utf8.{from_utf8, trim_start, trim, strip_prefix}
use project_apex.Prelude.Decimal.{decimal, parse_usize}
use mathlib.Core.Option

abbrev pub max_frame_bytes : ℕ
max_frame_bytes = 1024 * 1024

abbrev pub header : Text
header = codes "Content-Length: "

abbrev pub separator : Text
separator = 13 ∷ 10 ∷ 13 ∷ 10 ∷ []

-- The body of a frame, a `String`: its bytes.
pub data Frame : Type 0 where
  frame : Text → Frame

-- The messages of `FrameError::Malformed`, one constructor each.
pub data Reason : Type 0 where
  no_separator : ℕ → Reason
  header_not_utf8 : Reason
  bad_header : List ℕ → Reason
  bad_length : List ℕ → Reason
  body_not_utf8 body_not_json : Reason

pub data FrameError : Type 0 where
  too_large : ℕ → FrameError
  malformed : Reason → FrameError

pub data Result {ℓ} (A : Type ℓ) : Type ℓ where
  ok : A → Result A
  err : FrameError → Result A

-- `FrameCodec::encode`
unfoldable pub encode : Text → Result (List ℕ)
encode body =
    if ltb max_frame_bytes (length body)
    then err (too_large (length body))
    else ok (header ++ (decimal (length body) ++ (separator ++ body)))

-- `haystack.windows(needle.len()).position(|w| w == needle)`
unfoldable pub find : Text → List ℕ → Option ℕ
find needle [] = none
find needle (x ∷ rest) =
    let later = Option.map suc (find needle rest) in
    elim (strip_prefix needle (x ∷ rest)) [ none ↦ later | some _ ↦ some 0 ]

module _ (is_json : Text → Bool) where
  -- The body has arrived: it must be a text, and JSON.
  unfoldable pub read_body : Text → Result (Option Frame)
  read_body body = elim (from_utf8 body) [
    | none ↦ err (malformed body_not_utf8)
    | some _ ↦ if is_json body then ok (some (frame body)) else err (malformed body_not_json)
  ]

  -- From the declared length on; `start` is where the body begins.
  unfoldable pub decode_body : ℕ → ℕ → List ℕ → Result (Option Frame) × List ℕ
  decode_body start len buf =
      if ltb max_frame_bytes len
      then (err (too_large len), drop start buf)
      else if ltb (length buf) (start + len)
      then (ok none, buf)
      else (read_body (take len (drop start buf)), drop (start + len) buf)

  -- From the text of the header on; `sep` is where the separator stands.
  unfoldable pub decode_header : ℕ → List ℕ → List ℕ → Result (Option Frame) × List ℕ
  decode_header sep text buf = elim (strip_prefix header (trim_start text)) [
    | none ↦ (err (malformed (bad_header text)), drop (sep + length separator) buf)
    | some digits ↦ elim (parse_usize (trim digits)) [
      | none ↦ (err (malformed (bad_length digits)), drop (sep + length separator) buf)
      | some len ↦ decode_body (sep + length separator) len buf
    ]
  ]

  -- `FrameCodec::decode`
  unfoldable pub decode : List ℕ → Result (Option Frame) × List ℕ
  decode buf = elim (find separator buf) [
    | none ↦
        if ltb 1024 (length buf)
        then (err (malformed (no_separator (length buf))), [])
        else (ok none, buf)
    | some sep ↦ elim (from_utf8 (take sep buf)) [
      | none ↦ (err (malformed header_not_utf8), buf)
      | some text ↦ decode_header sep text buf
    ]
  ]
