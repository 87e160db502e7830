-- ===== src/Protocol/Framing/Tests.antt =====
-- Frames that the tests of protocol/src/framing.rs read and write.
use project_apex.Prelude.{
  ℕ, ◌≡◌, refl, ◌≢◌, Bool, false, none, some, List, [], ◌∷◌, ◌++◌, arith, ◌==◌, Text, codes, drop,
}
use mathlib.Core.Logic.{◌≢◌}
use project_apex.Prelude.Utf8.{from_utf8, strip_prefix}
use project_apex.Prelude.Decimal.{decimal}
use project_apex.Protocol.Framing.{
  separator, frame, ok, err, too_large, malformed, header_not_utf8, encode, find, decode,
}
use project_apex.Protocol.Framing.RoundTrip.{decode-encode, decode_too_large, head}
use project_apex.Protocol.Framing.Partial.{decode-prefix}
use project_apex.Protocol.Framing.Progress.{decode_progress, decode_stuck, Consumed}

-- A stand-in for the parser of JSON: what begins with a brace.
abbrev braced : Text → Bool
braced [] = false
braced (c ∷ text) = c == 123

abbrev body : Text
body = codes "{}"

abbrev wire : List ℕ
wire = codes "Content-Length: 2" ++ separator ++ codes "{}"

encode-body : encode body ≡ ok wire
unfolding encode decimal
encode-body = refl

body_is_text : from_utf8 body ≢ none
unfolding from_utf8
body_is_text h = cc

decode-encode_example : decode braced (wire ++ codes "Con") ≡ (ok (some (frame body)), codes "Con")
decode-encode_example = decode-encode braced body (codes "Con") encode-body body_is_text refl

decode-prefix_example : decode braced (codes "Content-Le") ≡ (ok none, codes "Content-Le")
decode-prefix_example =
    decode-prefix braced body (codes "Content-Le") (drop 10 wire) encode-body (λ h. cc)

decode_too_large_example :
    decode braced (head 2000000 ++ (separator ++ codes "{}"))
    ≡ (err (too_large 2000000), codes "{}")
decode_too_large_example = decode_too_large braced 2000000 (codes "{}") (omega arith) (omega arith)

abbrev broken : List ℕ
broken = 255 ∷ separator

decode-broken : (decode braced broken).0 ≡ err (malformed header_not_utf8)
unfolding decode find from_utf8 strip_prefix
decode-broken = refl

decode_stuck_example :
    decode braced (broken ++ wire) ≡ (err (malformed header_not_utf8), broken ++ wire)
decode_stuck_example = decode_stuck braced broken wire decode-broken

decode_progress_example :
    Consumed broken (decode braced broken).0 (decode braced broken).1
    × ((n : ℕ) × ((decode braced broken).1 ≡ drop n broken))
decode_progress_example = decode_progress braced broken
