-- ===== src/Prelude/Utf8.antt =====
-- What the program uses of `str`: `from_utf8`, `trim`, `strip_prefix`, `parse` and `to_string`.
-- A text that is only looked at as characters is the list of its code points.
use Prim.Native.Nat.{ℕ, ◌+◌, ◌-◌, ◌*◌, ◌%◌, ◌<◌}
use mathlib.Core.Path.{◌≡◌, refl}
use mathlib.Core.Bool.{Bool, ◌&&◌, ◌||◌}
use mathlib.Core.Option
use mathlib.Core.Option.{Option, none, some}
use mathlib.Core.List.{List, [], ◌∷◌, ◌++◌}
use native.Mathlib.Omega.{arith}
use project_apex.Prelude.Tests.{ltb, leb, ◌==◌, if◌then◌else◌}
use project_apex.Prelude.Lists.{All}
use project_apex.Prelude.Bytes.{Text}

-- The state of the decoder inside a character: the bytes that are still to come, the range of the
-- next of them, and the bits so far.
pub record Utf8 : Type 0 where
  pub more : ℕ
  pub lo : ℕ
  pub hi : ℕ
  pub bits : ℕ

abbrev pub between_chars : Utf8
between_chars = record { more = 0; lo = 0; hi = 0; bits = 0 }

-- The first byte of a character: what must follow it, by the table of well-formed sequences.
lead : ℕ → Option Utf8
lead b =
    if leb 0xc2 b && leb b 0xdf
    then some (record { more = 1; lo = 0x80; hi = 0xbf; bits = b % 32 })
    else if b == 0xe0
    then some (record { more = 2; lo = 0xa0; hi = 0xbf; bits = b % 16 })
    else if b == 0xed
    then some (record { more = 2; lo = 0x80; hi = 0x9f; bits = b % 16 })
    else if leb 0xe1 b && leb b 0xef
    then some (record { more = 2; lo = 0x80; hi = 0xbf; bits = b % 16 })
    else if b == 0xf0
    then some (record { more = 3; lo = 0x90; hi = 0xbf; bits = b % 8 })
    else if leb 0xf1 b && leb b 0xf3
    then some (record { more = 3; lo = 0x80; hi = 0xbf; bits = b % 8 })
    else if b == 0xf4
    then some (record { more = 3; lo = 0x80; hi = 0x8f; bits = b % 8 })
    else none

-- One byte: the next state, and the character that it completes.
utf8_step : Utf8 → ℕ → Option (Utf8 × List ℕ)
unfolding lead
utf8_step s b =
    if s.more == 0
    then (if ltb b 0x80
        then some (between_chars, b ∷ [])
        else elim (lead b) [ none ↦ none | some s' ↦ some (s', []) ])
    else if leb s.lo b && leb b s.hi
    then (let bits = s.bits * 64 + b % 64 in
        if s.more == 1
        then some (between_chars, bits ∷ [])
        else some (record { more = s.more - 1; lo = 0x80; hi = 0xbf; bits = bits }, []))
    else none

utf8_from : Utf8 → Text → Option (List ℕ)
unfolding utf8_step
utf8_from s [] = if s.more == 0 then some [] else none
utf8_from s (b ∷ text) = elim (utf8_step s b) [
  | none ↦ none
  | some (s', out) ↦ Option.map (λ rest. out ++ rest) (utf8_from s' text)
]

-- `str::from_utf8`: the characters of a text, if its bytes are well formed.
unfoldable pub from_utf8 : Text → Option (List ℕ)
unfolding utf8_from
from_utf8 text = utf8_from between_chars text

abbrev pub IsAscii : Text → Type 0
IsAscii = All (λ b. b < 0x80)

pub from_utf8_of_ascii : (text : Text) → IsAscii text → from_utf8 text ≡ some text
unfolding from_utf8
from_utf8_of_ascii [] h = refl
from_utf8_of_ascii (b ∷ text) h = ground (arith, from_utf8_of_ascii text h.1)

-- `char::is_whitespace`
unfoldable pub is_whitespace : ℕ → Bool
is_whitespace c =
    (leb 9 c && leb c 13)
    || (c == 0x20)
    || (c == 0x85)
    || (c == 0xa0)
    || (c == 0x1680)
    || (leb 0x2000 c && leb c 0x200a)
    || (c == 0x2028)
    || (c == 0x2029)
    || (c == 0x202f)
    || (c == 0x205f)
    || (c == 0x3000)

unfoldable pub trim_start : List ℕ → List ℕ
trim_start [] = []
trim_start (c ∷ text) = let rest = trim_start text in if is_whitespace c then rest else c ∷ text

unfoldable pub trim_end : List ℕ → List ℕ
trim_end [] = []
trim_end (c ∷ text) = elim (trim_end text) [
  | [] ↦ if is_whitespace c then [] else c ∷ []
  | d ∷ rest ↦ c ∷ d ∷ rest
]

unfoldable pub trim : List ℕ → List ℕ
unfolding trim_start trim_end is_whitespace
trim text = trim_end (trim_start text)

-- `s.strip_prefix(prefix)`, on bytes or on characters
unfoldable pub strip_prefix : List ℕ → List ℕ → Option (List ℕ)
strip_prefix [] text = some text
strip_prefix (p ∷ prefix) [] = none
strip_prefix (p ∷ prefix) (c ∷ text) =
    let rest = strip_prefix prefix text in if p == c then rest else none

pub strip_prefix-append : (prefix text : List ℕ) → strip_prefix prefix (prefix ++ text) ≡ some text
unfolding strip_prefix
strip_prefix-append [] text = refl
strip_prefix-append (p ∷ prefix) text = ground (arith, strip_prefix-append prefix text)

abbrev push_first : ℕ → List Text → List Text
push_first c [] = (c ∷ []) ∷ []
push_first c (l ∷ ls) = (c ∷ l) ∷ ls

-- `text.lines()`, where a carriage return before the end of a line stays: its users do not look
-- there.
unfoldable pub lines : Text → List Text
lines [] = []
lines (c ∷ text) = let rest = lines text in if c == 10 then [] ∷ rest else push_first c rest
