-- ===== src/Protocol/Base64/Letters.antt =====
-- The alphabet of `TABLE`, read back by `decode`: checked at each of the 64 letters.
use project_apex.Prelude.{
  ℕ, zero, suc, ◌<◌, ◌≡◌, refl, Bool, true, false, Option, none, some, arith, ◌==◌, if◌then◌else◌,
}
use project_apex.Protocol.Base64.{ok, letter, alphabet, sextet}

-- Whether a sextet was read as one number.
abbrev reads : Option ℕ → ℕ → Bool
reads none x = false
reads (some y) x = y == x

-- Whether the first letters of the table are read as their places.
check : ℕ → Bool
check zero = true
check (suc last) = if reads (alphabet (letter last)) last then check last else false

check_table : check 64 ≡ true
unfolding check letter alphabet
check_table = refl

read_as : (o : Option ℕ) (x : ℕ) → reads o x ≡ true → o ≡ some x
read_as o x h = ground arith

alphabet_of_checked : (x count : ℕ) → check count ≡ true → x < count → alphabet (letter x) ≡ some x
unfolding check
alphabet_of_checked x zero h small = absurd (omega arith)
alphabet_of_checked x (suc last) h small =
    ground (arith, alphabet_of_checked x last, read_as (alphabet (letter last)) last)

pub alphabet-letter : (x : ℕ) → x < 64 → alphabet (letter x) ≡ some x
alphabet-letter x small = alphabet_of_checked x 64 check_table small

-- A letter of the table stands for its index at every place of a chunk, as long as no padding
-- came before it.
pub sextet-letter : (i x : ℕ) → x < 64 → sextet i 0 (letter x) ≡ ok (x, 0)
unfolding sextet
sextet-letter i x h = ground (arith, alphabet-letter x h)
