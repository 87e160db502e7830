-- ===== src/Prelude/Decimal.antt =====
-- Numbers in decimal: `to_string`, and `parse::<usize>()`, which takes a leading `+` and refuses an
-- empty text, any other character and a number of 2 ^ 64 or more.
use Prim.Native.Nat.{ℕ, zero, suc, ◌+◌, ◌-◌, ◌*◌, ◌/◌, ◌%◌, ◌^◌, ◌≤◌, ◌<◌}
use mathlib.Core.Path.{◌≡◌, refl, ap, ◌∙◌}
use mathlib.Core.Logic.{◌≢◌, inl, inr}
use mathlib.Core.Bool.{true, false, ◌&&◌}
use mathlib.Core.Option.{Option, none, some}
use mathlib.Core.List.{[], ◌∷◌, ◌++◌}
use native.Mathlib.Omega.{arith}
use native.Mathlib.Nat.{pow-suc}
use project_apex.Prelude.Tests.{ltb, leb, ◌==◌, if◌then◌else◌, Bool-cases}
use project_apex.Prelude.Lists.{All, All-append, length, length-append}
use project_apex.Prelude.Bytes.{Text}

decimal_fuel : ℕ → ℕ → Text
decimal_fuel zero n = []
decimal_fuel (suc fuel) n =
    let front = decimal_fuel fuel (n / 10) in
    if ltb n 10 then (n + b'0') ∷ [] else front ++ (n % 10 + b'0') ∷ []

-- `n.to_string()`; `n + 1` rounds are enough, since each divides by ten.
unfoldable pub decimal : ℕ → Text
unfolding decimal_fuel
decimal n = decimal_fuel (n + 1) n

-- The digits from the left, with the overflow check of each step.
unfoldable pub parse_digits : ℕ → Text → Option ℕ
parse_digits n [] = some n
parse_digits n (c ∷ text) =
    let n' = n * 10 + (c - b'0') in
    elim (leb b'0' c && leb c b'9' && ltb n' (2 ^ 64)) [
      | true ↦ parse_digits n' text
      | false ↦ none
    ]

unfoldable pub parse_usize : Text → Option ℕ
unfolding parse_digits
parse_usize [] = none
parse_usize (c ∷ []) = if c == b'+' then none else parse_digits 0 (c ∷ [])
parse_usize (c ∷ d ∷ text) =
    if c == b'+' then parse_digits 0 (d ∷ text) else parse_digits 0 (c ∷ d ∷ text)

abbrev pub AreDigits : Text → Type 0
AreDigits = All (λ c. (b'0' ≤ c) × (c ≤ b'9'))

-- What the digits stand for, with no limit.
value : ℕ → Text → ℕ
value n [] = n
value n (c ∷ text) = value (n * 10 + (c - b'0')) text

value-le : (n : ℕ) (text : Text) → n ≤ value n text
unfolding value
value-le n [] = omega arith
value-le n (c ∷ text) = omega (arith, value-le (n * 10 + (c - b'0')) text)

parse_digits-value :
    (n : ℕ) (text : Text)
    → AreDigits text
    → value n text < 2 ^ 64
    → parse_digits n text ≡ some (value n text)
unfolding parse_digits value
parse_digits-value n [] d h = refl
parse_digits-value n (c ∷ text) d h =
    ground
      (arith, parse_digits-value (n * 10 + (c - b'0')) text, value-le (n * 10 + (c - b'0')) text)

value-append :
    (n : ℕ) (text : Text) (c : ℕ) → value n (text ++ c ∷ []) ≡ value n text * 10 + (c - b'0')
unfolding value
value-append n [] c = refl
value-append n (b ∷ text) c = value-append (n * 10 + (b - b'0')) text c

fuel-AreDigits : (fuel n : ℕ) → AreDigits (decimal_fuel fuel n)
unfolding decimal_fuel
fuel-AreDigits zero n = tt
fuel-AreDigits (suc fuel) n = elim (Bool-cases (ltb n 10)) [
  | inl small ↦ rw small ((omega arith, ground arith), tt)
  | inr large ↦ rw large (
      All-append _ (decimal_fuel fuel (n / 10)) _ (fuel-AreDigits fuel (n / 10))
        ((omega arith, omega arith), tt))
]

fuel-value : (fuel n : ℕ) → n < fuel → value 0 (decimal_fuel fuel n) ≡ n
unfolding decimal_fuel value
fuel-value zero n h = absurd (omega arith)
fuel-value (suc fuel) n h =
    ground
      (arith, fuel-value fuel (n / 10), value-append 0 (decimal_fuel fuel (n / 10)) (n % 10 + b'0'))

pub decimal-AreDigits : (n : ℕ) → AreDigits (decimal n)
unfolding decimal
decimal-AreDigits n = fuel-AreDigits (n + 1) n

fuel-length-le : (k fuel n : ℕ) → n < 10 ^ suc k → length (decimal_fuel fuel n) ≤ suc k
unfolding decimal_fuel
fuel-length-le k zero n h = omega arith
fuel-length-le zero (suc fuel) n h = ground arith
fuel-length-le (suc k) (suc fuel) n h = ground (
  arith,
  fuel-length-le k fuel (n / 10),
  length-append {0} (decimal_fuel fuel (n / 10)) ((n % 10 + b'0') ∷ []),
  pow-suc 10 (suc k),
)

-- A number below 10 ^ (k + 1) has at most k + 1 digits.
pub length-decimal-le : (k n : ℕ) → n < 10 ^ suc k → length (decimal n) ≤ suc k
unfolding decimal
length-decimal-le k n h = fuel-length-le k (n + 1) n h

fuel_nonempty : (fuel n : ℕ) → n < fuel → 0 < length (decimal_fuel fuel n)
unfolding decimal_fuel
fuel_nonempty zero n h = absurd (omega arith)
fuel_nonempty (suc fuel) n h =
    ground (arith, length-append {0} (decimal_fuel fuel (n / 10)) ((n % 10 + b'0') ∷ []))

nonempty : (n : ℕ) → decimal n ≢ []
unfolding decimal
nonempty n e = omega (arith, fuel_nonempty (n + 1) n, ap length e)

parse_digits-parse_usize :
    (text : Text) → AreDigits text → text ≢ [] → parse_usize text ≡ parse_digits 0 text
unfolding parse_usize
parse_digits-parse_usize [] d h = absurd (h refl)
parse_digits-parse_usize (c ∷ []) d h = ground arith
parse_digits-parse_usize (c ∷ e ∷ text) d h = ground arith

-- A `usize` that is printed is parsed back.
pub parse_usize-decimal : (n : ℕ) → n < 2 ^ 64 → parse_usize (decimal n) ≡ some n
parse_usize-decimal n h =
    let v : value 0 (decimal n) ≡ n = unfold decimal in fuel-value (n + 1) n (omega arith) in
    parse_digits-parse_usize (decimal n) (decimal-AreDigits n) (nonempty n)
    ∙ parse_digits-value 0 (decimal n) (decimal-AreDigits n) (omega arith)
    ∙ ap some v
