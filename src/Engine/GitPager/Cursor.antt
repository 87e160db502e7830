-- ===== src/Engine/GitPager/Cursor.antt =====
-- A cursor reads back as the generation and the offset it was made of.
use project_apex.Prelude.{ℕ, ◌^◌, ◌<◌, ◌≡◌, refl, some, [], ◌∷◌, ◌++◌, arith, Text}
use project_apex.Prelude.Decimal.{
  decimal, parse_usize, parse_usize-decimal, decimal-AreDigits, AreDigits,
}
use project_apex.Engine.GitPager.{colon, split_once, parse_cursor, cursor_text}

split_once-append : (a b : Text) → AreDigits a → split_once (a ++ colon ∷ b) ≡ some (a, b)
unfolding split_once
split_once-append [] b d = refl
split_once-append (c ∷ a) b d = rw (split_once-append a b d.1) (ground (arith, d.0))

parse_cursor_of_split :
    (raw a b : Text) (g o : ℕ)
    → split_once raw ≡ some (a, b)
    → parse_usize a ≡ some g
    → parse_usize b ≡ some o
    → parse_cursor raw ≡ some (g, o)
unfolding parse_cursor
parse_cursor_of_split raw a b g o h ha hb = ground (arith, h, ha, hb)

pub parse_cursor-cursor_text :
    (g o : ℕ) → g < 2 ^ 64 → o < 2 ^ 64 → parse_cursor (cursor_text g o) ≡ some (g, o)
unfolding cursor_text
parse_cursor-cursor_text g o hg ho =
    parse_cursor_of_split (cursor_text g o) (decimal g) (decimal o) g o
      (split_once-append (decimal g) (decimal o) (decimal-AreDigits g)) (parse_usize-decimal g hg)
      (parse_usize-decimal o ho)
