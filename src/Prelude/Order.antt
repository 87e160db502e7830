-- ===== src/Prelude/Order.antt =====
-- Ordered keys: what a `BTreeMap` asks of its keys (`Ord`), with the two key types of the program,
-- machine numbers and texts (`String` compares by bytes, first difference first).
use Prim.Native.Nat.{ℕ, compare, Ordering}
use mathlib.Core.Path.{◌≡◌, refl}
use mathlib.Core.List.{[], ◌∷◌}
use native.Mathlib.Omega.{arith}
use project_apex.Prelude.Bytes.{Text}

pub record Ord {ℓ} (K : Type ℓ) : Type ℓ where
  pub order : K → K → Ordering
  pub order_refl : (a : K) → order a a ≡ Ordering.eq
  pub order_eq : (a b : K) → order a b ≡ Ordering.eq → a ≡ b
  pub order_trans :
      (a b c : K) → order a b ≡ Ordering.lt → order b c ≡ Ordering.lt → order a c ≡ Ordering.lt
  pub order_swap : (a b : K) → order a b ≡ Ordering.gt → order b a ≡ Ordering.lt

pub nat_refl : (a : ℕ) → compare a a ≡ Ordering.eq
nat_refl a = ground arith

pub nat_eq : (a b : ℕ) → compare a b ≡ Ordering.eq → a ≡ b
nat_eq a b h = ground arith

pub nat_trans :
    (a b c : ℕ) → compare a b ≡ Ordering.lt → compare b c ≡ Ordering.lt → compare a c ≡ Ordering.lt
nat_trans a b c h k = ground arith

pub nat_swap : (a b : ℕ) → compare a b ≡ Ordering.gt → compare b a ≡ Ordering.lt
nat_swap a b h = ground arith

instance abbrev pub nat_ord : Ord ℕ
nat_ord = record {
  order = compare;
  order_refl = nat_refl;
  order_eq = nat_eq;
  order_trans = nat_trans;
  order_swap = nat_swap;
}

abbrev pub lex : Text → Text → Ordering
lex [] [] = Ordering.eq
lex [] (y ∷ ys) = Ordering.lt
lex (x ∷ xs) [] = Ordering.gt
lex (x ∷ xs) (y ∷ ys) =
    let rest = lex xs ys in
    elim (compare x y) [
      | Ordering.lt ↦ Ordering.lt
      | Ordering.eq ↦ rest
      | Ordering.gt ↦ Ordering.gt
    ]

pub lex_refl : (a : Text) → lex a a ≡ Ordering.eq
lex_refl [] = refl
lex_refl (x ∷ xs) = ground (arith, lex_refl xs)

pub lex_eq : (a b : Text) → lex a b ≡ Ordering.eq → a ≡ b
lex_eq [] [] h = refl
lex_eq [] (y ∷ ys) h = ground arith
lex_eq (x ∷ xs) [] h = ground arith
lex_eq (x ∷ xs) (y ∷ ys) h = ground (arith, lex_eq xs ys)

pub lex_trans :
    (a b c : Text) → lex a b ≡ Ordering.lt → lex b c ≡ Ordering.lt → lex a c ≡ Ordering.lt
lex_trans [] [] c h k = k
lex_trans [] (y ∷ ys) [] h k = ground arith
lex_trans [] (y ∷ ys) (z ∷ zs) h k = refl
lex_trans (x ∷ xs) [] c h k = ground arith
lex_trans (x ∷ xs) (y ∷ ys) [] h k = ground arith
lex_trans (x ∷ xs) (y ∷ ys) (z ∷ zs) h k = ground (arith, lex_trans xs ys zs)

pub lex_swap : (a b : Text) → lex a b ≡ Ordering.gt → lex b a ≡ Ordering.lt
lex_swap [] [] h = ground arith
lex_swap [] (y ∷ ys) h = ground arith
lex_swap (x ∷ xs) [] h = refl
lex_swap (x ∷ xs) (y ∷ ys) h = ground (arith, lex_swap xs ys)

instance abbrev pub text_ord : Ord Text
text_ord = record {
  order = lex;
  order_refl = lex_refl;
  order_eq = lex_eq;
  order_trans = lex_trans;
  order_swap = lex_swap;
}
