-- ===== src/Prelude/Map.antt =====
-- `BTreeMap` as an association list in the order of its keys.
use Prim.Native.Nat.{◌+◌, Ordering}
use project_apex.Prelude.Order.{Ord}
use mathlib.Core.Path.{◌≡◌, refl}
use mathlib.Core.Bool.{Bool, true, false, not}
use mathlib.Core.Option.{Option, none, some}
use mathlib.Core.List.{List, [], ◌∷◌, map}
use mathlib.Core.Logic.{inl, inr}
use native.Mathlib.Omega.{arith}
use project_apex.Prelude.Tests.{if◌then◌else◌, Bool-cases}
use project_apex.Prelude.Lists.{All, length, filter}

abbrev pub is_eq : Ordering → Bool
is_eq Ordering.lt = false
is_eq Ordering.eq = true
is_eq Ordering.gt = false

abbrev pub Map {ℓ κ} : Type ℓ → Type κ → Type (ℓ ⊔ κ)
Map K V = List (K × V)

module _ {ℓ} {K : Type ℓ} ⦃o : Ord K⦄ where
  -- Whether two keys are one.
  unfoldable pub same : K → K → Bool
  same a b = is_eq (o.order a b)

  pub same_refl : (a : K) → same a a ≡ true
  unfolding same
  same_refl a = ground (arith, o.order_refl a)

  pub same_eq : (a b : K) → same a b ≡ true → a ≡ b
  unfolding same
  same_eq a b h = ground (arith, o.order_eq a b)

  pub same_of_lt : (a b : K) → o.order a b ≡ Ordering.lt → (same a b ≡ false) × (same b a ≡ false)
  unfolding same
  same_of_lt a b h = ground (arith, o.order_eq b a, o.order_refl a)

module _ {ℓ κ} {K : Type ℓ} {V : Type κ} ⦃o : Ord K⦄ where
  unfoldable pub get : K → Map K V → Option V
  get k [] = none
  get k ((j, w) ∷ m) = if same k j then some w else get k m

  unfoldable pub insert : K → V → Map K V → Map K V
  insert k v [] = (k, v) ∷ []
  insert k v ((j, w) ∷ m) =
      let rest = insert k v m in
      elim (o.order k j) [
        | Ordering.lt ↦ (k, v) ∷ (j, w) ∷ m
        | Ordering.eq ↦ (k, v) ∷ m
        | Ordering.gt ↦ (j, w) ∷ rest
      ]

  unfoldable pub remove : K → Map K V → Map K V
  remove k [] = []
  remove k ((j, w) ∷ m) = let rest = remove k m in if same k j then rest else (j, w) ∷ rest

  pub get-insert :
      (k j : K) (v : V) (m : Map K V)
      → get j (insert k v m) ≡ (if same j k then some v else get j m)
  unfolding get insert same
  get-insert k j v [] = refl
  get-insert k j v ((i, w) ∷ m) =
      ground
        (arith, get-insert k j v m, o.order_eq k i, o.order_eq j i, o.order_eq j k, o.order_refl i)

  pub get-remove :
      (k j : K) (m : Map K V) → get j (remove k m) ≡ (if same j k then none else get j m)
  unfolding get remove same
  get-remove k j [] = ground arith
  get-remove k j ((i, w) ∷ m) = ground (
    arith,
    get-remove k j m,
    o.order_eq k i,
    o.order_refl i,
    o.order_eq j i,
    o.order_eq j k,
    o.order_refl k,
  )

  abbrev pub contains : K → Map K V → Bool
  contains k m = elim (get k m) [ none ↦ false | some _ ↦ true ]

  -- every key lies above `k`
  abbrev pub Above : K → Map K V → Type 0
  Above k m = All (λ (e : K × V). o.order k e.0 ≡ Ordering.lt) m

  -- What makes the list a map: its keys rise.
  abbrev pub IsSorted : Map K V → Type 0
  IsSorted [] = Unit
  IsSorted (e ∷ m) = Above e.0 m × IsSorted m

  Above-trans : (k j : K) (m : Map K V) → o.order k j ≡ Ordering.lt → Above j m → Above k m
  Above-trans k j [] h a = tt
  Above-trans k j ((i, w) ∷ m) h a = (o.order_trans k j i h a.0, Above-trans k j m h a.1)

  Above-insert :
      (k j : K) (v : V) (m : Map K V)
      → o.order j k ≡ Ordering.lt
      → Above j m
      → Above j (insert k v m)
  unfolding insert
  Above-insert k j v [] h a = (h, tt)
  Above-insert k j v ((i, w) ∷ m) h a = ground (arith, Above-insert k j v m)

  Above-remove : (k j : K) (m : Map K V) → Above j m → Above j (remove k m)
  unfolding remove
  Above-remove k j [] a = tt
  Above-remove k j ((i, w) ∷ m) a = ground (arith, Above-remove k j m)

  pub insert-IsSorted : (k : K) (v : V) (m : Map K V) → IsSorted m → IsSorted (insert k v m)
  unfolding insert
  insert-IsSorted k v [] s = (tt, tt)
  insert-IsSorted k v ((i, w) ∷ m) s = ground (
    arith,
    insert-IsSorted k v m,
    Above-trans k i m,
    Above-insert k i v m,
    o.order_swap k i,
    o.order_eq k i,
  )

  pub remove-IsSorted : (k : K) (m : Map K V) → IsSorted m → IsSorted (remove k m)
  unfolding remove
  remove-IsSorted k [] s = tt
  remove-IsSorted k ((i, w) ∷ m) s = ground (arith, remove-IsSorted k m, Above-remove k i m)

  pub get_of_Above : (k : K) (m : Map K V) → Above k m → get k m ≡ none
  unfolding get same
  get_of_Above k [] a = refl
  get_of_Above k ((i, w) ∷ m) a = ground (arith, get_of_Above k m)

  pub remove_of_Above : (k : K) (m : Map K V) → Above k m → remove k m ≡ m
  unfolding remove same
  remove_of_Above k [] a = refl
  remove_of_Above k ((i, w) ∷ m) a = ground (arith, remove_of_Above k m)

  -- A key that was not there is put in and taken out again.
  pub remove-insert :
      (k : K) (v : V) (m : Map K V) → IsSorted m → get k m ≡ none → remove k (insert k v m) ≡ m
  unfolding get insert remove same
  remove-insert k v [] s h = ground (arith, o.order_refl k)
  remove-insert k v ((i, w) ∷ m) s h =
      ground
        (arith, remove-insert k v m s.1, o.order_refl k, Above-trans k i m, remove_of_Above k m)

  -- A removed key takes one entry with it.
  pub length-remove :
      (k : K) (m : Map K V) (v : V)
      → IsSorted m
      → get k m ≡ some v
      → length (remove k m) + 1 ≡ length m
  unfolding get remove same
  length-remove k [] v s h = cc
  length-remove k ((i, w) ∷ m) v s h =
      ground (arith, length-remove k m v, remove_of_Above i m, o.order_eq k i)

  -- An update of a key that is there keeps the number of entries; a new key adds one.
  pub length-insert :
      (k : K) (v : V) (m : Map K V)
      → IsSorted m
      → length (insert k v m) ≡ (if contains k m then length m else length m + 1)
  unfolding get insert same
  length-insert k v [] s = omega arith
  length-insert k v ((i, w) ∷ m) s =
      ground (arith, length-insert k v m, get_of_Above k m, Above-trans k i m)

  abbrev pub values : Map K V → List V
  values [] = []
  values (e ∷ m) = e.1 ∷ values m

  -- Taking out the entries under some keys, one by one.
  unfoldable pub take_each : List K → Map K V → Map K V × List (K × V)
  take_each [] m = (m, [])
  take_each (k ∷ ks) m =
      let (left, taken) = take_each ks (remove k m) in
      elim (get k m) [ none ↦ (left, taken) | some v ↦ (left, (k, v) ∷ taken) ]

  take_each-skip :
      (ks : List K) (k : K) (v : V) (m : Map K V)
      → All (λ i. same i k ≡ false) ks
      → take_each ks ((k, v) ∷ m) ≡ ((k, v) ∷ (take_each ks m).0, (take_each ks m).1)
  unfolding take_each remove get
  take_each-skip [] k v m h = refl
  take_each-skip (i ∷ ks) k v m h = ground (arith, h.0, take_each-skip ks k v (remove i m) h.1)

  take_each-head :
      (ks : List K) (k : K) (v : V) (m : Map K V)
      → Above k m
      → take_each (k ∷ ks) ((k, v) ∷ m) ≡ ((take_each ks m).0, (k, v) ∷ (take_each ks m).1)
  unfolding take_each remove get
  take_each-head ks k v m a = ground (arith, same_refl k, remove_of_Above k m a)

module _ {ℓ κ} {K : Type ℓ} {V : Type κ} ⦃o : Ord K⦄ (p : K × V → Bool) where
  abbrev pub keys_of : Map K V → List K
  keys_of m = map (λ e. e.0) (filter p m)

  keys-Above : (k : K) (m : Map K V) → Above k m → All (λ i. same i k ≡ false) (keys_of m)
  keys-Above k [] a = tt
  keys-Above k ((j, v) ∷ m) a = elim (Bool-cases (p (j, v))) [
    | inl mine ↦ rw (mine, All) ((same_of_lt k j a.0).1, keys-Above k m a.1)
    | inr other ↦ rw (other, All) (keys-Above k m a.1)
  ]

  -- Taking out, one by one, what passes a test leaves what does not.
  pub take_each-filter :
      (m : Map K V) → IsSorted m → take_each (keys_of m) m ≡ (filter (λ e. not (p e)) m, filter p m)
  unfolding take_each
  take_each-filter [] s = refl
  take_each-filter ((k, v) ∷ m) s = elim (Bool-cases (p (k, v))) [
    | inl mine ↦
        let first = take_each-head (keys_of m) k v m s.0 in
        let ih = take_each-filter m s.1 in ground arith
    | inr other ↦
        let skip = take_each-skip (keys_of m) k v m (keys-Above k m s.0) in
        let ih = take_each-filter m s.1 in ground arith
  ]
