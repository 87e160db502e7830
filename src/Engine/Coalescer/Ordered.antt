-- ===== src/Engine/Coalescer/Ordered.antt =====
-- engine/src/application/coalescer.rs: the order in which a batch tells of its entries.
use project_apex.Prelude.{
  ℕ, ◌+◌, ◌≤◌, ◌≡◌, refl, inl, inr, none, List, [], ◌∷◌, arith, leb, if◌then◌else◌, Bool-cases, All,
  Text,
}
use project_apex.Prelude.Map.{get, same}
use project_apex.Prelude.Order.{text_ord, nat_ord}
use project_apex.Engine.Coalescer.{Pending, place, sort_by_seq}

-- How many entries a list has for a path.
abbrev pub count : Text → List (Text × Pending) → ℕ
count path [] = 0
count path (e ∷ es) = if same path e.0 then 1 + count path es else count path es

-- By the order of arrival.
abbrev pub IsOrdered : List (Text × Pending) → Type 0
IsOrdered [] = Unit
IsOrdered (e ∷ es) = All (λ (f : Text × Pending). e.1.seq ≤ f.1.seq) es × IsOrdered es

All-weaken :
    (m n : ℕ) (es : List (Text × Pending))
    → m ≤ n
    → All (λ (f : Text × Pending). n ≤ f.1.seq) es
    → All (λ (f : Text × Pending). m ≤ f.1.seq) es
All-weaken m n [] h a = tt
All-weaken m n (e ∷ es) h a = (omega (arith, h, a.0), All-weaken m n es h a.1)

All-place :
    (P : Text × Pending → Type 0) (e : Text × Pending) (es : List (Text × Pending))
    → P e
    → All P es
    → All P (place e es)
unfolding place
All-place P e [] h a = (h, tt)
All-place P e (f ∷ fs) h a = elim (Bool-cases (leb e.1.seq f.1.seq)) [
  | inl first ↦ rw first (h, a)
  | inr later ↦ rw later (a.0, All-place P e fs h a.1)
]

place-IsOrdered :
    (e : Text × Pending) (es : List (Text × Pending)) → IsOrdered es → IsOrdered (place e es)
unfolding place
place-IsOrdered e [] o = (tt, tt)
place-IsOrdered e (f ∷ fs) o = elim (Bool-cases (leb e.1.seq f.1.seq)) [
  | inl first ↦
      let le : e.1.seq ≤ f.1.seq = ground (arith, first) in
      rw first ((le, All-weaken e.1.seq f.1.seq fs le o.0), o)
  | inr later ↦
      let le : f.1.seq ≤ e.1.seq = ground (arith, later) in
      rw later (
        All-place (λ (g : Text × Pending). f.1.seq ≤ g.1.seq) e fs le o.0,
        place-IsOrdered e fs o.1,
      )
]

pub sort_by_seq-IsOrdered : (es : List (Text × Pending)) → IsOrdered (sort_by_seq es)
unfolding sort_by_seq
sort_by_seq-IsOrdered [] = tt
sort_by_seq-IsOrdered (e ∷ es) = place-IsOrdered e (sort_by_seq es) (sort_by_seq-IsOrdered es)

pub All-sort_by_seq :
    (P : Text × Pending → Type 0) (es : List (Text × Pending)) → All P es → All P (sort_by_seq es)
unfolding sort_by_seq
All-sort_by_seq P [] a = tt
All-sort_by_seq P (e ∷ es) a = All-place P e (sort_by_seq es) a.0 (All-sort_by_seq P es a.1)

count-place :
    (path : Text) (e : Text × Pending) (es : List (Text × Pending))
    → count path (place e es) ≡ count path (e ∷ es)
unfolding place
count-place path e [] = refl
count-place path e (f ∷ fs) = ground (arith, count-place path e fs)

pub count-sort_by_seq :
    (path : Text) (es : List (Text × Pending)) → count path (sort_by_seq es) ≡ count path es
unfolding sort_by_seq
count-sort_by_seq path [] = refl
count-sort_by_seq path (e ∷ es) =
    ground (arith, count-place path e (sort_by_seq es), count-sort_by_seq path es)

pub get_of_count :
    (path : Text) (es : List (Text × Pending)) → count path es ≡ 0 → get path es ≡ none
unfolding get
get_of_count path [] h = refl
get_of_count path (e ∷ es) h = ground (arith, h, get_of_count path es)

-- Where a path has one entry at most, sorting does not change which it is.
get-place :
    (path : Text) (e : Text × Pending) (es : List (Text × Pending))
    → count path (e ∷ es) ≤ 1
    → get path (place e es) ≡ get path (e ∷ es)
unfolding place get
get-place path e [] h = refl
get-place path e (f ∷ fs) h = ground (arith, h, get-place path e fs)

pub get-sort_by_seq :
    (path : Text) (es : List (Text × Pending))
    → count path es ≤ 1
    → get path (sort_by_seq es) ≡ get path es
unfolding sort_by_seq get
get-sort_by_seq path [] h = refl
get-sort_by_seq path (e ∷ es) h = ground (
  arith,
  h,
  get-place path e (sort_by_seq es),
  count-sort_by_seq path es,
  get-sort_by_seq path es,
)
