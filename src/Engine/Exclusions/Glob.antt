-- ===== src/Engine/Exclusions/Glob.antt =====
-- engine/src/application/exclusions.rs: `glob` and what it calls. A text is the list of its
-- characters, and an index into it stands as what is left of the text from there.
pub mod Reference
pub mod Shift
pub mod Ends
pub mod Agrees
use project_apex.Prelude.{
  ℕ, zero, suc, ◌+◌, ◌-◌, ◌*◌, ◌/◌, ◌%◌, ◌^◌, ◌≤◌, ◌<◌, ◌≡◌, refl, sym, ap, ◌∙◌, ◌≢◌, ◌↔◌, ◌⊎◌, inl,
  inr, Bool, true, false, not, ◌&&◌, ◌||◌, Option, none, some, List, [], ◌∷◌, ◌++◌, map, append-nil,
  append_assoc, arith, ltb, leb, ◌==◌, if◌then◌else◌, Bool-cases, Option-cases, length,
  length-append, All, All-append, Text, codes,
}

abbrev pub slash : ℕ
slash = 47

abbrev pub star : ℕ
star = 42

abbrev pub question : ℕ
question = 63

-- The last loop of `glob_flat` and its answer.
unfoldable pub only_stars : Text → Bool
only_stars [] = true
only_stars (c ∷ p) = let rest = only_stars p in if c == star then rest else false

-- Where the saved star ends in the pattern, and the mark in the text.
abbrev pub Saved : Type 0
Saved = Option (Text × Text)

abbrev pub State : Type 0
State = Text × Text × Saved

-- One turn of the loop while there is text: the answer, or the indices of the next turn.
pub data Turn : Type 0 where
  answer : Bool → Turn
  again : State → Turn

-- The third and the last branch: back to the saved star.
unfoldable pub retry : Saved → Turn
retry none = answer false
retry (some (s, [])) = answer false
retry (some (s, d ∷ m)) = if d == slash then answer false else again (s, m, some (s, m))

unfoldable pub turn : Text → ℕ → Text → Saved → Turn
turn [] d t saved = retry saved
turn (c ∷ p) d t saved =
    if (c == question) || (c == d)
    then again (p, t, saved)
    else if c == star
    then again (p, d ∷ t, some (p, d ∷ t))
    else retry saved

-- `none` when the fuel is out.
unfoldable pub loop : ℕ → State → Option Bool
loop zero s = none
loop (suc fuel) (p, [], saved) = some (only_stars p)
loop (suc fuel) (p, d ∷ t, saved) = elim (turn p d t saved) [
  | answer b ↦ some b
  | again s ↦ loop fuel s
]

-- Each place of the mark is tried at most once, with at most both texts to go through.
abbrev pub enough : Text → Text → ℕ
enough p t = (length t + 2) * (length p + length t + 1)

abbrev pub or_false : Option Bool → Bool
or_false none = false
or_false (some b) = b

unfoldable pub glob_flat : Text → Text → Bool
glob_flat p t = or_false (loop (enough p t) (p, t, none))

-- `split_once('/')`: what is before the first separator, and behind it.
unfoldable pub split_slash : Text → Option (Text × Text)
split_slash [] = none
split_slash (c ∷ t) =
    let rest = split_slash t in
    if c == slash then some ([], t) else elim rest [ none ↦ none | some p ↦ some (c ∷ p.0, p.1) ]

-- `split_once("**")`
unfoldable pub split_stars : Text → Option (Text × Text)
split_stars [] = none
split_stars (a ∷ []) = none
split_stars (a ∷ b ∷ t) =
    let rest = split_stars (b ∷ t) in
    if a == star && b == star
    then some ([], t)
    else elim rest [ none ↦ none | some p ↦ some (a ∷ p.0, p.1) ]

unfoldable pub trim_start_slashes : Text → Text
trim_start_slashes [] = []
trim_start_slashes (c ∷ t) = let rest = trim_start_slashes t in if c == slash then rest else c ∷ t

unfoldable pub trim_end_slashes : Text → Text
trim_end_slashes [] = []
trim_end_slashes (c ∷ t) = elim (trim_end_slashes t) [
  | [] ↦ if c == slash then [] else c ∷ []
  | d ∷ rest ↦ c ∷ d ∷ rest
]

-- What `split_once('/')` leaves, again and again: the text behind each separator.
unfoldable pub tails : Text → List Text
tails [] = []
tails (c ∷ t) = let rest = tails t in if c == slash then t ∷ rest else rest

unfoldable pub any : (Text → Bool) → List Text → Bool
any f [] = false
any f (t ∷ ts) = f t || any f ts

unfoldable pub glob_segment_prefix : Text → Text → Bool
glob_segment_prefix head text = elim (split_slash text) [
  | some p ↦ glob_flat head p.0
  | none ↦ glob_flat head text
]

abbrev pub is_empty : Text → Bool
is_empty [] = true
is_empty (c ∷ t) = false

-- The pattern of each call is shorter, so that its length is enough fuel.
unfoldable pub glob_fuel : ℕ → Text → Text → Bool
glob_fuel zero pattern text = false
glob_fuel (suc fuel) pattern text = elim (split_stars pattern) [
  | none ↦ glob_flat pattern text
  | some p ↦
      let head = trim_end_slashes p.0 in
      let tail = trim_start_slashes p.1 in
      if not (is_empty head) && not (glob_segment_prefix head text)
      then false
      else if is_empty tail
      then true
      else any (glob_fuel fuel tail) (text ∷ tails text)
]

unfoldable pub glob : Text → Text → Bool
glob pattern text = glob_fuel (suc (length pattern)) pattern text
