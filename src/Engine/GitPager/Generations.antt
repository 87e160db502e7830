-- ===== src/Engine/GitPager/Generations.antt =====
-- The generations of the snapshots that are held differ.
use project_apex.Prelude.{
  ℕ, ◌+◌, ◌^◌, ◌≤◌, ◌<◌, ◌≡◌, inl, inr, true, false, Option, none, some, [], ◌∷◌, arith, ◌==◌,
  Option-cases, Bool-cases, Text,
}
use project_apex.Prelude.Map.{Map, get, same, get-insert, get-remove, same_eq, same_refl}
use project_apex.Prelude.Order.{text_ord}
use project_apex.Engine.GitPager.{
  Held, err, ok, StatusPager, StatusSnapshot, unknown_cursor, page, slice, offset_of, cursor_text,
  max_generation, hold, forget, new,
}
use project_apex.Engine.GitPager.Cursor.{parse_cursor-cursor_text}

-- What the calls from a new pager can lead to.
pub data Reached : StatusPager → Type 0 where
  at_first : Reached new
  held :
      {p : StatusPager} (workspace : Text) (snapshot : StatusSnapshot) (limit : ℕ)
      → Reached p
      → Reached (hold workspace snapshot limit p).0
  forgot : {p : StatusPager} (workspace : Text) → Reached p → Reached (forget workspace p)

abbrev IsDistinct : StatusPager → Type 0
IsDistinct p =
    (a b : Text) (h k : Held)
    → get a p.held ≡ some h
    → get b p.held ≡ some k
    → h.generation ≡ k.generation
    → same a b ≡ true

generation-max_generation :
    (a : Text) (h : Held) (m : Map Text Held) → get a m ≡ some h → h.generation ≤ max_generation m
unfolding get max_generation
generation-max_generation a h [] e = absurd (ground (arith, e))
generation-max_generation a h ((k, w) ∷ m) e = ground (arith, e, generation-max_generation a h m)

same_both : (a b w : Text) → same a w ≡ true → same b w ≡ true → same a b ≡ true
same_both a b w ha hb = rw (same_eq a w ha, same_eq b w hb) (same_refl w)

hold-IsDistinct :
    (workspace : Text) (snapshot : StatusSnapshot) (limit : ℕ) (p : StatusPager)
    → IsDistinct p
    → IsDistinct (hold workspace snapshot limit p).0
unfolding hold
hold-IsDistinct workspace snapshot limit p d a b h k ha hb e =
    let fresh : Held = record { snapshot = snapshot; generation = max_generation p.held + 1 } in
    ground (
      arith,
      get-insert workspace a fresh p.held,
      get-insert workspace b fresh p.held,
      ha,
      hb,
      e,
      d a b h k,
      generation-max_generation a h p.held,
      generation-max_generation b k p.held,
      same_both a b workspace,
    )

forget-IsDistinct :
    (workspace : Text) (p : StatusPager) → IsDistinct p → IsDistinct (forget workspace p)
unfolding forget
forget-IsDistinct workspace p d a b h k ha hb e =
    ground
      (arith, get-remove workspace a p.held, get-remove workspace b p.held, ha, hb, e, d a b h k)

Reached-IsDistinct : (p : StatusPager) → Reached p → IsDistinct p
unfolding new get
Reached-IsDistinct _ at_first = λ a b h k ha hb e. absurd (ground (arith, ha))
Reached-IsDistinct _ (held {p} workspace snapshot limit r) =
    hold-IsDistinct workspace snapshot limit p (Reached-IsDistinct p r)
Reached-IsDistinct _ (forgot {p} workspace r) =
    forget-IsDistinct workspace p (Reached-IsDistinct p r)

-- A cursor of one generation is refused where another is held.
page_of_other :
    (b : Text) (g o limit : ℕ) (p : StatusPager) (k : Held)
    → g < 2 ^ 64
    → o < 2 ^ 64
    → get b p.held ≡ some k
    → (g == k.generation) ≡ false
    → page b (some (cursor_text g o)) limit p ≡ err unknown_cursor
unfolding page offset_of
page_of_other b g o limit p k hg ho hb other =
    ground (arith, parse_cursor-cursor_text g o hg ho, hb, other)

page_of_none :
    (b : Text) (c : Option Text) (limit : ℕ) (p : StatusPager)
    → get b p.held ≡ none
    → page b c limit p ≡ err unknown_cursor
unfolding page
page_of_none b c limit p h = ground (arith, h)

-- In every state reached from a new pager, a cursor of the snapshot that one workspace holds is
-- refused for every other workspace, whatever that holds.
pub page-elsewhere :
    (p : StatusPager) (a b : Text) (h : Held) (o limit : ℕ)
    → Reached p
    → get a p.held ≡ some h
    → same a b ≡ false
    → h.generation < 2 ^ 64
    → o < 2 ^ 64
    → page b (some (cursor_text h.generation o)) limit p ≡ err unknown_cursor
page-elsewhere p a b h o limit r ha other hg ho = elim (Option-cases (get b p.held)) [
  | inl nothing ↦ page_of_none b (some (cursor_text h.generation o)) limit p nothing
  | inr (k, hb) ↦
      page_of_other b h.generation o limit p k hg ho hb
        (ground (arith, Reached-IsDistinct p r a b h k ha hb, other))
]

-- The calls that leave what is held for one workspace, or replace it: anything but forgetting it.
pub data Later (b : Text) (p : StatusPager) : StatusPager → Type 0 where
  here : Later b p p
  held_then :
      {q : StatusPager} (workspace : Text) (snapshot : StatusSnapshot) (limit : ℕ)
      → Later b p q
      → Later b p (hold workspace snapshot limit q).0
  forgot_then :
      {q : StatusPager} (workspace : Text)
      → same b workspace ≡ false
      → Later b p q
      → Later b p (forget workspace q)

-- What a workspace has is newer than a generation.
abbrev IsNewer : Text → ℕ → StatusPager → Type 0
IsNewer b g p = (k : Held) × (get b p.held ≡ some k) × (g < k.generation)

hold-IsNewer :
    (b workspace : Text) (g : ℕ) (snapshot : StatusSnapshot) (limit : ℕ) (p : StatusPager)
    → IsNewer b g p
    → IsNewer b g (hold workspace snapshot limit p).0
unfolding hold
hold-IsNewer b workspace g snapshot limit p (k, there, newer) =
    let fresh : Held = record { snapshot = snapshot; generation = max_generation p.held + 1 } in
    let found = get-insert workspace b fresh p.held in
    elim (Bool-cases (same b workspace)) [
      | inl mine ↦ (
        fresh,
        ground (arith, found, mine),
        ground (arith, newer, generation-max_generation b k p.held there),
      )
      | inr other ↦ (k, ground (arith, found, other, there), newer)
    ]

Later-IsNewer : (b : Text) (g : ℕ) (p q : StatusPager) → IsNewer b g p → Later b p q → IsNewer b g q
unfolding forget
Later-IsNewer b g p _ n here = n
Later-IsNewer b g p _ n (held_then {q} workspace snapshot limit l) =
    hold-IsNewer b workspace g snapshot limit q (Later-IsNewer b g p q n l)
Later-IsNewer b g p _ n (forgot_then {q} workspace other l) =
    let (k, there, newer) = Later-IsNewer b g p q n l in
    (k, ground (arith, get-remove workspace b q.held, other, there), newer)

held_now :
    (b : Text) (g : ℕ) (snapshot : StatusSnapshot) (limit : ℕ) (p : StatusPager)
    → g ≤ max_generation p.held
    → IsNewer b g (hold b snapshot limit p).0
unfolding hold
held_now b g snapshot limit p h =
    let fresh : Held = record { snapshot = snapshot; generation = max_generation p.held + 1 } in
    (fresh, ground (arith, get-insert b b fresh p.held, same_refl b), ground (arith, h))

-- Holding a new snapshot for a workspace answers with its first page. A cursor of a snapshot that the
-- pager held at that moment, for this workspace or for another, with a generation and an offset below
-- 2 ^ 64, is refused for this workspace after the hold and after any further calls for any workspaces,
-- as long as this one is not forgotten.
pub hold-page :
    (p q : StatusPager) (a b : Text) (h : Held) (snapshot : StatusSnapshot) (o limit limit' : ℕ)
    → get a p.held ≡ some h
    → h.generation < 2 ^ 64
    → o < 2 ^ 64
    → Later b (hold b snapshot limit p).0 q
    → ((hold b snapshot limit p).1
        ≡ ok (
            slice (record { snapshot = snapshot; generation = max_generation p.held + 1 }) 0 limit))
      × (page b (some (cursor_text h.generation o)) limit' q ≡ err unknown_cursor)
unfolding hold page offset_of
hold-page p q a b h snapshot o limit limit' ha hg ho later =
    let fresh : Held = record { snapshot = snapshot; generation = max_generation p.held + 1 } in
    let there = get-insert b b fresh p.held in
    let newer =
      held_now b h.generation snapshot limit p (generation-max_generation a h p.held ha) in
    let (k, found, above) =
      Later-IsNewer b h.generation (hold b snapshot limit p).0 q newer later in
    (
      ground (arith, there, same_refl b),
      page_of_other b h.generation o limit' q k hg ho found (ground (arith, above)),
    )
