-- ===== src/Engine/Coalescer/Ready.antt =====
-- engine/src/application/coalescer.rs: what one drain takes, and what it leaves.
use project_apex.Prelude.{ℕ, List, [], ◌∷◌, Text, ◌≡◌, refl, ◌∙◌}
use project_apex.Prelude.Kept.{filter-IsSorted}
use project_apex.Prelude.Map.{IsSorted, insert-IsSorted, take_each-filter}
use project_apex.Engine.Coalescer.{
  Coalescer, Pending, Arrival, upsert, settle, settle_from, settle_to, new, EventKind, false, pos,
  expire_from, expire_to, expire_unpaired, filter, is_stale_from, is_stale_to, take_each, keys_of,
  not, arith,
}
use project_apex.Prelude.Order.{text_ord, nat_ord}

-- What the three maps are, being `BTreeMap`s.
pub record IsValid (c : Coalescer) : Type 0 where
  pub pending : IsSorted c.pending
  pub unpaired_from : IsSorted c.unpaired_from
  pub unpaired_to : IsSorted c.unpaired_to

pub new-IsValid : (window bulk_window limit : ℕ) → IsValid (new window bulk_window limit)
unfolding new
new-IsValid window bulk_window limit = record { pending = tt; unpaired_from = tt; unpaired_to = tt }

pub upsert-IsValid :
    (path : Text) (fresh : Pending) (change : Pending → Pending) (c : Coalescer)
    → IsValid c
    → IsValid (upsert path fresh change c)
unfolding upsert
upsert-IsValid path fresh change c v = record {
  pending = insert-IsSorted path _ c.pending v.pending;
  unpaired_from = v.unpaired_from;
  unpaired_to = v.unpaired_to;
}

next-IsValid : (c : Coalescer) (n : ℕ) → IsValid c → IsValid (record c { seq = n })
next-IsValid c n v = record {
  pending = v.pending;
  unpaired_from = v.unpaired_from;
  unpaired_to = v.unpaired_to;
}

settle_from-IsValid :
    (stale : List (ℕ × (Text × ℕ))) (c : Coalescer) → IsValid c → IsValid (settle_from stale c)
unfolding settle
settle_from-IsValid [] c v = v
settle_from-IsValid ((cookie, (path, at)) ∷ stale) c v =
    settle_from-IsValid stale _ (upsert-IsValid path _ _ _ (next-IsValid c _ v))

settle_to-IsValid :
    (stale : List (ℕ × Arrival)) (c : Coalescer) → IsValid c → IsValid (settle_to stale c)
unfolding settle
settle_to-IsValid [] c v = v
settle_to-IsValid ((cookie, a) ∷ stale) c v =
    settle_to-IsValid stale _ (upsert-IsValid a.path _ _ _ (next-IsValid c _ v))

-- Settling halves of moves writes to the pending paths alone.
abbrev pub SameRest : Coalescer → Coalescer → Type 0
SameRest c d =
    (d.unpaired_from ≡ c.unpaired_from)
    × (d.unpaired_to ≡ c.unpaired_to)
    × (d.window ≡ c.window)
    × (d.overflowed ≡ c.overflowed)

settle_from-rest :
    (stale : List (ℕ × (Text × ℕ))) (c : Coalescer) → SameRest c (settle_from stale c)
unfolding settle upsert
settle_from-rest [] c = (refl, refl, refl, refl)
settle_from-rest ((cookie, (path, at)) ∷ stale) c =
    settle_from-rest stale (settle path EventKind.deleted false 0 (pos 0) at c)

settle_to-rest : (stale : List (ℕ × Arrival)) (c : Coalescer) → SameRest c (settle_to stale c)
unfolding settle upsert
settle_to-rest [] c = (refl, refl, refl, refl)
settle_to-rest ((cookie, a) ∷ stale) c =
    settle_to-rest stale (settle a.path EventKind.created a.is_directory a.size a.modified a.seen c)

expire_from-left :
    (now : ℕ) (c : Coalescer)
    → IsValid c
    → (expire_from now c).unpaired_from
      ≡ filter (λ e. not (is_stale_from c.window now e)) c.unpaired_from
unfolding expire_from
expire_from-left now c v =
    let p = is_stale_from c.window now in
    rw (take_each-filter p c.unpaired_from v.unpaired_from)
      (settle_from-rest (filter p c.unpaired_from)
        (record c { unpaired_from = filter (λ e. not (p e)) c.unpaired_from })).0

expire_from-rest :
    (now : ℕ) (c : Coalescer)
    → ((expire_from now c).unpaired_to ≡ c.unpaired_to)
      × ((expire_from now c).window ≡ c.window)
      × ((expire_from now c).overflowed ≡ c.overflowed)
unfolding expire_from
expire_from-rest now c =
    let taken = take_each (keys_of (is_stale_from c.window now) c.unpaired_from) c.unpaired_from in
    let rest = settle_from-rest taken.1 (record c { unpaired_from = taken.0 }) in
    (rest.1, rest.2, rest.3)

expire_from-IsValid : (now : ℕ) (c : Coalescer) → IsValid c → IsValid (expire_from now c)
unfolding expire_from
expire_from-IsValid now c v =
    let p = is_stale_from c.window now in
    rw (take_each-filter p c.unpaired_from v.unpaired_from) (
      settle_from-IsValid (filter p c.unpaired_from) _ (record {
        pending = v.pending;
        unpaired_from = filter-IsSorted (λ e. not (p e)) c.unpaired_from v.unpaired_from;
        unpaired_to = v.unpaired_to;
      }))

expire_to-left :
    (now : ℕ) (c : Coalescer)
    → IsValid c
    → ((expire_to now c).unpaired_to ≡ filter (λ e. not (is_stale_to c.window now e)) c.unpaired_to)
      × ((expire_to now c).unpaired_from ≡ c.unpaired_from)
      × ((expire_to now c).window ≡ c.window)
      × ((expire_to now c).overflowed ≡ c.overflowed)
unfolding expire_to
expire_to-left now c v =
    let p = is_stale_to c.window now in
    let rest =
      settle_to-rest (filter p c.unpaired_to)
        (record c { unpaired_to = filter (λ e. not (p e)) c.unpaired_to }) in
    rw (take_each-filter p c.unpaired_to v.unpaired_to) (rest.1, rest.0, rest.2, rest.3)

expire_to-IsValid : (now : ℕ) (c : Coalescer) → IsValid c → IsValid (expire_to now c)
unfolding expire_to
expire_to-IsValid now c v =
    let p = is_stale_to c.window now in
    rw (take_each-filter p c.unpaired_to v.unpaired_to) (
      settle_to-IsValid (filter p c.unpaired_to) _ (record {
        pending = v.pending;
        unpaired_from = v.unpaired_from;
        unpaired_to = filter-IsSorted (λ e. not (p e)) c.unpaired_to v.unpaired_to;
      }))

pub expire_unpaired-IsValid :
    (now : ℕ) (c : Coalescer) → IsValid c → IsValid (expire_unpaired now c)
unfolding expire_unpaired
expire_unpaired-IsValid now c v =
    expire_to-IsValid now (expire_from now c) (expire_from-IsValid now c v)

-- The halves of moves that have waited a whole window are gone.
pub expire_unpaired-left :
    (now : ℕ) (c : Coalescer)
    → IsValid c
    → ((expire_unpaired now c).unpaired_from
        ≡ filter (λ e. not (is_stale_from c.window now e)) c.unpaired_from)
      × ((expire_unpaired now c).unpaired_to
          ≡ filter (λ e. not (is_stale_to c.window now e)) c.unpaired_to)
      × ((expire_unpaired now c).window ≡ c.window)
      × ((expire_unpaired now c).overflowed ≡ c.overflowed)
unfolding expire_unpaired
expire_unpaired-left now c v =
    let first = expire_from-rest now c in
    let second = expire_to-left now (expire_from now c) (expire_from-IsValid now c v) in
    (
      second.1 ∙ expire_from-left now c v,
      ground (arith, second.0, first.0, first.1),
      second.2 ∙ first.1,
      second.3 ∙ first.2,
    )
