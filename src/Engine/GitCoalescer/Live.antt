-- ===== src/Engine/GitCoalescer/Live.antt =====
-- A burst of changes ends in one run.
use project_apex.Prelude.{
  ℕ, ◌+◌, ◌-◌, ◌≤◌, ◌≡◌, true, false, some, List, [], ◌∷◌, arith, leb, if◌then◌else◌,
}
use project_apex.Engine.GitCoalescer.{StatusCoalescer, notice, due, begin, finish, idle, run, at}

-- Changes noticed one after the other.
abbrev pub burst : ℕ → List ℕ → StatusCoalescer → StatusCoalescer
burst first [] c = notice first c
burst first (t ∷ ts) c = burst t ts (notice first c)

abbrev pub last : ℕ → List ℕ → ℕ
last first [] = first
last first (t ∷ ts) = last t ts

-- The state after a burst and, if it came during a run, after the end of that run.
abbrev pub settled : ℕ → List ℕ → ℕ → StatusCoalescer → StatusCoalescer
settled first ts end c = if c.running then finish end (burst first ts c) else burst first ts c

-- The time from which the edge counts.
abbrev pub since : ℕ → List ℕ → ℕ → StatusCoalescer → ℕ
since first ts end c = if c.running then end else last first ts

record IsMarked (c d : StatusCoalescer) (t : ℕ) : Type 0 where
  edge : d.edge ≡ c.edge
  running : d.running ≡ c.running
  marked : c.running ≡ true → d.dirty_while_running ≡ true
  pending : c.running ≡ false → d.pending_since ≡ some t

burst-IsMarked :
    (first : ℕ) (ts : List ℕ) (c : StatusCoalescer) → IsMarked c (burst first ts c) (last first ts)
unfolding notice
burst-IsMarked first [] c = record {
  edge = ground arith;
  running = ground arith;
  marked = ground arith;
  pending = ground arith;
}
burst-IsMarked first (t ∷ ts) c =
    let r = burst-IsMarked t ts (notice first c) in
    record {
      edge = ground (arith, r.edge);
      running = ground (arith, r.running);
      marked = ground (arith, r.marked);
      pending = ground (arith, r.pending);
    }

-- After a burst of changes, and the end of the run if one was in flight, the next run is due when
-- the edge has passed since the last change, or since that end. From then on a run begins, and once
-- it is finished nothing more is due.
pub burst-begin :
    (c : StatusCoalescer) (first : ℕ) (ts : List ℕ) (end t finished early later : ℕ)
    → since first ts end c + c.edge ≤ t
    → (due early (settled first ts end c) ≡ (
        if leb c.edge (early - since first ts end c)
        then run
        else at (since first ts end c + c.edge)))
      × ((begin t (settled first ts end c)).1 ≡ true)
      × (due later (finish finished (begin t (settled first ts end c)).0) ≡ idle)
unfolding begin finish due
burst-begin c first ts end t finished early later h =
    let m = burst-IsMarked first ts c in
    (
      ground (arith, m.edge, m.running, m.marked, m.pending),
      ground (arith, m.edge, m.running, m.marked, m.pending),
      ground (arith, m.edge, m.running, m.marked, m.pending),
    )
