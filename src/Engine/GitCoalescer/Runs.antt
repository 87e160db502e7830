-- ===== src/Engine/GitCoalescer/Runs.antt =====
-- How many runs a sequence of calls can begin.
use project_apex.Prelude.{
  ℕ, ◌+◌, ◌≤◌, ◌≡◌, refl, true, false, none, some, List, [], ◌∷◌, arith, if◌then◌else◌,
}
use project_apex.Engine.GitCoalescer.{StatusCoalescer, new, notice, due, begin, finish}

-- One call, with its time.
pub data Op : Type 0 where
  noticed began finished : ℕ → Op

-- What a sequence of calls comes to: the state, the runs begun, the notices and the finishes.
pub record Tally : Type 0 where
  pub state : StatusCoalescer
  pub begins : ℕ
  pub notices : ℕ
  pub finishes : ℕ

abbrev pub start : ℕ → Tally
start edge = record { state = new edge; begins = 0; notices = 0; finishes = 0 }

unfoldable pub step : Op → Tally → Tally
step (noticed now) t = record t { state = notice now t.state; notices = t.notices + 1 }
step (began now) t =
    let (c, began_now) = begin now t.state in
    record t { state = c; begins = if began_now then t.begins + 1 else t.begins }
step (finished now) t = record t { state = finish now t.state; finishes = t.finishes + 1 }

unfoldable pub run_all : List Op → Tally → Tally
run_all [] t = t
run_all (op ∷ ops) t = run_all ops (step op t)

-- What a state still owes: a run for the pending change, one for what came during a run.
abbrev owed : StatusCoalescer → ℕ
owed c = elim c.pending_since [ none ↦ if c.dirty_while_running then 1 else 0 | some t ↦ 1 ]

abbrev in_flight : StatusCoalescer → ℕ
in_flight c = if c.running then 1 else 0

-- A run in flight leaves nothing pending, and without one nothing is marked for a follow-up.
pub record IsValid (c : StatusCoalescer) : Type 0 where
  pub none_pending : c.running ≡ true → c.pending_since ≡ none
  pub none_dirty : c.running ≡ false → c.dirty_while_running ≡ false

pub record IsBounded (t : Tally) : Type 0 where
  pub valid : IsValid t.state
  pub paid : t.begins + owed t.state ≤ t.notices
  pub one_at_a_time : t.begins ≤ t.finishes + in_flight t.state

step-IsBounded : (op : Op) (t : Tally) → IsBounded t → IsBounded (step op t)
unfolding step notice begin finish due
step-IsBounded (noticed now) t b = record {
  valid = record {
    none_pending = ground (arith, b.valid.none_pending, b.valid.none_dirty);
    none_dirty = ground (arith, b.valid.none_pending, b.valid.none_dirty);
  };
  paid = ground (arith, b.paid, b.valid.none_pending, b.valid.none_dirty);
  one_at_a_time = ground (arith, b.one_at_a_time);
}
step-IsBounded (began now) t b = record {
  valid = record {
    none_pending = ground (arith, b.valid.none_pending, b.valid.none_dirty);
    none_dirty = ground (arith, b.valid.none_pending, b.valid.none_dirty);
  };
  paid = ground (arith, b.paid, b.valid.none_pending, b.valid.none_dirty);
  one_at_a_time = ground (arith, b.one_at_a_time);
}
step-IsBounded (finished now) t b = record {
  valid = record {
    none_pending = ground (arith, b.valid.none_pending, b.valid.none_dirty);
    none_dirty = ground (arith, b.valid.none_pending, b.valid.none_dirty);
  };
  paid = ground (arith, b.paid, b.valid.none_pending, b.valid.none_dirty);
  one_at_a_time = ground (arith, b.one_at_a_time);
}

run_all-IsBounded : (ops : List Op) (t : Tally) → IsBounded t → IsBounded (run_all ops t)
unfolding run_all
run_all-IsBounded [] t b = b
run_all-IsBounded (op ∷ ops) t b = run_all-IsBounded ops (step op t) (step-IsBounded op t b)

-- Over any sequence of calls on a new coalescer, of any times, no more runs begin than changes are
-- noticed, and at most one more than runs are finished.
pub run_all-begins :
    (ops : List Op) (edge : ℕ)
    → ((run_all ops (start edge)).begins ≤ (run_all ops (start edge)).notices)
      × ((run_all ops (start edge)).begins ≤ (run_all ops (start edge)).finishes + 1)
unfolding new
run_all-begins ops edge =
    let b = run_all-IsBounded ops (start edge) (record {
      valid = record { none_pending = λ e. refl; none_dirty = λ e. refl };
      paid = omega arith;
      one_at_a_time = omega arith;
    }) in
    ground (arith, b.paid, b.one_at_a_time)
