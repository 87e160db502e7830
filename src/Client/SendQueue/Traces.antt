-- ===== src/Client/SendQueue/Traces.antt =====
-- client/core/src/adapters/outbound/openssh/sendq.rs: the two queues against one list of frames in
-- the order in which they were pushed, each with its priority.
use project_apex.Prelude.{
  ℕ, ◌≡◌, refl, ap, inl, inr, Bool, true, false, Option, none, some, List, [], ◌∷◌, ◌++◌, arith,
  if◌then◌else◌, Bool-cases, Option-cases, ◌∙◌,
}
use project_apex.Client.SendQueue.{
  Priority, interactive, background, Queues, Popped, frame, ended, waits, push, pop, close, enqueue,
  append-nil, new,
}

-- A frame with its priority.
abbrev pub Item : Type 0
Item = Priority × List ℕ

pub record Outbox : Type 0 where
  pub items : List Item
  pub closed : Bool

abbrev pub is_class : Priority → Priority → Bool
is_class Priority.interactive Priority.interactive = true
is_class Priority.interactive Priority.background = false
is_class Priority.background Priority.interactive = false
is_class Priority.background Priority.background = true

-- The frames of one priority, in order.
unfoldable of_class : Priority → List Item → List (List ℕ)
of_class p [] = []
of_class p ((q, f) ∷ items) = let rest = of_class p items in if is_class p q then f ∷ rest else rest

-- The first frame of one priority, and the list without it.
unfoldable pub take_first : Priority → List Item → Option (List ℕ × List Item)
take_first p [] = none
take_first p ((q, f) ∷ items) =
    let later : Option (List ℕ × List Item) = elim (take_first p items) [
      | none ↦ none
      | some t ↦ some (t.0, (q, f) ∷ t.1)
    ] in
    if is_class p q then some (f, items) else later

-- What the writer is given: the first interactive frame, or else the first of the background.
unfoldable pub hand_out : Outbox → Outbox × Popped
hand_out o = elim (take_first interactive o.items) [
  | some t ↦ (record o { items = t.1 }, frame t.0)
  | none ↦ elim (take_first background o.items) [
    | some t ↦ (record o { items = t.1 }, frame t.0)
    | none ↦ (o, if o.closed then ended else waits)
  ]
]

unfoldable pub put : Priority → List ℕ → Outbox → Outbox
put p f o = if o.closed then o else record o { items = o.items ++ (p, f) ∷ [] }

pub data Op : Type 0 where
  pushes : Priority → List ℕ → Op
  pops closes : Op

-- What the writer is given over a sequence of operations.
unfoldable pub run : List Op → Queues → List Popped
run [] q = []
run (pushes p f ∷ ops) q = run ops (push p f q)
run (pops ∷ ops) q = (pop q).1 ∷ run ops (pop q).0
run (closes ∷ ops) q = run ops (close q)

unfoldable pub run_outbox : List Op → Outbox → List Popped
run_outbox [] o = []
run_outbox (pushes p f ∷ ops) o = run_outbox ops (put p f o)
run_outbox (pops ∷ ops) o = (hand_out o).1 ∷ run_outbox ops (hand_out o).0
run_outbox (closes ∷ ops) o = run_outbox ops (record { items = []; closed = true })

record Holds (q : Queues) (o : Outbox) : Type 0 where
  interactive : q.interactive ≡ of_class interactive o.items
  background : q.background ≡ of_class background o.items
  closed : q.closed ≡ o.closed

of_class-append :
    (p : Priority) (xs ys : List Item) → of_class p (xs ++ ys) ≡ of_class p xs ++ of_class p ys
unfolding of_class
of_class-append p [] ys = refl
of_class-append p ((q, f) ∷ xs) ys = elim (Bool-cases (is_class p q)) [
  | inl mine ↦ rw (mine, of_class) (ap (◌∷◌ f) (of_class-append p xs ys))
  | inr other ↦ rw (other, of_class) (of_class-append p xs ys)
]

-- There is no frame of the priority.
take_first-none :
    (p : Priority) (items : List Item) → take_first p items ≡ none → of_class p items ≡ []
unfolding take_first of_class
take_first-none p [] h = refl
take_first-none p ((q, f) ∷ items) h = ground (arith, take_first-none p items)

take_first-some :
    (p : Priority) (items : List Item) (f : List ℕ) (rest : List Item)
    → take_first p items ≡ some (f, rest)
    → of_class p items ≡ f ∷ of_class p rest
unfolding take_first of_class
take_first-some p [] f rest h = ground arith
take_first-some p ((q, g) ∷ items) f rest h = elim (Option-cases (take_first p items)) [
  | inl gone ↦ ground (arith, gone)
  | inr (t, found) ↦ ground (arith, found, take_first-some p items t.0 t.1 found)
]

take_first-other :
    (p r : Priority) (items : List Item) (f : List ℕ) (rest : List Item)
    → is_class r p ≡ false
    → take_first p items ≡ some (f, rest)
    → of_class r items ≡ of_class r rest
unfolding take_first of_class
take_first-other p r [] f rest d h = ground arith
take_first-other p r ((q, g) ∷ items) f rest d h = elim (Option-cases (take_first p items)) [
  | inl gone ↦ ground (arith, gone)
  | inr (t, found) ↦ ground (arith, found, take_first-other p r items t.0 t.1 d found)
]

enqueue-Holds :
    (p : Priority) (f : List ℕ) (q : Queues) (o : Outbox)
    → Holds q o
    → Holds (enqueue p f q) (record o { items = o.items ++ (p, f) ∷ [] })
unfolding of_class
enqueue-Holds Priority.interactive f q o h = record {
  interactive =
      rw (h.interactive, of_class-append interactive o.items ((interactive, f) ∷ [])) refl;
  background =
      rw
        (
          h.background,
          of_class-append background o.items ((interactive, f) ∷ []),
          append-nil (of_class background o.items),
        )
        refl;
  closed = h.closed;
}
enqueue-Holds Priority.background f q o h = record {
  interactive =
      rw
        (
          h.interactive,
          of_class-append interactive o.items ((background, f) ∷ []),
          append-nil (of_class interactive o.items),
        )
        refl;
  background = rw (h.background, of_class-append background o.items ((background, f) ∷ [])) refl;
  closed = h.closed;
}

push-closed : (p : Priority) (f : List ℕ) (q : Queues) → q.closed ≡ true → push p f q ≡ q
unfolding push
push-closed p f q shut = rw shut refl

put-closed : (p : Priority) (f : List ℕ) (o : Outbox) → o.closed ≡ true → put p f o ≡ o
unfolding put
put-closed p f o shut = rw shut refl

push-going :
    (p : Priority) (f : List ℕ) (q : Queues) → q.closed ≡ false → push p f q ≡ enqueue p f q
unfolding push
push-going p f q going = ground (arith, going)

put-going :
    (p : Priority) (f : List ℕ) (o : Outbox)
    → o.closed ≡ false
    → put p f o ≡ record o { items = o.items ++ (p, f) ∷ [] }
unfolding put
put-going p f o going = ground (arith, going)

push-Holds :
    (p : Priority) (f : List ℕ) (q : Queues) (o : Outbox)
    → Holds q o
    → Holds (push p f q) (put p f o)
unfolding push put
push-Holds p f q o h = elim (Bool-cases o.closed) [
  | inl shut ↦ rw (push-closed p f q (h.closed ∙ shut), put-closed p f o shut) h
  | inr going ↦
      rw (push-going p f q (h.closed ∙ going), put-going p f o going) (enqueue-Holds p f q o h)
]

pop-empty :
    (q : Queues)
    → q.interactive ≡ []
    → q.background ≡ []
    → pop q ≡ (q, if q.closed then ended else waits)
unfolding pop
pop-empty q none_waits none_behind = ground (arith, none_waits, none_behind)

hand_out-empty :
    (o : Outbox)
    → take_first interactive o.items ≡ none
    → take_first background o.items ≡ none
    → hand_out o ≡ (o, if o.closed then ended else waits)
unfolding hand_out
hand_out-empty o no_interactive no_background = rw (no_interactive, no_background, hand_out) refl

pop-Holds :
    (q : Queues) (o : Outbox)
    → Holds q o
    → ((pop q).1 ≡ (hand_out o).1) × Holds (pop q).0 (hand_out o).0
unfolding pop hand_out
pop-Holds q o h = elim (Option-cases (take_first interactive o.items)) [
  | inr (t, found) ↦
      let mine = take_first-some interactive o.items t.0 t.1 found in
      let others = take_first-other interactive background o.items t.0 t.1 refl found in
      rw (found, hand_out, h.interactive, mine, pop)
        (refl, record { interactive = refl; background = h.background ∙ others; closed = h.closed })
  | inl no_interactive ↦
      let mine = take_first-none interactive o.items no_interactive in
      elim (Option-cases (take_first background o.items)) [
        | inr (t, found) ↦
            let theirs = take_first-some background o.items t.0 t.1 found in
            let others = take_first-other background interactive o.items t.0 t.1 refl found in
            rw (no_interactive, found, hand_out, h.interactive, mine, h.background, theirs, pop)
              (
                refl,
                record {
                  interactive = h.interactive ∙ others;
                  background = refl;
                  closed = h.closed;
                },
              )
        | inl no_background ↦
            let theirs = take_first-none background o.items no_background in
            rw
              (
                pop-empty q (h.interactive ∙ mine) (h.background ∙ theirs),
                hand_out-empty o no_interactive no_background,
              )
              (rw h.closed refl, h)
      ]
]

run-Holds : (ops : List Op) (q : Queues) (o : Outbox) → Holds q o → run ops q ≡ run_outbox ops o
unfolding run run_outbox close of_class
run-Holds [] q o h = refl
run-Holds (pushes p f ∷ ops) q o h = run-Holds ops (push p f q) (put p f o) (push-Holds p f q o h)
run-Holds (pops ∷ ops) q o h =
    let both = pop-Holds q o h in rw (both.0, run-Holds ops (pop q).0 (hand_out o).0 both.1) refl
run-Holds (closes ∷ ops) q o h =
    run-Holds ops (close q) (record { items = []; closed = true })
      (record { interactive = refl; background = refl; closed = refl })

-- Over any sequence of pushes, looks of the writer and closes, the writer is given what one list of
-- the frames in the order of their pushes would give: at each look the oldest interactive frame, or
-- else the oldest of the background, or else a wait, or the end when the queue is closed.
pub run-hand_out :
    (ops : List Op) → run ops new ≡ run_outbox ops (record { items = []; closed = false })
unfolding new of_class
run-hand_out ops =
    run-Holds ops new (record { items = []; closed = false })
      (record { interactive = refl; background = refl; closed = refl })
