-- ===== src/EventList/Runs.antt =====
-- The event list under any sequence of calls.
use frontier_htsim.Prelude.{
  ℕ, ◌≤◌, ◌≡◌, refl, subst, List, [], ◌∷◌, ◌++◌, Option, none, some, arith, Option-cases, inl, inr,
}
use frontier_htsim.EventList.{
  EventList, Entry, now, source_is_pending, source_is_pending_rel, trigger_is_pending,
  cancel_pending_source, cancel_pending_source_by_time, cancel_pending_source_by_handle,
  reschedule_pending_source, do_next_event, Dispatch, next_source, next_trigger,
}
use frontier_htsim.EventList.Order.{
  SortedFrom, IsOrdered, Keeps, source_is_pending-Keeps, cancel_pending_source-Keeps,
  cancel_by_time-Keeps, cancel_by_handle-Keeps, reschedule-Keeps,
}

-- The calls that sources, targets and the main loop make.
pub data Call : Type 0 where
  schedules schedules_rel reschedules cancels_by_time cancels_by_handle : ℕ → ℕ → Call
  cancels triggers : ℕ → Call
  nexts : Call

-- What was dispatched and when.
abbrev pub Trace : Type 0
Trace = List (ℕ × Dispatch)

abbrev quietly : Option EventList → Option (EventList × Trace)
quietly none = none
quietly (some l) = some (l, [])

abbrev noted : Option (EventList × Dispatch) → Option (EventList × Trace)
noted none = none
noted (some (l, d)) = some (l, (now l, d) ∷ [])

unfoldable pub perform : EventList → Call → Option (EventList × Trace)
perform l (schedules src when) = quietly (source_is_pending l src when)
perform l (schedules_rel src t) = quietly (source_is_pending_rel l src t)
perform l (reschedules src when) = quietly (reschedule_pending_source l src when)
perform l (cancels_by_time src when) = quietly (cancel_pending_source_by_time l src when)
perform l (cancels_by_handle src h) = quietly (cancel_pending_source_by_handle l src h)
perform l (cancels src) = some (cancel_pending_source l src, [])
perform l (triggers target) = some (trigger_is_pending l target, [])
perform l nexts = noted (do_next_event l)

-- Each dispatch is no earlier than the one before it, none before `s` and none after `t`.
abbrev pub Between : ℕ → ℕ → Trace → Type 0
Between s t [] = s ≤ t
Between s t ((u, d) ∷ ds) = (s ≤ u) × Between u t ds

-- The call does not fail its assertion, and time does not go back.
abbrev pub Advances : EventList → Option (EventList × Dispatch) → Type 0
Advances l none = ⊥
Advances l (some (l', d)) = IsOrdered l' × (now l ≤ now l')

next_source-Advances :
    (l : EventList) (es : List Entry)
    → l.pendingsources ≡ es
    → SortedFrom (now l) es
    → Advances l (next_source l es)
unfolding next_source
next_source-Advances l [] e o = (rw e tt, omega arith)
next_source-Advances l (f ∷ es) e o = ground arith

next_trigger-Advances : (l : EventList) (ts : List ℕ) → IsOrdered l → Advances l (next_trigger l ts)
unfolding next_trigger
next_trigger-Advances l [] o = next_source-Advances l l.pendingsources refl o
next_trigger-Advances l (t ∷ ts) o = (o, omega arith)

-- With nothing pending for a time that has passed, `doNextEvent` does not fail its assertion, leaves
-- it so, and does not set the clock back.
do_next_event-Advances : (l : EventList) → IsOrdered l → Advances l (do_next_event l)
unfolding do_next_event
do_next_event-Advances l o = next_trigger-Advances l l.pending_triggers o

-- What a call leaves behind.
abbrev Follows : EventList → EventList × Trace → Type 0
Follows l (l', ds) = IsOrdered l' × Between (now l) (now l') ds

quietly-Follows :
    (l : EventList) (m : Option EventList) {l' : EventList} {ds : Trace}
    → ((k : EventList) → m ≡ some k → Keeps l k)
    → quietly m ≡ some (l', ds)
    → Follows l (l', ds)
quietly-Follows l none f h = cc
quietly-Follows l (some k) f h = let (o, e) = f k refl in ground arith

noted-Follows :
    (l : EventList) (m : Option (EventList × Dispatch)) {l' : EventList} {ds : Trace}
    → Advances l m
    → noted m ≡ some (l', ds)
    → Follows l (l', ds)
noted-Follows l none f h = absurd f
noted-Follows l (some (k, d)) f h = ground arith

perform-Follows :
    (l : EventList) (c : Call) {l' : EventList} {ds : Trace}
    → IsOrdered l
    → perform l c ≡ some (l', ds)
    → Follows l (l', ds)
unfolding perform source_is_pending_rel trigger_is_pending
perform-Follows l (schedules src when) o h =
    quietly-Follows l _ (λ k e. source_is_pending-Keeps l src when o e) h
perform-Follows l (schedules_rel src t) o h =
    quietly-Follows l _ (λ k e. source_is_pending-Keeps l src _ o e) h
perform-Follows l (reschedules src when) o h =
    quietly-Follows l _ (λ k e. reschedule-Keeps l src when o e) h
perform-Follows l (cancels_by_time src when) o h =
    quietly-Follows l _ (λ k e. cancel_by_time-Keeps l src when o e) h
perform-Follows l (cancels_by_handle src handle) o h =
    quietly-Follows l _ (λ k e. cancel_by_handle-Keeps l src handle o e) h
perform-Follows l (cancels src) o h =
    quietly-Follows l (some (cancel_pending_source l src))
      (λ k e.
        subst (Keeps l) {x = cancel_pending_source l src} {y = k} (cc)
          (cancel_pending_source-Keeps l src o))
      h
perform-Follows l (triggers target) o h = ground arith
perform-Follows l nexts o h = noted-Follows l (do_next_event l) (do_next_event-Advances l o) h

Between-append :
    (s t u : ℕ) (ds es : Trace) → Between s t ds → Between t u es → Between s u (ds ++ es)
Between-append s t u [] [] h k = omega arith
Between-append s t u [] ((v, d) ∷ es) h k = (omega arith, k.1)
Between-append s t u ((v, d) ∷ ds) es h k = (h.0, Between-append v t u ds es h.1 k)

-- A sequence of calls; `none` is a failed assertion or `abort`.
unfoldable pub run : EventList → List Call → Option (EventList × Trace)
run l [] = some (l, [])
run l (c ∷ cs) = elim (perform l c) [
  | none ↦ none
  | some (l', ds) ↦ (elim (run l' cs) [ none ↦ none | some (l'', es) ↦ some (l'', ds ++ es) ])
]

-- From an event list with nothing pending for a time that has passed, if no call of a sequence
-- aborts then the dispatches are in order of time, none before the clock's first reading and none
-- after its last, and nothing is left pending for a time that has passed.
pub run-Follows :
    (l : EventList) (cs : List Call) {l' : EventList} {ds : Trace}
    → IsOrdered l
    → run l cs ≡ some (l', ds)
    → IsOrdered l' × Between (now l) (now l') ds
unfolding run
run-Follows l [] o h = ground arith
run-Follows l (c ∷ cs) o h = elim (Option-cases (perform l c)) [
  | inl e ↦ absurd (ground arith)
  | inr ((k, ds), e) ↦ (elim (Option-cases (run k cs)) [
    | inl e' ↦ absurd (ground arith)
    | inr ((k', es), e') ↦
        let f = perform-Follows l c o e in
        let g = run-Follows k cs f.0 e' in
        ground (arith, Between-append (now l) (now k) (now k') ds es f.1 g.1)
  ])
]
