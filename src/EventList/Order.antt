-- ===== src/EventList/Order.antt =====
-- The order of the pending entries, and what each call does to it.
use frontier_htsim.Prelude.{
  ℕ, ◌≤◌, ◌<◌, ◌≡◌, refl, List, [], ◌∷◌, ◌++◌, some, arith, ◌==◌, if◌then◌else◌, Option-cases, inl,
  inr,
}
use frontier_htsim.EventList.{
  EventList, Entry, insert, source_is_pending, erase_source, cancel_pending_source, erase_at,
  cancel_pending_source_by_time, erase_handle, cancel_pending_source_by_handle,
  reschedule_pending_source, now,
}

-- The times do not fall, and none lies before `t`.
abbrev pub SortedFrom : ℕ → List Entry → Type 0
SortedFrom t [] = Unit {0}
SortedFrom t (e ∷ es) = (t ≤ e.when) × SortedFrom e.when es

-- Nothing pends for a time that has passed.
abbrev pub IsOrdered : EventList → Type 0
IsOrdered l = SortedFrom l.lasteventtime l.pendingsources

SortedFrom-mono : (s t : ℕ) (es : List Entry) → s ≤ t → SortedFrom t es → SortedFrom s es
SortedFrom-mono s t [] h o = tt
SortedFrom-mono s t (e ∷ es) h o = (omega arith, o.1)

pub insert-SortedFrom :
    (t : ℕ) (e : Entry) (es : List Entry)
    → t ≤ e.when
    → SortedFrom t es
    → SortedFrom t (insert e es)
unfolding insert
insert-SortedFrom t e [] h o = (h, tt)
insert-SortedFrom t e (f ∷ fs) h o = ground (arith, insert-SortedFrom f.when e fs)

erase_source-SortedFrom :
    (src t : ℕ) (es : List Entry) → SortedFrom t es → SortedFrom t (erase_source src es)
unfolding erase_source
erase_source-SortedFrom src t [] o = tt
erase_source-SortedFrom src t (e ∷ es) o =
    ground (arith, erase_source-SortedFrom src e.when es o.1, SortedFrom-mono t e.when es)

erase_handle-SortedFrom :
    (h t : ℕ) (es : List Entry) → SortedFrom t es → SortedFrom t (erase_handle h es)
unfolding erase_handle
erase_handle-SortedFrom h t [] o = tt
erase_handle-SortedFrom h t (e ∷ es) o =
    ground (arith, erase_handle-SortedFrom h e.when es o.1, SortedFrom-mono t e.when es)

erase_at-SortedFrom :
    (src when t : ℕ) (es : List Entry) {es' : List Entry}
    → SortedFrom t es
    → erase_at src when es ≡ some es'
    → SortedFrom t es'
unfolding erase_at
erase_at-SortedFrom src when t [] o h = cc
erase_at-SortedFrom src when t (e ∷ es) o h = elim (Option-cases (erase_at src when es)) [
  | inl n ↦ ground (arith, SortedFrom-mono t e.when es)
  | inr (es'', n) ↦
      ground (arith, SortedFrom-mono t e.when es, erase_at-SortedFrom src when e.when es o.1 n)
]

-- An operation that keeps what pends in order and the time as it is.
abbrev pub Keeps : EventList → EventList → Type 0
Keeps l l' = IsOrdered l' × (now l' ≡ now l)

pub source_is_pending-Keeps :
    (l : EventList) (src when : ℕ) {l' : EventList}
    → IsOrdered l
    → source_is_pending l src when ≡ some l'
    → Keeps l l'
unfolding source_is_pending
source_is_pending-Keeps l src when o h = ground (
  arith,
  insert-SortedFrom l.lasteventtime (record { when = when; source = src; handle = l.next_handle })
      l.pendingsources,
)

pub cancel_pending_source-Keeps :
    (l : EventList) (src : ℕ) → IsOrdered l → Keeps l (cancel_pending_source l src)
unfolding cancel_pending_source
cancel_pending_source-Keeps l src o =
    (erase_source-SortedFrom src l.lasteventtime l.pendingsources o, refl)

pub cancel_by_time-Keeps :
    (l : EventList) (src when : ℕ) {l' : EventList}
    → IsOrdered l
    → cancel_pending_source_by_time l src when ≡ some l'
    → Keeps l l'
unfolding cancel_pending_source_by_time
cancel_by_time-Keeps l src when o h = elim (Option-cases (erase_at src when l.pendingsources)) [
  | inl n ↦ ground arith
  | inr (es, n) ↦ ground (arith, erase_at-SortedFrom src when l.lasteventtime l.pendingsources o n)
]

pub cancel_by_handle-Keeps :
    (l : EventList) (src handle : ℕ) {l' : EventList}
    → IsOrdered l
    → cancel_pending_source_by_handle l src handle ≡ some l'
    → Keeps l l'
unfolding cancel_pending_source_by_handle
cancel_by_handle-Keeps l src handle o h =
    ground (arith, erase_handle-SortedFrom handle l.lasteventtime l.pendingsources o)

pub reschedule-Keeps :
    (l : EventList) (src when : ℕ) {l' : EventList}
    → IsOrdered l
    → reschedule_pending_source l src when ≡ some l'
    → Keeps l l'
unfolding reschedule_pending_source
reschedule-Keeps l src when o h =
    source_is_pending-Keeps (cancel_pending_source l src) src when
      (cancel_pending_source-Keeps l src o).0 h

-- The entries of one time, in the order of the multimap.
pub at_time : ℕ → List Entry → List Entry
at_time t [] = []
at_time t (e ∷ es) = let rest = at_time t es in if e.when == t then e ∷ rest else rest

at_time_later : (t s : ℕ) (es : List Entry) → t < s → SortedFrom s es → at_time t es ≡ []
unfolding at_time
at_time_later t s [] h o = refl
at_time_later t s (e ∷ es) h o = ground (arith, at_time_later t e.when es)

-- In a list of entries in order of time a new entry goes behind those of its own time, and leaves
-- those of any other time as they are.
at_time-insert :
    (t s : ℕ) (e : Entry) (es : List Entry)
    → SortedFrom s es
    → at_time t (insert e es) ≡ (if e.when == t then at_time t es ++ e ∷ [] else at_time t es)
unfolding at_time insert
at_time-insert t s e [] o = ground arith
at_time-insert t s e (f ∷ fs) o =
    ground (arith, at_time-insert t f.when e fs o.1, at_time_later t f.when fs)
