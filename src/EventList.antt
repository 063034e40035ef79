-- ===== src/EventList.antt =====
-- sim/eventlist.h and sim/eventlist.cpp: the event list that drives a simulation. Sources and trigger
-- targets are named by numbers. A handle is the number of the entry that it points to.
pub mod Order
pub mod Runs
use frontier_htsim.Prelude.{
  ℕ, suc, ◌+◌, ◌-◌, ◌%◌, ◌^◌, Bool, true, false, ◌&&◌, ◌||◌, not, List, [], ◌∷◌, Option, none, some,
  ltb, leb, ◌==◌, if◌then◌else◌, add64,
}

-- An entry of the multimap `_pendingsources`.
pub record Entry : Type 0 where
  pub when : ℕ
  pub source : ℕ
  pub handle : ℕ

-- The multimap is in the order of its iterators, and the head of `pending_triggers` is the back of the
-- vector.
pub record EventList : Type 0 where
  pub endtime : ℕ
  pub lasteventtime : ℕ
  pub pendingsources : List Entry
  pub pending_triggers : List ℕ
  pub next_handle : ℕ

unfoldable pub init : EventList
init = record {
  endtime = 0;
  lasteventtime = 0;
  pendingsources = [];
  pending_triggers = [];
  next_handle = 0;
}

unfoldable pub set_endtime : EventList → ℕ → EventList
set_endtime l endtime = record l { endtime = endtime }

abbrev pub now : EventList → ℕ
now l = l.lasteventtime

-- `multimap::insert` puts an entry behind those of the same key.
unfoldable pub insert : Entry → List Entry → List Entry
insert e [] = e ∷ []
insert e (f ∷ fs) = if ltb e.when f.when then e ∷ f ∷ fs else f ∷ insert e fs

-- `none` is a failed assertion. The second result is the handle, and `none` for `end()`.
unfoldable pub source_is_pending_get_handle : EventList → ℕ → ℕ → Option (EventList × Option ℕ)
unfolding insert
source_is_pending_get_handle l src when =
    let e : Entry = record { when = when; source = src; handle = l.next_handle } in
    if leb (now l) when
    then (if l.endtime == 0 || ltb when l.endtime
        then some (
          record l { pendingsources = insert e l.pendingsources; next_handle = suc l.next_handle },
          some l.next_handle,
        )
        else some (l, none))
    else none

unfoldable pub source_is_pending : EventList → ℕ → ℕ → Option EventList
unfolding insert
source_is_pending l src when =
    let e : Entry = record { when = when; source = src; handle = l.next_handle } in
    if leb (now l) when
    then (if l.endtime == 0 || ltb when l.endtime
        then some (record l {
          pendingsources = insert e l.pendingsources;
          next_handle = suc l.next_handle;
        })
        else some l)
    else none

unfoldable pub source_is_pending_rel : EventList → ℕ → ℕ → Option EventList
unfolding source_is_pending
source_is_pending_rel l src timefromnow = source_is_pending l src (add64 (now l) timefromnow)

unfoldable pub trigger_is_pending : EventList → ℕ → EventList
trigger_is_pending l target = record l { pending_triggers = target ∷ l.pending_triggers }

-- The loop of `cancelPendingSource`: the first entry of the source goes.
unfoldable pub erase_source : ℕ → List Entry → List Entry
erase_source src [] = []
erase_source src (e ∷ es) = if e.source == src then es else e ∷ erase_source src es

unfoldable pub cancel_pending_source : EventList → ℕ → EventList
unfolding erase_source
cancel_pending_source l src = record l { pendingsources = erase_source src l.pendingsources }

-- The loop over `equal_range(when)`: the first entry of the source at that time goes.
unfoldable pub erase_at : ℕ → ℕ → List Entry → Option (List Entry)
erase_at src when [] = none
erase_at src when (e ∷ es) =
    if e.when == when && e.source == src
    then some es
    else (elim (erase_at src when es) [ none ↦ none | some es' ↦ some (e ∷ es') ])

-- `none` is `abort()`.
unfoldable pub cancel_pending_source_by_time : EventList → ℕ → ℕ → Option EventList
unfolding erase_at
cancel_pending_source_by_time l src when = elim (erase_at src when l.pendingsources) [
  | none ↦ none
  | some es ↦ some (record l { pendingsources = es })
]

unfoldable pub find_handle : ℕ → List Entry → Option Entry
find_handle h [] = none
find_handle h (e ∷ es) = if e.handle == h then some e else find_handle h es

unfoldable pub erase_handle : ℕ → List Entry → List Entry
erase_handle h [] = []
erase_handle h (e ∷ es) = if e.handle == h then es else e ∷ erase_handle h es

-- A handle that is no longer valid is undefined behaviour: `none`, as for a failed assertion.
unfoldable pub cancel_pending_source_by_handle : EventList → ℕ → ℕ → Option EventList
unfolding find_handle erase_handle
cancel_pending_source_by_handle l src handle = elim (find_handle handle l.pendingsources) [
  | none ↦ none
  | some e ↦
      (if e.source == src && leb (now l) e.when
        then some (record l { pendingsources = erase_handle handle l.pendingsources })
        else none)
]

unfoldable pub reschedule_pending_source : EventList → ℕ → ℕ → Option EventList
unfolding cancel_pending_source source_is_pending
reschedule_pending_source l src when = source_is_pending (cancel_pending_source l src) src when

-- What `doNextEvent` calls: nothing, a target's `activate` or a source's `doNextEvent`.
pub data Dispatch : Type 0 where
  idle : Dispatch
  activates : ℕ → Dispatch
  runs : ℕ → Dispatch

unfoldable pub next_source : EventList → List Entry → Option (EventList × Dispatch)
next_source l [] = some (l, idle)
next_source l (e ∷ es) =
    if leb l.lasteventtime e.when
    then some (record l { pendingsources = es; lasteventtime = e.when }, runs e.source)
    else none

unfoldable pub next_trigger : EventList → List ℕ → Option (EventList × Dispatch)
unfolding next_source
next_trigger l [] = next_source l l.pendingsources
next_trigger l (t ∷ ts) = some (record l { pending_triggers = ts }, activates t)

unfoldable pub do_next_event : EventList → Option (EventList × Dispatch)
unfolding next_trigger
do_next_event l = next_trigger l l.pending_triggers
