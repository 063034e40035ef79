-- ===== src/CircularBuffer.antt =====
-- sim/circular_buffer.h: a circular buffer that doubles when it would become full. The storage is
-- a list, `blank` is what `resize` fills new places with; `int` is not bounded here.
pub mod Slots
pub mod Grow
pub mod Window
pub mod Push
pub mod Pop
pub mod Refine
mod Tests
use frontier_htsim.Prelude.{
  ℕ, zero, suc, ◌+◌, ◌-◌, ◌*◌, ◌%◌, Bool, ◌&&◌, List, [], ◌∷◌, Option, none, some, get_elem?,
  get_or, set, ltb, ◌==◌, if◌then◌else◌,
}

pub record CircularBuffer {ℓ} (A : Type ℓ) : Type ℓ where
  pub queue : List A
  pub next_push : ℕ
  pub next_pop : ℕ
  pub count : ℕ
  pub size : ℕ

module _ {ℓ} {A : Type ℓ} (blank : A) where
  -- `std::vector::resize`
  unfoldable pub resize : ℕ → List A → List A
  resize zero xs = []
  resize (suc n) [] = blank ∷ resize n []
  resize (suc n) (x ∷ xs) = x ∷ resize n xs

  unfoldable pub init : ℕ → CircularBuffer A
  init starting_size = record {
    queue = resize starting_size [];
    next_push = 0;
    next_pop = 0;
    count = 0;
    size = starting_size;
  }

  -- `for (i = 0; i < n; i++) _queue[_size+i] = _queue[i]`
  unfoldable pub copy_up : ℕ → ℕ → List A → List A
  copy_up size zero queue = queue
  copy_up size (suc n) queue =
      let copied = copy_up size n queue in set copied (size + n) (get_or copied n blank)

  -- The branch of `push` for a buffer that would be full.
  unfoldable pub grow : CircularBuffer A → CircularBuffer A
  grow b =
      if ltb next_push next_pop
      then record b {
        queue = copy_up size next_push resized;
        next_push = next_push + size;
        size = size * 2;
      }
      else record b { queue = resized; size = size * 2 }
    where
      open b use {queue, next_push, next_pop, size}

      resized : List A
      resized = resize (size * 2) queue

  -- `_queue[_next_push] = item; _next_push = (_next_push +1) % _size;`
  unfoldable pub store : CircularBuffer A → A → CircularBuffer A
  store b item = record b {
    queue = set b.queue b.next_push item;
    next_push = (b.next_push + 1) % b.size;
  }

  unfoldable pub push : CircularBuffer A → A → CircularBuffer A
  push b item =
      let counted = record b { count = b.count + 1 } in
      store (if counted.count == counted.size then grow counted else counted) item

module _ {ℓ} {A : Type ℓ} where
  -- `none` is the failed assertion that the buffer holds something, or a read out of range.
  unfoldable pub pop : CircularBuffer A → Option (A × CircularBuffer A)
  pop b =
      if ltb 0 b.count
      then (elim (get_elem? b.queue b.next_pop) [
        | none ↦ none
        | some x ↦ some (x, record b { next_pop = (b.next_pop + 1) % b.size; count = b.count - 1 })
      ])
      else none

  unfoldable pub pop_front : CircularBuffer A → Option (A × CircularBuffer A)
  pop_front b =
      let old_index = (b.next_push + b.size - 1) % b.size in
      if ltb 0 b.count
      then (elim (get_elem? b.queue old_index) [
        | none ↦ none
        | some x ↦ some (x, record b { next_push = old_index; count = b.count - 1 })
      ])
      else none

  -- `back` is an older name of the same function.
  unfoldable pub next_to_pop : CircularBuffer A → Option A
  next_to_pop b = if ltb 0 b.count then get_elem? b.queue b.next_pop else none

  unfoldable pub empty : CircularBuffer A → Bool
  empty b = b.count == 0

  -- The assertions of the source's own consistency check, as a test.
  unfoldable pub validate : CircularBuffer A → Bool
  validate b =
      ltb count size
      && (ltb next_push size
          && (ltb next_pop size
              && (if ltb next_pop next_push
                  then next_push - next_pop == count
                  else (if next_push == next_pop
                      then count == 0
                      else next_push + size - next_pop == count))))
    where
      open b use {next_push, next_pop, count, size}
