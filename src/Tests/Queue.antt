-- ===== src/Tests/Queue.antt =====
-- The work queue: src/_queue2d.hpp, with counts for weights.
use je2be.Prelude.{◌↔◌, ◌⊎◌, true}
use je2be.Prelude.{ℕ, suc, zero, ◌≡◌, refl, false, some, none, [], ◌∷◌, replicate, get_elem?, arith}
use je2be.Prelude.Int.{ℤ, pos, ◌+ℤ◌, ◌-ℤ◌, ◌*ℤ◌, leb_ℤ, min_ℤ, max_ℤ}
use mathlib.Core.Option
use je2be.Prelude.Int.{negsuc}
use je2be.Geometry.Pos.{Pos2}
use je2be.Storage.Data2d.{at, get, read, index}
use je2be.Queue2d.{Queue2d, is_set, create, next, take, unlock_around}
use je2be.Queue2d.Grid.{InGrid, IsValid, Grid, create-IsValid}
use je2be.Queue2d.Locking.{Near, Frees, take-Takes, unlock_around-Frees}
use je2be.Queue2d.Handing.{Hands, next-Hands, next_progress, next-none_iff}
use je2be.Queue2d.Workers.{
  System, Step, takes, returns, start, more, initial, Exclusive, Distinct, workers-Exclusive,
}
use je2be.Tests.Shared.{at2, counts, counts-IsOrder}

-- A queue of four cells in a row, whose lock reaches one cell.
abbrev corner : Pos2
corner = at2 0 0

abbrev fresh_queue : Queue2d counts
fresh_queue = create counts corner 4 1 1

fresh_queue-IsValid : IsValid fresh_queue
fresh_queue-IsValid = create-IsValid corner 4 1 1

abbrev after_first : Queue2d counts
after_first = take counts fresh_queue corner

next_first : next counts fresh_queue ≡ (some corner, after_first)
unfolding next create at ◌+ℤ◌ ◌*ℤ◌ ◌-ℤ◌ get leb_ℤ
next_first = refl

next-Hands_example : Hands fresh_queue counts-IsOrder fresh_queue-IsValid corner after_first
next-Hands_example =
    next-Hands fresh_queue counts-IsOrder fresh_queue-IsValid corner after_first next_first

after_first-IsValid : IsValid after_first
after_first-IsValid =
    let first =
      next-Hands fresh_queue counts-IsOrder fresh_queue-IsValid corner after_first next_first in
    first.takes.valid

unlock_around-Frees_example :
    Frees after_first corner after_first-IsValid (unlock_around counts after_first corner)
unlock_around-Frees_example = unlock_around-Frees after_first corner after_first-IsValid

none_set : (n i : ℕ) → Option.get_or (get_elem? (replicate n false) i) false ≡ false
none_set zero i = refl
none_set (suc n) zero = refl
none_set (suc n) (suc i) = none_set n i

none_read : (n : ℕ) (i : ℤ) → Option.get_or (read (replicate n false) i) false ≡ false
none_read n (pos i) = none_set n i
none_read n (negsuc i) = refl

fresh_queue_unlocked : (p : Pos2) → is_set fresh_queue.lock p ≡ false
unfolding create at
fresh_queue_unlocked p = none_read 4 (index fresh_queue.lock p)

next_progress_example : (c : Pos2) × (t : Queue2d counts) × (next counts fresh_queue ≡ (some c, t))
unfolding at ◌+ℤ◌ ◌*ℤ◌ ◌-ℤ◌ create
next_progress_example =
    next_progress fresh_queue counts-IsOrder fresh_queue-IsValid (at2 3 0)
      (omega arith, omega arith, omega arith, omega arith) refl (λ r g n. fresh_queue_unlocked r)

-- A queue of one cell that was taken.
abbrev single : Queue2d counts
single = take counts (create counts corner 1 1 0) corner

single-IsValid : IsValid single
unfolding create ◌+ℤ◌
single-IsValid =
    (take-Takes (create counts corner 1 1 0) corner (create-IsValid corner 1 1 0)
      (omega arith, omega arith, omega arith, omega arith)).valid

next-single : next counts single ≡ (none, single)
unfolding next create at ◌+ℤ◌ ◌*ℤ◌ ◌-ℤ◌ get leb_ℤ min_ℤ max_ℤ
next-single = refl

next-none_iff_example : (next counts single ≡ (none, single)) ↔ (
    (p : Pos2)
    → Grid single p
    → (is_set single.done p ≡ true)
      ⊎ ((r : Pos2) × Grid single r × Near single.lock_radius p r × (is_set single.lock r ≡ true)))
next-none_iff_example = next-none_iff single counts-IsOrder single-IsValid

-- Two threads take the cells 0 and 3, and the first returns its cell.
abbrev far_end : Pos2
far_end = at2 3 0

abbrev after_second : Queue2d counts
after_second = take counts after_first far_end

next_second : next counts after_first ≡ (some far_end, after_second)
unfolding next create at ◌+ℤ◌ ◌*ℤ◌ ◌-ℤ◌ get leb_ℤ min_ℤ max_ℤ
next_second = refl

abbrev both_held : System counts
both_held = record {
  queue = after_second;
  held = far_end ∷ corner ∷ [];
  handed = far_end ∷ corner ∷ [];
}

abbrev first_held : System counts
first_held = record { queue = after_first; held = corner ∷ []; handed = corner ∷ [] }

abbrev one_returned : System counts
one_returned = record {
  queue = unlock_around counts after_second corner;
  held = far_end ∷ [];
  handed = far_end ∷ corner ∷ [];
}

first-Step : Step (initial counts corner 4 1 1) first_held
first-Step = takes corner next_first refl refl

second-Step : Step first_held both_held
second-Step = takes far_end next_second refl refl

third-Step : Step both_held one_returned
third-Step = returns corner (far_end ∷ []) [] refl refl refl refl

workers-Exclusive_example :
    Exclusive (InGrid corner 4 1) 1 one_returned.held × Distinct one_returned.handed
workers-Exclusive_example =
    workers-Exclusive counts-IsOrder corner 4 1 1 one_returned
      (more (more (more start first-Step) second-Step) third-Step)
