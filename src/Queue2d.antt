-- ===== src/Queue2d.antt =====
-- src/_queue2d.hpp: the work queue that box360-terraform.cpp and toje-converter.cpp share between
-- threads under a mutex. A cell is handed out once, and only while no cell within the lock radius
-- of it is locked; it locks those cells until they are unlocked. The `float` weights are a
-- parameter: a type with its zero, sum and order.
pub mod Sweep
pub mod Grid
pub mod Locking
pub mod Weighing
pub mod Selecting
pub mod Handing
pub mod Workers
use package.je2be.Prelude.{ℕ, zero, suc, ◌*◌, Bool, true, false, ◌&&◌, Option, none, some}
use package.je2be.Prelude.{List, [], ◌∷◌, if◌then◌else◌}
use package.je2be.Prelude.Int.{ℤ, pos, pos_part, ◌+ℤ◌, ◌-ℤ◌, leb_ℤ, ltb_ℤ, min_ℤ, max_ℤ}
use package.je2be.Geometry.Pos.{Pos2}
use package.je2be.Storage.Data2d.{Data2d, create_sized, at, assign, get}
use mathlib.Core.Option

-- `float` as the queue uses it.
pub record Weights : Type 1 where
  pub Weight : Type 0
  pub zero_weight : Weight
  pub add : Weight → Weight → Weight
  pub less : Weight → Weight → Bool

pub record Queue2d (w : Weights) : Type 0 where
  pub origin : Pos2
  pub width : ℕ
  pub height : ℕ
  pub lock_radius : ℕ
  pub done : Data2d Bool
  pub lock : Data2d Bool
  pub weight : Data2d w.Weight

-- A cell of one of the two arrays of flags.
abbrev pub is_set : Data2d Bool → Pos2 → Bool
is_set d p = Option.get_or (at d p) false

abbrev pub at_offset : Pos2 → ℤ → ℤ → Pos2
at_offset c dx dz = record { x = c.x +ℤ dx; z = c.z +ℤ dz }

-- for (int i = first; i <= last; i++), as the number of rounds.
abbrev pub rounds : ℤ → ℤ → ℕ
rounds first last = pos_part (last -ℤ first +ℤ pos 1)

-- for (int x ...) for (int z ...) over a rectangle, column by column, with the rounds that are left.
unfoldable pub for_column {ℓ} : {S : Type ℓ} → (S → Pos2 → S) → S → ℤ → ℕ → ℤ → S
for_column step s x zero z = s
for_column step s x (suc n) z = for_column step (step s (record { x = x; z = z })) x n (z +ℤ pos 1)

unfoldable pub for_columns {ℓ} : {S : Type ℓ} → (S → Pos2 → S) → S → ℕ → ℤ → ℕ → ℤ → S
unfolding for_column
for_columns step s zero x m z = s
for_columns step s (suc n) x m z = for_columns step (for_column step s x m z) n (x +ℤ pos 1) m z

module _ (w : Weights) where
  open w use {Weight, zero_weight, add, less}

  unfoldable pub create : Pos2 → ℕ → ℕ → ℕ → Queue2d w
  unfolding create_sized
  create origin width height lock_radius = record {
    origin = origin;
    width = width;
    height = height;
    lock_radius = lock_radius;
    done = create_sized origin width height false;
    lock = create_sized origin width height false;
    weight = create_sized origin width height zero_weight;
  }

  module _ (q : Queue2d w) where
    -- One cell near a candidate: `none` says that it is locked and ends both loops.
    unfoldable pub probe : Pos2 → Weight → Option Weight
    probe p sum = elim (get q.weight p) [
      | none ↦ some sum
      | some v ↦
          if is_set q.lock p then none else if is_set q.done p then some sum else some (add sum v)
    ]

    -- The loop over `dx`, with the rounds that are left.
    unfoldable pub probe_row : Pos2 → ℤ → ℕ → ℤ → Weight → Option Weight
    unfolding probe
    probe_row c dz zero dx sum = some sum
    probe_row c dz (suc n) dx sum = elim (probe (at_offset c dx dz) sum) [
      | none ↦ none
      | some s ↦ probe_row c dz n (dx +ℤ pos 1) s
    ]

    -- The loop over `dz`.
    unfoldable pub probe_rows : Pos2 → ℕ → ℤ → Weight → Option Weight
    unfolding probe_row
    probe_rows c zero dz sum = some sum
    probe_rows c (suc n) dz sum =
        elim (probe_row c dz (suc (2 * q.lock_radius)) (pos 0 -ℤ pos q.lock_radius) sum) [
          | none ↦ none
          | some s ↦ probe_rows c n (dz +ℤ pos 1) s
        ]

    -- The weight around a candidate, if nothing there is locked.
    unfoldable pub weigh : Pos2 → Option Weight
    unfolding probe_rows
    weigh c = probe_rows c (suc (2 * q.lock_radius)) (pos 0 -ℤ pos q.lock_radius) zero_weight

    abbrev pub Best : Type 0
    Best = Option (Pos2 × Weight)

    -- A candidate replaces the best one so far only if that weighs less.
    abbrev better : Pos2 → Weight → Best → Best
    better c s none = some (c, s)
    better c s (some (b, t)) = if less t s then some (c, s) else some (b, t)

    abbrev weighed : Pos2 → Option Weight → Best → Best
    weighed c none best = best
    weighed c (some s) best = better c s best

    unfoldable pub consider : Pos2 → Best → Best
    unfolding weigh
    consider c best = if is_set q.done c then best else weighed c (weigh c) best

    abbrev pub cell : ℕ → ℕ → Pos2
    cell x z = record { x = q.origin.x +ℤ pos x; z = q.origin.z +ℤ pos z }

    -- The loops over the cells, row by row, with the rounds that are left.
    unfoldable pub select_row : ℕ → ℕ → ℕ → Best → Best
    unfolding consider
    select_row z zero x best = best
    select_row z (suc n) x best = select_row z n (suc x) (consider (cell x z) best)

    unfoldable pub select_rows : ℕ → ℕ → Best → Best
    unfolding select_row
    select_rows zero z best = best
    select_rows (suc n) z best = select_rows n (suc z) (select_row z q.width 0 best)

    unfoldable pub select : Best
    unfolding select_rows
    select = select_rows q.height 0 none

  -- What `next` does to the queue once it has chosen a cell.
  unfoldable pub take : Queue2d w → Pos2 → Queue2d w
  unfolding for_columns assign
  take q c = record q {
    done = assign q.done c true;
    lock = for_columns (λ d p. assign d p true) q.lock (rounds x0 x1) x0 (rounds z0 z1) z0;
  }
    where
      x0 : ℤ
      x0 = max_ℤ (c.x -ℤ pos q.lock_radius) q.origin.x

      x1 : ℤ
      x1 = min_ℤ (c.x +ℤ pos q.lock_radius) (q.origin.x +ℤ pos q.width -ℤ pos 1)

      z0 : ℤ
      z0 = max_ℤ (c.z -ℤ pos q.lock_radius) q.origin.z

      z1 : ℤ
      z1 = min_ℤ (c.z +ℤ pos q.lock_radius) (q.origin.z +ℤ pos q.height -ℤ pos 1)

  unfoldable pub next : Queue2d w → Option Pos2 × Queue2d w
  unfolding select take
  next q = elim (select q) [ none ↦ (none, q) | some (c, s) ↦ (some c, take q c) ]

  -- The guard of `unlock` and `setWeight`.
  unfoldable pub in_grid : Queue2d w → Pos2 → Bool
  in_grid q p =
      leb_ℤ q.origin.x p.x
      && (ltb_ℤ p.x (q.origin.x +ℤ pos q.width)
          && (leb_ℤ q.origin.z p.z && ltb_ℤ p.z (q.origin.z +ℤ pos q.height)))

  unfoldable pub unlock : Queue2d w → Pos2 → Queue2d w
  unfolding in_grid assign
  unlock q p = if in_grid q p then record q { lock = assign q.lock p false } else q

  -- `unlock({...})`.
  unfoldable pub unlock_all : Queue2d w → List Pos2 → Queue2d w
  unfolding unlock
  unlock_all q [] = q
  unlock_all q (p ∷ ps) = unlock_all (unlock q p) ps

  unfoldable pub unlock_around : Queue2d w → Pos2 → Queue2d w
  unfolding for_columns unlock
  unlock_around q p =
      let side = suc (2 * q.lock_radius) in
      for_columns unlock q side (p.x -ℤ pos q.lock_radius) side (p.z -ℤ pos q.lock_radius)

  unfoldable pub set_done : Queue2d w → Pos2 → Bool → Queue2d w
  unfolding assign
  set_done q p v = record q { done = assign q.done p v }

  unfoldable pub set_weight : Queue2d w → Pos2 → Weight → Queue2d w
  unfolding in_grid assign
  set_weight q p v = if in_grid q p then record q { weight = assign q.weight p v } else q
