-- ===== src/Queue2d/Handing.antt =====
-- `next` as a whole: which cell it hands out, what it marks, and when it has none.
use je2be.Prelude.{◌≡◌, refl, ◌↔◌, ◌⊎◌, inl, inr, true, false}
use je2be.Prelude.{Option, none, some, Option-cases}
use mathlib.Core.Path.{subst₂}
use je2be.Geometry.Pos.{Pos2}
use je2be.Queue2d.{Weights, Queue2d, is_set, select, take, next}
use je2be.Queue2d.Grid.{Grid, IsValid}
use je2be.Queue2d.Locking.{Near, Takes, take-Takes}
use je2be.Queue2d.Weighing.{weigh_clear, weigh_blocked}
use je2be.Queue2d.Selecting.{IsOrder, Selected, select-Selected, select-none}

module _ {w : Weights} (q : Queue2d w) (order : IsOrder w) (v : IsValid q) where
  -- What a result of `next` says.
  pub record Hands (c : Pos2) (t : Queue2d w) : Type 0 where
    pub selected : Selected q order c
    pub unlocked : (p : Pos2) → Grid q p → Near q.lock_radius c p → is_set q.lock p ≡ false
    pub takes : Takes q c v t

  -- Where weights have an irreflexive and transitive order, and the three arrays of the queue are
  -- full and frame its grid: `next` hands out a cell of the grid that was not done and near which
  -- no cell of the grid was locked; no such cell of the grid weighs more. It marks that cell as
  -- done, locks the cells of the grid near it and leaves all other flags.
  pub next-Hands : (c : Pos2) (t : Queue2d w) → next w q ≡ (some c, t) → Hands c t
  unfolding next
  next-Hands c t e = elim (Option-cases (select w q)) [
    | inl nothing ↦ cc (rw (nothing, next) at e)
    | inr ((b, s), found) ↦
        let e' : ◌≡◌ {A = Option Pos2 × Queue2d w} (some b, take w q b) (some c, t) =
          rw (found, next) at e in
        let same : b ≡ c = cc in
        let rest : take w q b ≡ t = cc in
        let sel = select-Selected q order b s found in
        subst₂ Hands same rest (record {
          selected = sel;
          unlocked = λ p g n. weigh_clear q v b p sel.clear g n;
          takes = take-Takes q b v sel.grid;
        })
  ]

  -- Where weights have an irreflexive and transitive order, and the arrays of the queue are full
  -- and frame its grid, while some cell of the grid is not done and no cell of the grid near it
  -- is locked, `next` hands out a cell.
  pub next_progress :
      (p : Pos2)
      → Grid q p
      → is_set q.done p ≡ false
      → ((r : Pos2) → Grid q r → Near q.lock_radius p r → is_set q.lock r ≡ false)
      → (c : Pos2) × (t : Queue2d w) × (next w q ≡ (some c, t))
  unfolding next
  next_progress p g new free = elim (Option-cases (select w q)) [
    | inr ((c, s), found) ↦ (c, take w q c, rw (found, next))
    | inl nothing ↦ elim (select-none q order nothing p g) [
      | inl done ↦ cc
      | inr blocked ↦ let b = weigh_blocked q v p blocked in cc (b.3, free b.0 b.1 b.2)
    ]
  ]

  -- Where weights have an irreflexive and transitive order, and the arrays of the queue are full
  -- and frame its grid: `next` hands out nothing and leaves the queue as it was exactly when each
  -- cell of the grid is done or has a locked cell of the grid near it.
  pub next-none_iff : (next w q ≡ (none, q)) ↔ (
      (p : Pos2)
      → Grid q p
      → (is_set q.done p ≡ true)
        ⊎ ((r : Pos2) × Grid q r × Near q.lock_radius p r × (is_set q.lock r ≡ true)))
  unfolding next
  next-none_iff = elim (Option-cases (select w q)) [
    | inl nothing ↦ (
      λ e p g. elim (select-none q order nothing p g) [
        | inl done ↦ inl done
        | inr blocked ↦ inr (weigh_blocked q v p blocked)
      ],
      λ h. rw (nothing, next) refl,
    )
    | inr ((b, s), found) ↦
        let sel = select-Selected q order b s found in
        (
          λ e p g. cc (rw (found, next) at e),
          λ h. elim (h b sel.grid) [
            | inl done ↦ cc (done, sel.new)
            | inr (r, g, n, locked) ↦ cc (locked, weigh_clear q v b r sel.clear g n)
          ],
        )
  ]
