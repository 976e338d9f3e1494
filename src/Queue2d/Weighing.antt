-- ===== src/Queue2d/Weighing.antt =====
-- Which candidates `next` weighs, and which it passes over.
use je2be.Prelude.{ℕ, zero, suc, ◌*◌, ◌≡◌, ◌⊎◌, inl, inr, refl, sym, ap, ◌∙◌, subst}
use je2be.Prelude.{true, false, Bool-cases, Option, none, some, arith}
use je2be.Prelude.Int.{ℤ, pos, pos_part, neg_part, ◌+ℤ◌, ◌-ℤ◌, ◌≤ℤ◌, ◌<ℤ◌}
use je2be.Prelude.Int.{eqb_ℤ_cases, int_laws}
use je2be.Geometry.Pos.{Pos2}
use je2be.Storage.Data2d.Cells.{at_total, get_lem}
use je2be.Queue2d.{Weights, Queue2d, is_set, at_offset, probe, probe_row, probe_rows, weigh}
use je2be.Queue2d.Grid.{Grid, IsValid, Inside-of_grid, grid_of_Inside}
use je2be.Queue2d.Locking.{Near}

module _ {w : Weights} (q : Queue2d w) (v : IsValid q) where
  open w use {Weight}

  -- The cell is locked, and on the grid.
  abbrev Blocked : Pos2 → Type 0
  Blocked p = Grid q p × (is_set q.lock p ≡ true)

  -- `none` shows a blocked cell of the region, and a weight says that there is none.
  abbrev Outcome : (Pos2 → Type 0) → Option Weight → Type 0
  Outcome R none = (p : Pos2) × R p × Blocked p
  Outcome R (some s) = (p : Pos2) → R p → ¬ Blocked p

  probe-Outcome : (p : Pos2) (s : Weight) → Outcome (λ r. p ≡ r) (probe w q p s)
  unfolding probe
  probe-Outcome p s = elim (get_lem q.weight p) [
    | inr (out, e) ↦
        rw (e, probe) (λ r same b. out (Inside-of_grid v.weight p (subst (Grid q) (sym same) b.0)))
    | inl (inside, e) ↦
        let c = at_total q.weight p v.weight.full inside in
        let read = e ∙ c.1 in
        elim (Bool-cases (is_set q.lock p)) [
          | inl locked ↦
              rw (read, locked, probe) (p, refl, (grid_of_Inside v.weight p inside, locked))
          | inr free ↦
              let clear : (r : Pos2) → p ≡ r → ¬ Blocked r =
                λ r same b. cc (free, subst (λ x. is_set q.lock x ≡ true) (sym same) b.1) in
              elim (Bool-cases (is_set q.done p)) [
                | inl done ↦ rw (read, free, done, probe) clear
                | inr new ↦ rw (read, free, new, probe) clear
              ]
        ]
  ]

  chain :
      (P Q R : Pos2 → Type 0) (o : Option Weight) (next : Weight → Option Weight)
      → Outcome P o
      → ((s : Weight) → Outcome Q (next s))
      → ((p : Pos2) → R p → P p ⊎ Q p)
      → ((p : Pos2) → P p ⊎ Q p → R p)
      → Outcome R (elim o [ none ↦ none | some s ↦ next s ])
  chain P Q R none next a b split join = (a.0, join a.0 (inl a.1), a.2)
  chain P Q R (some s) next a b split join = last (next s) (b s)
    where
      last : (o : Option Weight) → Outcome Q o → Outcome R o
      last none found = (found.0, join found.0 (inr found.1), found.2)
      last (some t) clear = λ p r. elim (split p r) [ inl x ↦ a p x | inr x ↦ clear p x ]

  -- The cells that a row visits from `dx` on.
  abbrev Row : Pos2 → ℤ → ℕ → ℤ → Pos2 → Type 0
  Row c dz n dx p = (c.z +ℤ dz ≡ p.z) × (c.x +ℤ dx ≤ℤ p.x) × (p.x <ℤ c.x +ℤ dx +ℤ pos n)

  Row-split :
      (c : Pos2) (dz : ℤ) (n : ℕ) (dx : ℤ) (p : Pos2)
      → Row c dz (suc n) dx p
      → (at_offset c dx dz ≡ p) ⊎ Row c dz n (dx +ℤ pos 1) p
  Row-split c dz n dx p h = elim (eqb_ℤ_cases (c.x +ℤ dx) p.x) [
    | inl e ↦ inl (λ i. record { x = e i; z = h.0 i })
    | inr ne ↦ inr (h.0, omega (int_laws, ne, h.1), omega (int_laws, h.2))
  ]

  Row-join :
      (c : Pos2) (dz : ℤ) (n : ℕ) (dx : ℤ) (p : Pos2)
      → (at_offset c dx dz ≡ p) ⊎ Row c dz n (dx +ℤ pos 1) p
      → Row c dz (suc n) dx p
  Row-join c dz n dx p (inl e) =
      let x : c.x +ℤ dx ≡ p.x = ap (λ (r : Pos2). r.x) e in
      (
        ap (λ (r : Pos2). r.z) e,
        omega (arith, ap pos_part x, ap neg_part x),
        omega (int_laws, ap pos_part x, ap neg_part x),
      )
  Row-join c dz n dx p (inr h) = (h.0, omega (int_laws, h.1), omega (int_laws, h.2))

  probe_row-Outcome :
      (c : Pos2) (dz : ℤ) (n : ℕ) (dx : ℤ) (s : Weight)
      → Outcome (Row c dz n dx) (probe_row w q c dz n dx s)
  unfolding probe_row
  probe_row-Outcome c dz zero dx s = λ p h b. omega (int_laws, h.1, h.2)
  probe_row-Outcome c dz (suc n) dx s =
      chain (λ p. at_offset c dx dz ≡ p) (Row c dz n (dx +ℤ pos 1)) (Row c dz (suc n) dx)
        (probe w q (at_offset c dx dz) s) (probe_row w q c dz n (dx +ℤ pos 1))
        (probe-Outcome (at_offset c dx dz) s) (probe_row-Outcome c dz n (dx +ℤ pos 1))
        (Row-split c dz n dx) (Row-join c dz n dx)

  abbrev Rows : Pos2 → ℕ → ℤ → Pos2 → Type 0
  Rows c n dz p =
      (c.x -ℤ pos q.lock_radius ≤ℤ p.x)
      × (p.x ≤ℤ c.x +ℤ pos q.lock_radius)
      × (c.z +ℤ dz ≤ℤ p.z)
      × (p.z <ℤ c.z +ℤ dz +ℤ pos n)

  abbrev WholeRow : Pos2 → ℤ → Pos2 → Type 0
  WholeRow c dz = Row c dz (suc (2 * q.lock_radius)) (pos 0 -ℤ pos q.lock_radius)

  Rows-split :
      (c : Pos2) (n : ℕ) (dz : ℤ) (p : Pos2)
      → Rows c (suc n) dz p
      → WholeRow c dz p ⊎ Rows c n (dz +ℤ pos 1) p
  Rows-split c n dz p h = elim (eqb_ℤ_cases (c.z +ℤ dz) p.z) [
    | inl e ↦ inl (e, omega (int_laws, h.0), omega (int_laws, h.1))
    | inr ne ↦ inr (h.0, h.1, omega (int_laws, ne, h.2), omega (int_laws, h.3))
  ]

  Rows-join :
      (c : Pos2) (n : ℕ) (dz : ℤ) (p : Pos2)
      → WholeRow c dz p ⊎ Rows c n (dz +ℤ pos 1) p
      → Rows c (suc n) dz p
  Rows-join c n dz p (inl h) = (
    omega (int_laws, h.1),
    omega (int_laws, h.2),
    omega (arith, ap pos_part h.0, ap neg_part h.0),
    omega (int_laws, ap pos_part h.0, ap neg_part h.0),
  )
  Rows-join c n dz p (inr h) = (h.0, h.1, omega (int_laws, h.2), omega (int_laws, h.3))

  probe_rows-Outcome :
      (c : Pos2) (n : ℕ) (dz : ℤ) (s : Weight) → Outcome (Rows c n dz) (probe_rows w q c n dz s)
  unfolding probe_rows
  probe_rows-Outcome c zero dz s = λ p h b. omega (int_laws, h.2, h.3)
  probe_rows-Outcome c (suc n) dz s =
      let n' = suc (2 * q.lock_radius) in
      let dx = pos 0 -ℤ pos q.lock_radius in
      chain (WholeRow c dz) (Rows c n (dz +ℤ pos 1)) (Rows c (suc n) dz)
        (probe_row w q c dz n' dx s) (probe_rows w q c n (dz +ℤ pos 1))
        (probe_row-Outcome c dz n' dx s) (probe_rows-Outcome c n (dz +ℤ pos 1)) (Rows-split c n dz)
        (Rows-join c n dz)

  Near-Rows :
      (c p : Pos2)
      → Near q.lock_radius c p
      → Rows c (suc (2 * q.lock_radius)) (pos 0 -ℤ pos q.lock_radius) p
  Near-Rows c p n = (n.0, n.1, omega (int_laws, n.2), omega (int_laws, n.3))

  Rows-Near :
      (c p : Pos2)
      → Rows c (suc (2 * q.lock_radius)) (pos 0 -ℤ pos q.lock_radius) p
      → Near q.lock_radius c p
  Rows-Near c p h = (h.0, h.1, omega (int_laws, h.2), omega (int_laws, h.3))

  -- No locked cell of the grid is near a candidate that is weighed.
  pub weigh_clear :
      (c : Pos2) {s : Weight} (p : Pos2)
      → weigh w q c ≡ some s
      → Grid q p
      → Near q.lock_radius c p
      → is_set q.lock p ≡ false
  unfolding weigh
  weigh_clear c {s} p e g n =
      let clear =
        subst (Outcome (Rows c (suc (2 * q.lock_radius)) (pos 0 -ℤ pos q.lock_radius))) e (
          probe_rows-Outcome c (suc (2 * q.lock_radius)) (pos 0 -ℤ pos q.lock_radius)
            w.zero_weight) in
      elim (Bool-cases (is_set q.lock p)) [
        | inl locked ↦ absurd (clear p (Near-Rows c p n) (g, locked))
        | inr free ↦ free
      ]

  -- A candidate that is passed over has a locked cell of the grid near it.
  pub weigh_blocked :
      (c : Pos2)
      → weigh w q c ≡ none
      → (p : Pos2) × Grid q p × Near q.lock_radius c p × (is_set q.lock p ≡ true)
  unfolding weigh
  weigh_blocked c e =
      let found =
        subst (Outcome (Rows c (suc (2 * q.lock_radius)) (pos 0 -ℤ pos q.lock_radius))) e (
          probe_rows-Outcome c (suc (2 * q.lock_radius)) (pos 0 -ℤ pos q.lock_radius)
            w.zero_weight) in
      (found.0, found.2.0, Rows-Near c found.0 found.1, found.2.1)
