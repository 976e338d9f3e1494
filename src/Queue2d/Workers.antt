-- ===== src/Queue2d/Workers.antt =====
-- The threads of `MultiThread` in src/box360-terraform.cpp, which share a queue under a mutex, as
-- steps in any order: a thread takes a cell, or returns one that it holds by `unlockAround`.
use je2be.Prelude.{All}
use je2be.Prelude.{ℕ, ◌≡◌, ◌≢◌, inl, inr, refl, sym, ◌∙◌, subst, true, Bool-cases}
use je2be.Prelude.{some, List, [], ◌∷◌, ◌++◌}
use mathlib.Core.Path.{transport}
use je2be.Geometry.Pos.{Pos2}
use je2be.Queue2d.{Weights, Queue2d, is_set, create, next, unlock_around}
use je2be.Queue2d.Grid.{Grid, InGrid, IsValid, create-IsValid}
use je2be.Queue2d.Locking.{Near, Frees, unlock_around-Frees}
use je2be.Queue2d.Selecting.{IsOrder}
use je2be.Queue2d.Handing.{next-Hands}

-- The queue, the cells that threads hold, and all cells that were ever handed out.
pub record System (w : Weights) : Type 0 where
  pub queue : Queue2d w
  pub held : List Pos2
  pub handed : List Pos2

pub data Step {w : Weights} (s t : System w) : Type 0 where
  takes :
      (c : Pos2)
      → next w s.queue ≡ (some c, t.queue)
      → t.held ≡ c ∷ s.held
      → t.handed ≡ c ∷ s.handed
      → Step s t
  returns :
      (c : Pos2) (before after : List Pos2)
      → s.held ≡ before ++ c ∷ after
      → t.queue ≡ unlock_around w s.queue c
      → t.held ≡ before ++ after
      → t.handed ≡ s.handed
      → Step s t

pub data Reach {w : Weights} (s : System w) : System w → Type 0 where
  start : Reach s s
  more : {t u : System w} → Reach s t → Step t u → Reach s u

-- No cell of the grid is near both.
abbrev pub Apart : (Pos2 → Type 0) → ℕ → Pos2 → Pos2 → Type 0
Apart G r c d = (p : Pos2) → G p → Near r c p → ¬ Near r d p

-- Any two of the cells are apart.
abbrev pub Exclusive : (Pos2 → Type 0) → ℕ → List Pos2 → Type 0
Exclusive G r [] = Unit
Exclusive G r (c ∷ cs) = All (Apart G r c) cs × Exclusive G r cs

-- No cell stands twice in the list.
abbrev pub Distinct : List Pos2 → Type 0
Distinct [] = Unit
Distinct (c ∷ cs) = All (λ d. c ≢ d) cs × Distinct cs

abbrev pub initial : (w : Weights) → Pos2 → ℕ → ℕ → ℕ → System w
initial w o n m r = record { queue = create w o n m r; held = []; handed = [] }

module _ {w : Weights} (order : IsOrder w) (o : Pos2) (n m r : ℕ) where
  abbrev G : Pos2 → Type 0
  G = InGrid o n m

  -- The cells near a held cell are locked.
  abbrev Locks : Queue2d w → Pos2 → Type 0
  Locks q c = (p : Pos2) → G p → Near r c p → is_set q.lock p ≡ true

  record Inv (s : System w) : Type 0 where
    valid : IsValid s.queue
    origin : s.queue.origin ≡ o
    width : s.queue.width ≡ n
    height : s.queue.height ≡ m
    radius : s.queue.lock_radius ≡ r
    locks : All (Locks s.queue) s.held
    exclusive : Exclusive G r s.held
    done : All (λ c. G c × (is_set s.queue.done c ≡ true)) s.handed
    distinct : Distinct s.handed

  module _ (q : Queue2d w) (eo : q.origin ≡ o) (en : q.width ≡ n) (em : q.height ≡ m)
      (er : q.lock_radius ≡ r) where
    Grid-to : (p : Pos2) → G p → Grid q p
    Grid-to p = transport (λ i. InGrid (sym eo i) (sym en i) (sym em i) p)

    Grid-from : (p : Pos2) → Grid q p → G p
    Grid-from p = transport (λ i. InGrid (eo i) (en i) (em i) p)

    Near-to : (c p : Pos2) → Near r c p → Near q.lock_radius c p
    Near-to c p = subst (λ k. Near k c p) (sym er)

    Near-from : (c p : Pos2) → Near q.lock_radius c p → Near r c p
    Near-from c p = subst (λ k. Near k c p) er

  All-map : (P Q : Pos2 → Type 0) (cs : List Pos2) → ((c : Pos2) → P c → Q c) → All P cs → All Q cs
  All-map P Q [] f h = tt
  All-map P Q (c ∷ cs) f h = (f c h.0, All-map P Q cs f h.1)

  All-remove :
      (P : Pos2 → Type 0) (before : List Pos2) (c : Pos2) (after : List Pos2)
      → All P (before ++ c ∷ after)
      → P c × All P (before ++ after)
  All-remove P [] c after h = h
  All-remove P (b ∷ before) c after h =
      let rest = All-remove P before c after h.1 in (rest.0, (h.0, rest.1))

  Exclusive-remove :
      (before : List Pos2) (c : Pos2) (after : List Pos2)
      → Exclusive G r (before ++ c ∷ after)
      → All (λ d. Apart G r d c) (before ++ after) × Exclusive G r (before ++ after)
  Exclusive-remove [] c after h =
      (All-map (Apart G r c) (λ d. Apart G r d c) after (λ d a p g x y. a p g y x) h.0, h.1)
  Exclusive-remove (b ∷ before) c after h =
      let first = All-remove (Apart G r b) before c after h.0 in
      let rest = Exclusive-remove before c after h.1 in ((first.0, rest.0), (first.1, rest.1))

  takes-Inv :
      (s t : System w) (c : Pos2)
      → next w s.queue ≡ (some c, t.queue)
      → t.held ≡ c ∷ s.held
      → t.handed ≡ c ∷ s.handed
      → Inv s
      → Inv t
  takes-Inv s t c e eh ed v =
      let q = s.queue in
      let h = next-Hands q order v.valid c t.queue e in
      let k = h.takes in
      let grid = Grid-from q v.origin v.width v.height v.radius c h.selected.grid in
      let keep : (d : Pos2) → Locks q d → Locks t.queue d = λ d old p g near.
        elim (Bool-cases (is_set t.queue.lock p)) [
          | inl locked ↦ locked
          | inr free ↦
              let g' = Grid-to q v.origin v.width v.height v.radius p g in
              k.kept p g' (λ x. cc (free, k.locked p g' x)) ∙ old p g near
        ] in
      let other : (d : Pos2) → G d × (is_set q.done d ≡ true) → c ≢ d =
        λ d x same. cc (h.selected.new, subst (λ z. is_set q.done z ≡ true) (sym same) x.1) in
      record {
        valid = k.valid;
        origin = k.origin ∙ v.origin;
        width = k.width ∙ v.width;
        height = k.height ∙ v.height;
        radius = k.radius ∙ v.radius;
        locks = rw eh (
          λ p g near.
              k.locked p (Grid-to q v.origin v.width v.height v.radius p g)
                (Near-to q v.origin v.width v.height v.radius c p near),
          All-map (Locks q) (Locks t.queue) s.held keep v.locks,
        );
        exclusive = rw eh (
          All-map (Locks q) (Apart G r c) s.held
              (λ d old p g x y. cc (
                old p g y,
                h.unlocked p (Grid-to q v.origin v.width v.height v.radius p g)
                    (Near-to q v.origin v.width v.height v.radius c p x),
              ))
              v.locks,
          v.exclusive,
        );
        done = rw ed (
          (grid, k.done),
          All-map (λ d. G d × (is_set q.done d ≡ true)) (λ d. G d × (is_set t.queue.done d ≡ true))
              s.handed
              (λ d x. (
                x.0,
                k.others d (Grid-to q v.origin v.width v.height v.radius d x.0) (other d x) ∙ x.1,
              ))
              v.done,
        );
        distinct = rw ed (
          All-map (λ d. G d × (is_set q.done d ≡ true)) (λ d. c ≢ d) s.handed other v.done,
          v.distinct,
        );
      }

  returns-Inv :
      (s t : System w) (c : Pos2) (before after : List Pos2)
      → s.held ≡ before ++ c ∷ after
      → t.queue ≡ unlock_around w s.queue c
      → t.held ≡ before ++ after
      → t.handed ≡ s.handed
      → Inv s
      → Inv t
  returns-Inv s t c before after es eq eh ed v =
      let q = s.queue in
      let k = subst (Frees q c v.valid) (sym eq) (unlock_around-Frees q c v.valid) in
      let apart = Exclusive-remove before c after (subst (Exclusive G r) es v.exclusive) in
      let old = (All-remove (Locks q) before c after (subst (All (Locks q)) es v.locks)).1 in
      record {
        valid = k.valid;
        origin = k.origin ∙ v.origin;
        width = k.width ∙ v.width;
        height = k.height ∙ v.height;
        radius = k.radius ∙ v.radius;
        locks = rw eh (
            All-zip (before ++ after) apart.0 old (λ d a l p g near.
              k.kept p (Grid-to q v.origin v.width v.height v.radius p g)
                (λ x. a p g near (Near-from q v.origin v.width v.height v.radius c p x))
              ∙ l p g near));
        exclusive = rw eh apart.1;
        done =
            rw ed (subst (λ d. All (λ x. G x × (is_set d x ≡ true)) s.handed) (sym k.done) v.done);
        distinct = rw ed v.distinct;
      }
    where
      All-zip :
          (cs : List Pos2)
          → All (λ d. Apart G r d c) cs
          → All (Locks s.queue) cs
          → ((d : Pos2) → Apart G r d c → Locks s.queue d → Locks t.queue d)
          → All (Locks t.queue) cs
      All-zip [] a l f = tt
      All-zip (d ∷ ds) a l f = (f d a.0 l.0, All-zip ds a.1 l.1 f)

  Step-Inv : {s t : System w} → Step s t → Inv s → Inv t
  Step-Inv {s} {t} (takes c e eh ed) v = takes-Inv s t c e eh ed v
  Step-Inv {s} {t} (returns c before after es eq eh ed) v =
      returns-Inv s t c before after es eq eh ed v

  Reach-Inv : {s : System w} → Reach (initial w o n m r) s → Inv s
  unfolding create
  Reach-Inv start = record {
    valid = create-IsValid o n m r;
    origin = refl;
    width = refl;
    height = refl;
    radius = refl;
    locks = tt;
    exclusive = tt;
    done = tt;
    distinct = tt;
  }
  Reach-Inv (more p st) = Step-Inv st (Reach-Inv p)

  -- Where weights have an irreflexive and transitive order: after any steps from a new queue, no
  -- cell of the grid is within the lock radius of two cells that are held at once, and no cell
  -- was handed out twice.
  pub workers-Exclusive :
      (s : System w)
      → Reach (initial w o n m r) s
      → Exclusive (InGrid o n m) r s.held × Distinct s.handed
  workers-Exclusive s p = let v = Reach-Inv p in (v.exclusive, v.distinct)
