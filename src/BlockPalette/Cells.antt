-- ===== src/BlockPalette/Cells.antt =====
-- The block of each cell of a palette, before and after `set`.
use je2be.Prelude.{
  ℕ, zero, suc, ◌+◌, ◌<◌, ◌≤◌, ◌%◌, ◌^◌, ◌==◌, ◌≡◌, ◌≢◌, refl, sym, ap, ◌∙◌, inl, inr, subst,
}
use je2be.Prelude.{
  List, [], ◌∷◌, ◌++◌, Option, none, some, true, false, length, get_elem?, All, Bool-cases,
  Option-cases, if◌then◌else◌, arith,
}
use je2be.Prelude.{get_elem?-set_self, get_elem?-set_ne, get_elem?-total, length-set, length-append}
use je2be.Prelude as Lists
use je2be.Prelude.{==_iff}
use je2be.Prelude.Equality.{Eq}
use je2be.BlockPalette.{BlockPalette, count, find_from, set}

module _ {A : Type 0} where
  -- The tag that an index stands for.
  abbrev pub entry : List A → Option ℕ → Option A
  entry l none = none
  entry l (some i) = get_elem? l i

  -- The tag of a cell.
  abbrev pub view : BlockPalette A → ℕ → Option A
  view p i = entry p.palette (get_elem? p.indices i)

  -- Every cell has an index of the palette.
  abbrev pub IsValid : BlockPalette A → Type 0
  IsValid p = All (λ i. i < length p.palette) p.indices

  get_elem-append_lt :
      (xs ys : List A) (i : ℕ) → i < length xs → get_elem? (xs ++ ys) i ≡ get_elem? xs i
  get_elem-append_lt [] ys i h = elim h [ ]
  get_elem-append_lt (x ∷ xs) ys zero h = refl
  get_elem-append_lt (x ∷ xs) ys (suc i) h = get_elem-append_lt xs ys i (omega arith)

  get_elem-append_end : (xs : List A) (a : A) → get_elem? (xs ++ a ∷ []) (length xs) ≡ some a
  get_elem-append_end [] a = refl
  get_elem-append_end (x ∷ xs) a = get_elem-append_end xs a

  get_elem-All :
      (P : A → Type 0) (xs : List A) (i : ℕ) (x : A) → All P xs → get_elem? xs i ≡ some x → P x
  get_elem-All P [] i x h e = ground arith
  get_elem-All P (y ∷ ys) zero x h e = subst P (ground (arith, e)) h.0
  get_elem-All P (y ∷ ys) (suc i) x h e = get_elem-All P ys i x h.1 e

  get_elem-lt : (xs : List A) (i : ℕ) (x : A) → get_elem? xs i ≡ some x → i < length xs
  get_elem-lt [] i x e = ground arith
  get_elem-lt (y ∷ ys) zero x e = omega arith
  get_elem-lt (y ∷ ys) (suc i) x e = omega (arith, get_elem-lt ys i x e)

All-below : {n m : ℕ} (xs : List ℕ) → n ≤ m → All (λ i. i < n) xs → All (λ i. i < m) xs
All-below [] le h = tt
All-below (x ∷ xs) le h = (omega (arith, h.0), All-below xs le h.1)

All-set :
    {n : ℕ} (xs : List ℕ) (i v : ℕ)
    → v < n
    → All (λ i. i < n) xs
    → All (λ i. i < n) (Lists.set xs i v)
All-set [] i v lt h = tt
All-set (x ∷ xs) zero v lt h = (lt, h.1)
All-set (x ∷ xs) (suc i) v lt h = (h.0, All-set xs i v lt h.1)

count_found : (a : ℕ) (xs : List ℕ) (i : ℕ) → get_elem? xs i ≡ some a → 1 ≤ count a xs
unfolding count
count_found a [] i e = ground arith
count_found a (x ∷ xs) zero e = ground arith
count_found a (x ∷ xs) (suc i) e = ground (arith, count_found a xs i e)

count_twice :
    (a : ℕ) (xs : List ℕ) (i j : ℕ)
    → get_elem? xs i ≡ some a
    → get_elem? xs j ≡ some a
    → i ≢ j
    → 2 ≤ count a xs
unfolding count
count_twice a [] i j e f ne = ground arith
count_twice a (x ∷ xs) zero zero e f ne = absurd (ne refl)
count_twice a (x ∷ xs) zero (suc j) e f ne = ground (arith, count_found a xs j f)
count_twice a (x ∷ xs) (suc i) zero e f ne = ground (arith, count_found a xs i e)
count_twice a (x ∷ xs) (suc i) (suc j) e f ne =
    let twice = count_twice a xs i j e f (λ h. ne (ap suc h)) in ground (arith, twice)

module _ {A : Type 0} where
  -- The cell gets the index of the tag in a palette that keeps the entries in use.
  entry-set_index :
      (l l' : List A) (ix : List ℕ) (idx k j : ℕ) (tag : A)
      → idx < length ix
      → get_elem? l' k ≡ some tag
      → ((i : ℕ) → i < length l → get_elem? l' i ≡ get_elem? l i)
      → All (λ i. i < length l) ix
      → entry l' (get_elem? (Lists.set ix idx k) j)
        ≡ (if idx == j then some tag else entry l (get_elem? ix j))
  entry-set_index l l' ix idx k j tag inside found agree v = elim (Bool-cases (idx == j)) [
    | inl same ↦
        let here =
          subst (λ m. get_elem? (Lists.set ix idx k) m ≡ some k) ((==_iff idx j).0 same)
            (get_elem?-set_self ix idx k inside) in
        rw same (ap (entry l') here ∙ found)
    | inr other ↦
        let there = get_elem?-set_ne ix idx j k (λ h. cc (other, (==_iff idx j).1 h)) in
        rw other (
          ap (entry l') there ∙ (elim (Option-cases (get_elem? ix j)) [
            | inl absent ↦ rw absent refl
            | inr (i, present) ↦
                rw present (agree i (get_elem-All (λ i. i < length l) ix j i v present))
          ]))
  ]

  -- The entry that only this cell uses is replaced.
  entry-set_used :
      (l : List A) (ix : List ℕ) (idx current j : ℕ) (tag : A)
      → get_elem? ix idx ≡ some current
      → current < length l
      → (count current ix == 1) ≡ true
      → entry (Lists.set l current tag) (get_elem? ix j)
        ≡ (if idx == j then some tag else entry l (get_elem? ix j))
  entry-set_used l ix idx current j tag now bound once = elim (Bool-cases (idx == j)) [
    | inl same ↦
        let here = subst (λ m. get_elem? ix m ≡ some current) ((==_iff idx j).0 same) now in
        rw (same, here) (get_elem?-set_self l current tag bound)
    | inr other ↦ rw other (elim (Option-cases (get_elem? ix j)) [
      | inl absent ↦ rw absent refl
      | inr (i, present) ↦ rw present (
          get_elem?-set_ne l current i tag (λ h.
            let again = subst (λ m. get_elem? ix j ≡ some m) (sym h) present in
            let twice =
              count_twice current ix idx j now again (λ same. cc (other, (==_iff idx j).1 same)) in
            absurd (omega (arith, twice, (==_iff (count current ix) 1).0 once))))
    ])
  ]

module _ {A : Type 0} ⦃e : Eq A⦄ where
  find_from-get :
      (k : ℕ) (tag : A) (xs : List A) (i : ℕ)
      → find_from k tag xs ≡ some i
      → (m : ℕ) × (i ≡ k + m) × (get_elem? xs m ≡ some tag)
  unfolding find_from
  find_from-get k tag [] i h = absurd (ground arith)
  find_from-get k tag (x ∷ xs) i h = elim (Bool-cases (e.beq x tag)) [
    | inl same ↦
        let h2 = rw (same, find_from) at h in
        (0, ground (arith, h2), ap some ((e.beq_iff x tag).0 same))
    | inr other ↦
        let (m, at_m, found) = find_from-get (suc k) tag xs i (rw (other, find_from) at h) in
        (suc m, omega arith, found)
  ]

  -- Where `equals` holds for equal tags alone, every cell has an index of the palette, the
  -- palette has fewer than 2 ^ 16 entries and the cell is one of the section: after `set` the
  -- cell has the tag, and every other cell the tag that it had before.
  pub view-set :
      (p : BlockPalette A) (idx : ℕ) (tag : A) (j : ℕ)
      → IsValid p
      → length p.palette < 2 ^ 16
      → idx < length p.indices
      → view (set p idx tag) j ≡ (if idx == j then some tag else view p j)
  unfolding set
  view-set p idx tag j v small inside =
      let (current, now) = get_elem?-total p.indices idx inside in
      let bound = get_elem-All (λ i. i < length p.palette) p.indices idx current v now in
      elim (Bool-cases (count current p.indices == 1)) [
        | inl once ↦
            rw (now, once, set)
              (entry-set_used p.palette p.indices idx current j tag now bound once)
        | inr shared ↦ elim (Option-cases (find_from 0 tag p.palette)) [
          | inl new ↦
              rw (now, shared, new, set)
                (entry-set_index p.palette (p.palette ++ tag ∷ []) p.indices idx
                  (length p.palette % 2 ^ 16) j tag inside
                  (ap (get_elem? (p.palette ++ tag ∷ [])) (omega arith)
                    ∙ get_elem-append_end p.palette tag)
                  (λ i h. get_elem-append_lt p.palette (tag ∷ []) i h) v)
          | inr (found, old) ↦
              rw (now, shared, old, set)
                (let (m, at_m, here) = find_from-get 0 tag p.palette found old in
                  let bound = get_elem-lt p.palette m tag here in
                  entry-set_index p.palette p.palette p.indices idx (found % 2 ^ 16) j tag inside
                    (ap (get_elem? p.palette) (omega arith) ∙ here) (λ i h. refl) v)
        ]
      ]

  -- `set` keeps every cell's index within the palette, while that has fewer than 2 ^ 16 entries.
  pub set-IsValid :
      (p : BlockPalette A) (idx : ℕ) (tag : A)
      → IsValid p
      → length p.palette < 2 ^ 16
      → IsValid (set p idx tag)
  unfolding set
  set-IsValid p idx tag v small = elim (Option-cases (get_elem? p.indices idx)) [
    | inl outside ↦ rw (outside, set) v
    | inr (current, now) ↦ elim (Bool-cases (count current p.indices == 1)) [
      | inl once ↦
          rw (now, once, set)
            (All-below p.indices (omega (arith, length-set p.palette current tag)) v)
      | inr shared ↦ elim (Option-cases (find_from 0 tag p.palette)) [
        | inl new ↦
            let longer = length-append p.palette (tag ∷ []) in
            rw (now, shared, new, set)
              (All-set p.indices idx (length p.palette % 2 ^ 16) (omega (arith, longer))
                (All-below p.indices (omega (arith, longer)) v))
        | inr (found, old) ↦
            let (m, at_m, here) = find_from-get 0 tag p.palette found old in
            let bound = get_elem-lt p.palette m tag here in
            rw (now, shared, old, set) (All-set p.indices idx (found % 2 ^ 16) (omega arith) v)
      ]
    ]
  ]
