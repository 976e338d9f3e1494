-- ===== src/UuidRegistrar/Ids.antt =====
-- The ids of `ToId` and `LeasherIdFor`: one for each UUID and each id asked for, all different.
use je2be.Prelude.{ℕ, ◌≡◌, ◌≢◌, refl, ap, sym, subst, ◌∙◌, ◌⊎◌, inl, inr}
use je2be.Prelude.{Bool-cases, Option, none, some}
use je2be.Prelude.{List, arith}
use je2be.Prelude.Int64.{Int64, int64_eq}
use je2be.Prelude.Equality.{Eq}
use je2be.Prelude.Sets.{Has, emplace, Has-emplace}
use je2be.Tables.ReversibleMap.{find, insert, find-insert}
use je2be.UuidRegistrar.{
  Hashes, Registrar, to_id, leasher_id_for, avoid_collision, put_id, put_leasher,
}
use je2be.UuidRegistrar.Collisions.{candidate, Outcome, avoid_collision-Outcome}

-- What the table gives after an entry is put in.
find_after :
    {A : Type 0} ⦃e : Eq A⦄ (a k : A) (v : Int64) (m : List (A × Int64))
    → ((k ≡ a) × (find k (insert a v m) ≡ some v)) ⊎ ((k ≢ a) × (find k (insert a v m) ≡ find k m))
find_after ⦃e⦄ a k v m = elim (Bool-cases (e.beq a k)) [
  | inl h ↦ inl (sym ((e.beq_iff a k).0 h), find-insert a k v m ∙ rw h refl)
  | inr h ↦ inr (λ p. cc (h, (e.beq_iff a k).1 (sym p)), find-insert a k v m ∙ rw h refl)
]

module _ (H : Hashes) where
  -- What a call asks the id of.
  abbrev pub Key : Type 0
  Key = H.Uuid ⊎ Int64

  abbrev pub call : Registrar H → Key → Option (Int64 × Registrar H)
  call r (inl uuid) = to_id H r uuid
  call r (inr id) = leasher_id_for H r id

  abbrev pub lookup : Registrar H → Key → Option Int64
  lookup r (inl uuid) = find ⦃e = H.uuid_eq⦄ uuid r.id_lut
  lookup r (inr id) = find id r.leasher_lut

  -- The ids in the tables are in the set, and no two keys share one.
  pub record IsValid (r : Registrar H) : Type 0 where
    pub known : (k : Key) (v : Int64) → lookup r k ≡ some v → Has r.used v
    pub apart : (k k' : Key) (v : Int64) → lookup r k ≡ some v → lookup r k' ≡ some v → k ≡ k'

  -- What a call leaves: the id under its key, the ids under the others.
  pub record Answer (r : Registrar H) (k : Key) (v : Int64) (r' : Registrar H) : Type 0 where
    pub answered : lookup r' k ≡ some v
    pub keeps : (k' : Key) (v' : Int64) → lookup r k' ≡ some v' → lookup r' k' ≡ some v'
    pub valid : IsValid r'

  -- The value that `AvoidCollision` is called with for a key.
  abbrev pub first_value : Key → Int64
  first_value (inl uuid) = H.first_candidate uuid
  first_value (inr id) = H.digest id

  -- The key has no id, and all values that the hash gives for it were handed out.
  abbrev pub Stuck : Registrar H → Key → Type 0
  Stuck r k = (lookup r k ≡ none) × ((n : ℕ) → Has r.used (candidate H n (first_value k)))

  abbrev pub AnswerIn : Registrar H → Key → Option (Int64 × Registrar H) → Type 0
  AnswerIn r k none = Stuck r k
  AnswerIn r k (some (v, r')) = Answer r k v r'

  some_inj : (a b : Int64) → some a ≡ some b → a ≡ b
  some_inj a b e = cc e

  -- A new id under a new key.
  record Registered (r : Registrar H) (k : Key) (v : Int64) (r' : Registrar H) : Type 0 where
    used : r'.used ≡ emplace v r.used
    at :
        (k' : Key)
        → ((k' ≡ k) × (lookup r' k' ≡ some v)) ⊎ ((k' ≢ k) × (lookup r' k' ≡ lookup r k'))

  Registered-IsValid :
      (r : Registrar H) (k : Key) (v : Int64) (r' : Registrar H)
      → IsValid r
      → ¬ Has r.used v
      → Registered r k v r'
      → IsValid r'
  Registered-IsValid r k v r' valid new reg = record {
    known = λ k' w h.
        subst (λ s. Has s w) (sym reg.used)
          ((Has-emplace w v r.used).1 (elim (reg.at k') [
            | inl e ↦ inl (some_inj _ _ (sym h ∙ e.1))
            | inr e ↦ inr (valid.known k' w (sym e.1 ∙ h))
          ]));
    apart = λ k1 k2 w h1 h2. elim (reg.at k1) [
      | inl a ↦ elim (reg.at k2) [
        | inl b ↦ a.0 ∙ sym b.0
        | inr b ↦ absurd (
            new
              (subst (Has r.used) (some_inj _ _ (sym h1 ∙ a.1)) (valid.known k2 w (sym b.1 ∙ h2))))
      ]
      | inr a ↦ elim (reg.at k2) [
        | inl b ↦ absurd (
            new
              (subst (Has r.used) (some_inj _ _ (sym h2 ∙ b.1)) (valid.known k1 w (sym a.1 ∙ h1))))
        | inr b ↦ valid.apart k1 k2 w (sym a.1 ∙ h1) (sym b.1 ∙ h2)
      ]
    ];
  }

  taken : {v : Int64} → none ≢ some v
  taken e = ground arith

  Registered-Answer :
      (r : Registrar H) (k : Key) (v : Int64) (r' : Registrar H)
      → IsValid r
      → lookup r k ≡ none
      → ¬ Has r.used v
      → Registered r k v r'
      → Answer r k v r'
  Registered-Answer r k v r' valid free new reg = record {
    answered = elim (reg.at k) [ inl e ↦ e.1 | inr e ↦ absurd (e.0 refl) ];
    keeps = λ k' v' h. elim (reg.at k') [
      | inl e ↦ absurd (taken (sym free ∙ subst (λ c. lookup r c ≡ some v') e.0 h))
      | inr e ↦ e.1 ∙ h
    ];
    valid = Registered-IsValid r k v r' valid new reg;
  }

  put_id-Registered :
      (r : Registrar H) (uuid : H.Uuid) (v : Int64)
      → Registered r (inl uuid) v (put_id H r uuid v (emplace v r.used))
  put_id-Registered r uuid v = record { used = refl; at = at_key }
    where
      at_key :
          (k : Key)
          → ((k ≡ inl uuid) × (lookup (put_id H r uuid v (emplace v r.used)) k ≡ some v))
            ⊎ ((k ≢ inl uuid) × (lookup (put_id H r uuid v (emplace v r.used)) k ≡ lookup r k))
      at_key (inl other) = elim (find_after ⦃e = H.uuid_eq⦄ uuid other v r.id_lut) [
        | inl h ↦ inl (ap inl h.0, h.1)
        | inr h ↦ inr (λ e. h.0 (cc e), h.1)
      ]
      at_key (inr id) = inr (λ e. ground arith, refl)

  put_leasher-Registered :
      (r : Registrar H) (id : Int64) (v : Int64)
      → Registered r (inr id) v (put_leasher H r id v (emplace v r.used))
  put_leasher-Registered r id v = record { used = refl; at = at_key }
    where
      at_key :
          (k : Key)
          → ((k ≡ inr id) × (lookup (put_leasher H r id v (emplace v r.used)) k ≡ some v))
            ⊎ ((k ≢ inr id) × (lookup (put_leasher H r id v (emplace v r.used)) k ≡ lookup r k))
      at_key (inr other) = elim (find_after id other v r.leasher_lut) [
        | inl h ↦ inl (ap inr h.0, h.1)
        | inr h ↦ inr (λ e. h.0 (cc e), h.1)
      ]
      at_key (inl uuid) = inr (λ e. ground arith, refl)

  Known-Answer :
      (r : Registrar H) (k : Key) (v : Int64) → IsValid r → lookup r k ≡ some v → Answer r k v r
  Known-Answer r k v valid h = record { answered = h; keeps = λ k' v' g. g; valid = valid }

  pub call-Answer : (r : Registrar H) (k : Key) → IsValid r → AnswerIn r k (call r k)
  unfolding to_id leasher_id_for
  call-Answer r (inl uuid) valid =
      go (find ⦃e = H.uuid_eq⦄ uuid r.id_lut) refl
        (avoid_collision H r.used (H.first_candidate uuid))
        (avoid_collision-Outcome H r.used (H.first_candidate uuid))
    where
      go :
          (o : Option Int64)
          → find ⦃e = H.uuid_eq⦄ uuid r.id_lut ≡ o
          → (c : Option (Int64 × List Int64)) → Outcome H r.used (H.first_candidate uuid) c
          → AnswerIn r (inl uuid) (elim o [
            | some id ↦ some (id, r)
            | none ↦ elim c [
              | none ↦ none
              | some (result, used) ↦ some (result, put_id H r uuid result used)
            ]
          ])
      go (some id) e c f = Known-Answer r (inl uuid) id valid e
      go none e none f = (e, f)
      go none e (some (result, used)) f =
          subst (λ u. Answer r (inl uuid) result (put_id H r uuid result u)) (sym f.1)
            (Registered-Answer r (inl uuid) result _ valid e f.0 (put_id-Registered r uuid result))
  call-Answer r (inr id) valid =
      go (find id r.leasher_lut) refl (avoid_collision H r.used (H.digest id))
        (avoid_collision-Outcome H r.used (H.digest id))
    where
      go :
          (o : Option Int64)
          → find id r.leasher_lut ≡ o
          → (c : Option (Int64 × List Int64)) → Outcome H r.used (H.digest id) c
          → AnswerIn r (inr id) (elim o [
            | some leasher ↦ some (leasher, r)
            | none ↦ elim c [
              | none ↦ none
              | some (result, used) ↦ some (result, put_leasher H r id result used)
            ]
          ])
      go (some leasher) e c f = Known-Answer r (inr id) leasher valid e
      go none e none f = (e, f)
      go none e (some (result, used)) f =
          subst (λ u. Answer r (inr id) result (put_leasher H r id result u)) (sym f.1)
            (Registered-Answer r (inr id) result _ valid e f.0 (put_leasher-Registered r id result))
