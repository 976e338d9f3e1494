-- ===== src/UuidRegistrar.antt =====
-- src/tobe/_uuid-registrar.hpp: the entity ids that a conversion hands out. The two functions and
-- the set that they share are the static state of the class, under one mutex, so the calls come
-- one after the other. The hashes, of a UUID and of an id, are parameters.
pub mod Collisions
pub mod Ids
pub mod Calls
use package.je2be.Prelude.{ℕ, zero, suc, Option, none, some, List, [], length, if◌then◌else◌}
use package.je2be.Prelude.Int64.{Int64, int64_eq}
use package.je2be.Prelude.Equality.{Eq}
use package.je2be.Prelude.Sets.{has, emplace}
use package.je2be.Tables.ReversibleMap.{find, insert}

-- The UUIDs and `XXHash`.
pub record Hashes : Type 1 where
  pub Uuid : Type 0
  pub uuid_eq : Eq Uuid
  pub first_candidate : Uuid → Int64
  pub digest : Int64 → Int64

-- The tables of `ToId` and `LeasherIdFor`, and `sUsed`.
pub record Registrar (H : Hashes) : Type 0 where
  pub id_lut : List (H.Uuid × Int64)
  pub leasher_lut : List (Int64 × Int64)
  pub used : List Int64

module _ (H : Hashes) where
  -- `while (true)` of `AvoidCollision`: the value and the set with it.
  unfoldable pub avoid_loop : ℕ → List Int64 → Int64 → Option (Int64 × List Int64)
  unfolding has emplace
  avoid_loop zero used h = none
  avoid_loop (suc fuel) used h =
      let rest = avoid_loop fuel used (H.digest h) in
      if has h used then rest else some (h, emplace h used)

  -- After as many rounds as the set has values the hash has left the set or repeats itself.
  unfoldable pub avoid_collision : List Int64 → Int64 → Option (Int64 × List Int64)
  unfolding avoid_loop
  avoid_collision used h = avoid_loop (suc (length used)) used h

  -- `sLut[uuid] = result` and `sLut[id] = result`, with the set that `AvoidCollision` leaves.
  abbrev pub put_id : Registrar H → H.Uuid → Int64 → List Int64 → Registrar H
  put_id r uuid result used = record {
    id_lut = insert ⦃e = H.uuid_eq⦄ uuid result r.id_lut;
    leasher_lut = r.leasher_lut;
    used = used;
  }

  abbrev pub put_leasher : Registrar H → Int64 → Int64 → List Int64 → Registrar H
  put_leasher r id result used = record {
    id_lut = r.id_lut;
    leasher_lut = insert id result r.leasher_lut;
    used = used;
  }

  unfoldable pub to_id : Registrar H → H.Uuid → Option (Int64 × Registrar H)
  unfolding find avoid_collision insert
  to_id r uuid = elim (find ⦃e = H.uuid_eq⦄ uuid r.id_lut) [
    | some id ↦ some (id, r)
    | none ↦ elim (avoid_collision r.used (H.first_candidate uuid)) [
      | none ↦ none
      | some (result, used) ↦ some (result, put_id r uuid result used)
    ]
  ]

  unfoldable pub leasher_id_for : Registrar H → Int64 → Option (Int64 × Registrar H)
  unfolding find avoid_collision insert
  leasher_id_for r id = elim (find id r.leasher_lut) [
    | some leasher ↦ some (leasher, r)
    | none ↦ elim (avoid_collision r.used (H.digest id)) [
      | none ↦ none
      | some (result, used) ↦ some (result, put_leasher r id result used)
    ]
  ]

  abbrev pub no_ids : Registrar H
  no_ids = record { id_lut = []; leasher_lut = []; used = [] }
