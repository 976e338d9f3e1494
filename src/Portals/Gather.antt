-- ===== src/Portals/Gather.antt =====
-- From the portal blocks of the chunks to the records of the world: `Portals::add` for each chunk,
-- then `Portals::putInto`.
use je2be.Prelude.{◌≡◌, ◌≢◌, refl, sym, subst, ◌∙◌, ◌↔◌, ◌⊎◌, inl, inr, Bool, true, false}
use je2be.Prelude.{Bool-cases, List, [], ◌∷◌, Any, Any-append_left, Any-append_right, arith}
use je2be.Prelude.Int.{ℤ}
use je2be.Prelude.Sets.{Has, Has-nil, Has-cons, Has-emplace, emplace}
use je2be.Geometry.Pos.{Pos3, pos3_eq}
use je2be.Portals.{Portal, extract}
use je2be.Portals.Frames.{Frames}
use je2be.Portals.Extract.{extract-Extracted}
use je2be.Portals.Worlds.{Dimensions, insert_all, drain_oriented, PortalBlocks, no_portal_blocks}
use je2be.Portals.Worlds.{extract_both, drain_both, Portals, add, put_portals, add_chunks}

pub insert_all_iff :
    (s out : List Pos3) (p : Pos3) → Has (insert_all s out) p ↔ (Has s p ⊎ Has out p)
unfolding insert_all
insert_all_iff [] out p = (λ h. inr h, λ h. elim h [ inl k ↦ absurd (Has-nil p k) | inr k ↦ k ])
insert_all_iff (q ∷ s) out p =
    let ih = insert_all_iff s (emplace q out) p in
    let one = Has-emplace p q out in
    let whole = Has-cons p q s in
    (λ h. ground (arith, ih, one, whole), λ h. ground (arith, ih, one, whole))

abbrev pub side : Bool → PortalBlocks → List Pos3
side true b = b.fx.blocks
side false b = b.fz.blocks

-- The sets are of the axes that their names say.
abbrev pub IsValid : PortalBlocks → Type 0
IsValid b = (b.fx.x_axis ≡ true) × (b.fz.x_axis ≡ false)

side-drain_both :
    (a : Bool) (b out : PortalBlocks)
    → side a (drain_both b out).1 ≡ insert_all (side a b) (side a out)
unfolding drain_both drain_oriented
side-drain_both true b out = refl
side-drain_both false b out = refl

drain_both_iff :
    (a : Bool) (b out : PortalBlocks) (r : Pos3)
    → Has (side a (drain_both b out).1) r ↔ (Has (side a b) r ⊎ Has (side a out) r)
drain_both_iff a b out r = rw (side-drain_both a b out) (insert_all_iff (side a b) (side a out) r)

drain_both-IsValid : (b out : PortalBlocks) → IsValid out → IsValid (drain_both b out).1
unfolding drain_both drain_oriented
drain_both-IsValid b out v = v

extract_both-Frames :
    (a : Bool) (b : PortalBlocks) (buffer : List Portal) (dim : ℤ) (r : Pos3)
    → IsValid b
    → Has (side a b) r
    → Any (λ t. Frames a (side a b) dim t r) (extract_both b buffer dim).1
unfolding extract_both
extract_both-Frames true b buffer dim r v h =
    let x = extract-Extracted b.fx buffer dim in
    let z = extract-Extracted b.fz (extract b.fx buffer dim).1 dim in
    let P = λ (t : Portal). Frames true b.fx.blocks dim t r in
    let found = subst (λ c. Any (λ t. Frames c b.fx.blocks dim t r) x.portals) v.0 (x.frames r h) in
    subst (Any P) (sym z.pushes) (
      Any-append_left P (extract b.fx buffer dim).1 z.portals
        (subst (Any P) (sym x.pushes) (Any-append_right P buffer x.portals found)))
extract_both-Frames false b buffer dim r v h =
    let z = extract-Extracted b.fz (extract b.fx buffer dim).1 dim in
    let P = λ (t : Portal). Frames false b.fz.blocks dim t r in
    let found = subst (λ c. Any (λ t. Frames c b.fz.blocks dim t r) z.portals) v.1 (z.frames r h) in
    subst (Any P) (sym z.pushes) (Any-append_right P (extract b.fx buffer dim).1 z.portals found)

-- What is in the buffer stays in it.
extract_both_keeps :
    (P : Portal → Type 0) (b : PortalBlocks) (buffer : List Portal) (dim : ℤ)
    → Any P buffer
    → Any P (extract_both b buffer dim).1
unfolding extract_both
extract_both_keeps P b buffer dim h =
    let x = extract-Extracted b.fx buffer dim in
    let z = extract-Extracted b.fz (extract b.fx buffer dim).1 dim in
    subst (Any P) (sym z.pushes) (
      Any-append_left P (extract b.fx buffer dim).1 z.portals
        (subst (Any P) (sym x.pushes) (Any-append_left P buffer x.portals h)))

module _ (D : Dimensions) where
  -- The two worlds of `Portals`, by whether it is the overworld.
  abbrev pub world : Bool → Portals → PortalBlocks
  world true ps = ps.overworld
  world false ps = ps.nether

  abbrev pub dimension : Bool → D.Dimension
  dimension true = D.overworld
  dimension false = D.nether

  pub add_iff :
      D.overworld ≢ D.nether
      → (w a : Bool) (ps : Portals) (b : PortalBlocks) (dim : D.Dimension) (r : Pos3)
      → Has (side a (world w (add D ps b dim).0)) r
        ↔ (Has (side a (world w ps)) r ⊎ ((dim ≡ dimension w) × Has (side a b) r))
  unfolding add
  add_iff apart true a ps b dim r =
      let drained = drain_both_iff a b ps.overworld r in
      elim (Bool-cases (D.dimension_eq.beq dim D.overworld)) [
        | inl o ↦
            let same = (D.dimension_eq.beq_iff dim D.overworld).0 o in
            rw (o, add) (λ h. ground (arith, drained, same), λ h. ground (arith, drained))
        | inr o ↦
            let other : dim ≢ D.overworld =
              λ e. cc (o, (D.dimension_eq.beq_iff dim D.overworld).1 e) in
            elim (Bool-cases (D.dimension_eq.beq dim D.nether)) [
              | inl n ↦ rw (o, n, add) (λ h. inl h, λ h. ground (arith, other))
              | inr n ↦ rw (o, n, add) (λ h. inl h, λ h. ground (arith, other))
            ]
      ]
  add_iff apart false a ps b dim r =
      let drained = drain_both_iff a b ps.nether r in
      elim (Bool-cases (D.dimension_eq.beq dim D.overworld)) [
        | inl o ↦
            let same = (D.dimension_eq.beq_iff dim D.overworld).0 o in
            rw (o, add)
              (λ h. inl h, λ h. elim h [ inl k ↦ k | inr k ↦ absurd (apart (sym same ∙ k.0)) ])
        | inr o ↦ elim (Bool-cases (D.dimension_eq.beq dim D.nether)) [
          | inl n ↦
              let same = (D.dimension_eq.beq_iff dim D.nether).0 n in
              rw (o, n, add) (λ h. ground (arith, drained, same), λ h. ground (arith, drained))
          | inr n ↦
              let other : dim ≢ D.nether = λ e. cc (n, (D.dimension_eq.beq_iff dim D.nether).1 e) in
              rw (o, n, add) (λ h. inl h, λ h. ground (arith, other))
        ]
      ]

  -- Both worlds have their sets in order.
  abbrev pub AreValid : Portals → Type 0
  AreValid ps = IsValid ps.overworld × IsValid ps.nether

  pub add-AreValid :
      (ps : Portals) (b : PortalBlocks) (dim : D.Dimension)
      → AreValid ps
      → AreValid (add D ps b dim).0
  unfolding add
  add-AreValid ps b dim v = elim (Bool-cases (D.dimension_eq.beq dim D.overworld)) [
    | inl o ↦ rw (o, add) (drain_both-IsValid b ps.overworld v.0, v.1)
    | inr o ↦ elim (Bool-cases (D.dimension_eq.beq dim D.nether)) [
      | inl n ↦ rw (o, n, add) (v.0, drain_both-IsValid b ps.nether v.1)
      | inr n ↦ rw (o, n, add) v
    ]
  ]

  put_portals-Frames :
      (w a : Bool) (ps : Portals) (r : Pos3)
      → AreValid ps
      → Has (side a (world w ps)) r
      → Any (λ t. Frames a (side a (world w ps)) (D.to_i32 (dimension w)) t r) (put_portals D ps).1
  unfolding put_portals
  put_portals-Frames true a ps r v h =
      extract_both_keeps _ ps.nether (extract_both ps.overworld [] (D.to_i32 D.overworld)).1
        (D.to_i32 D.nether) (extract_both-Frames a ps.overworld [] (D.to_i32 D.overworld) r v.0 h)
  put_portals-Frames false a ps r v h =
      extract_both-Frames a ps.nether (extract_both ps.overworld [] (D.to_i32 D.overworld)).1
        (D.to_i32 D.nether) r v.1 h

  add_chunks_iff :
      D.overworld ≢ D.nether
      → (w a : Bool) (ps : Portals) (cs : List (PortalBlocks × D.Dimension)) (r : Pos3)
      → Has (side a (world w (add_chunks D ps cs))) r
        ↔ (Has (side a (world w ps)) r ⊎ Any (λ c. (c.1 ≡ dimension w) × Has (side a c.0) r) cs)
  add_chunks_iff apart w a ps [] r = (λ h. inl h, λ h. ground arith)
  add_chunks_iff apart w a ps ((b, dim) ∷ cs) r =
      let one = add_iff apart w a ps b dim r in
      let ih = add_chunks_iff apart w a (add D ps b dim).0 cs r in
      (λ h. ground (arith, one, ih), λ h. ground (arith, one, ih))

  add_chunks-AreValid :
      (ps : Portals) (cs : List (PortalBlocks × D.Dimension))
      → AreValid ps
      → AreValid (add_chunks D ps cs)
  add_chunks-AreValid ps [] v = v
  add_chunks-AreValid ps ((b, dim) ∷ cs) v =
      add_chunks-AreValid (add D ps b dim).0 cs (add-AreValid ps b dim v)

  abbrev pub no_portals : Portals
  no_portals = record { overworld = no_portal_blocks; nether = no_portal_blocks }

  -- Where the two dimensions differ, each portal block of a chunk of the overworld or the nether,
  -- on either axis, is framed, after `Portals::add` for every chunk, by one of the portals that
  -- `putInto` writes: the portal is of that dimension and axis, and the block lies in a rectangle
  -- that starts at the portal's first corner, of which one whole row and one whole column are portal
  -- blocks, and whose width modulo 256 is the portal's span.
  pub put_portals-add_chunks :
      D.overworld ≢ D.nether
      → (w a : Bool) (cs : List (PortalBlocks × D.Dimension)) (r : Pos3)
      → Any (λ c. (c.1 ≡ dimension w) × Has (side a c.0) r) cs
      → Any
          (λ t.
            Frames a (side a (world w (add_chunks D no_portals cs))) (D.to_i32 (dimension w)) t r)
          (put_portals D (add_chunks D no_portals cs)).1
  put_portals-add_chunks apart w a cs r h =
      put_portals-Frames w a (add_chunks D no_portals cs) r
        (add_chunks-AreValid no_portals cs ((refl, refl), (refl, refl)))
        ((add_chunks_iff apart w a no_portals cs r).1 (inr h))
