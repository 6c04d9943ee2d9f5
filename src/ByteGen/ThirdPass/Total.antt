-- ===== src/ByteGen/ThirdPass/Total.antt =====
-- The third pass on code without `break` and `continue`.
use smpl_mirror.Common.{
  ℕ, ◌+◌, ◌≡◌, ◌≢◌, refl, List, [], ◌∷◌, some, none, arith, lookup_id, insert_id,
  lookup_id-insert_id,
}
use smpl_mirror.ByteCode.{Instruction}
use smpl_mirror.ByteGen.Partial.{Flat}
use smpl_mirror.ByteGen.ThirdPass.{
  Indexes, LoopIndexes, insert_new, gather_loop_indexes, emit, pass,
}

abbrev pub NotIn : ℕ → List ℕ → Type 0
NotIn id [] = Unit
NotIn id (j ∷ js) = (j ≢ id) × NotIn id js

-- Code of instructions and markers, whose instructions are those of the second list. No loop is
-- begun that is among the first ids or has been begun before, and none is ended that is among the
-- second ids or has been ended before.
pub data Marked : List ℕ → List ℕ → List Flat → List Instruction → Type 0 where
  done : {begun ended : List ℕ} → Marked begun ended [] []
  plain :
      {begun ended : List ℕ} {i : Instruction} {code : List Flat} {is : List Instruction}
      → Marked begun ended code is
      → Marked begun ended (Flat.instruction i ∷ code) (i ∷ is)
  begin :
      {begun ended : List ℕ} {id : ℕ} {code : List Flat} {is : List Instruction}
      → NotIn id begun
      → Marked (id ∷ begun) ended code is
      → Marked begun ended (Flat.loop_begin id ∷ code) is
  end :
      {begun ended : List ℕ} {id : ℕ} {code : List Flat} {is : List Instruction}
      → NotIn id ended
      → Marked begun (id ∷ ended) code is
      → Marked begun ended (Flat.loop_end id ∷ code) is

-- The keys of the map are among the ids.
abbrev HasKeys : Indexes → List ℕ → Type 0
HasKeys m ids = (id : ℕ) → NotIn id ids → lookup_id id m ≡ none

insert_new-HasKeys :
    (id index : ℕ) (m : Indexes) (ids : List ℕ)
    → HasKeys m ids
    → NotIn id ids
    → (m' : Indexes) × (insert_new id index m ≡ some m') × HasKeys m' (id ∷ ids)
unfolding insert_new
insert_new-HasKeys id index m ids keys fresh = (
  insert_id id index m,
  rw (insert_new, keys id fresh),
  λ j (other, fresh'). ground (arith, lookup_id-insert_id id j index m, keys j fresh', other),
)

gather-Marked :
    (index : ℕ) (m : LoopIndexes) {begun ended : List ℕ} {code : List Flat} {is : List Instruction}
    → HasKeys m.loop_begin_indexes begun
    → HasKeys m.loop_end_indexes ended
    → Marked begun ended code is
    → (m' : LoopIndexes) × (gather_loop_indexes index code m ≡ some m')
unfolding gather_loop_indexes
gather-Marked index m b e Marked.done = (m, refl)
gather-Marked index m b e (Marked.plain r) = gather-Marked (index + 1) m b e r
gather-Marked index m b e (Marked.begin {begun = begun} {id = id} f r) =
    let (begins, p, b') = insert_new-HasKeys id index m.loop_begin_indexes begun b f in
    let (m', q) = gather-Marked (index + 1) (record m { loop_begin_indexes = begins }) b' e r in
    (m', rw (p, q))
gather-Marked index m b e (Marked.end {ended = ended} {id = id} f r) =
    let (ends, p, e') = insert_new-HasKeys id index m.loop_end_indexes ended e f in
    let (m', q) = gather-Marked (index + 1) (record m { loop_end_indexes = ends }) b e' r in
    (m', rw (p, q))

emit-Marked :
    (m : LoopIndexes) (index : ℕ) {begun ended : List ℕ} {code : List Flat} {is : List Instruction}
    → Marked begun ended code is
    → emit m index code ≡ some is
unfolding emit
emit-Marked m index Marked.done = refl
emit-Marked m index (Marked.plain r) = rw (emit-Marked m (index + 1) r)
emit-Marked m index (Marked.begin f r) = emit-Marked m (index + 1) r
emit-Marked m index (Marked.end f r) = emit-Marked m (index + 1) r

-- Code with no `break` and no `continue`, in which no loop is begun or ended twice, goes through
-- the third pass without a panic, and comes out as its instructions in their order.
pub pass-Marked :
    {code : List Flat} {is : List Instruction} → Marked [] [] code is → pass code ≡ some is
unfolding pass lookup_id
pass-Marked r =
    let (m, p) =
      gather-Marked 0 (record { loop_begin_indexes = []; loop_end_indexes = [] }) (λ id f. refl)
        (λ id f. refl) r in
    rw (p, emit-Marked m 0 r)
