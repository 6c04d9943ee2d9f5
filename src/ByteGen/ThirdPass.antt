-- ===== src/ByteGen/ThirdPass.antt =====
-- smpl/src/code_gen/byte_gen/third_pass.rs: `continue` and `break` become relative jumps, and the
-- markers go. `none` is a panic.
pub mod Jumps
pub mod Total
use smpl_mirror.Common.{
  ℕ, zero, suc, ◌+◌, ◌-◌, List, [], ◌∷◌, Option, none, some, ltb, if◌then◌else◌, lookup_id,
  insert_id,
}
use smpl_mirror.Common.Options.{◌>>=◌}
use smpl_mirror.Common.Int.{pos}
use smpl_mirror.ByteCode.{Instruction, rel_jump_target}
use smpl_mirror.ByteGen.Partial.{Flat}

abbrev pub Indexes : Type 0
Indexes = List (ℕ × ℕ)

pub record LoopIndexes : Type 0 where
  pub loop_begin_indexes : Indexes
  pub loop_end_indexes : Indexes

-- `insert`, which panics on a key that is there.
unfoldable pub insert_new : ℕ → ℕ → Indexes → Option Indexes
insert_new id index m = elim (lookup_id id m) [
  | none ↦ some (insert_id id index m)
  | some old ↦ none
]

-- The loop of `gather_loop_indexes` from an index on.
unfoldable pub gather_loop_indexes : ℕ → List Flat → LoopIndexes → Option LoopIndexes
unfolding insert_new
gather_loop_indexes index [] m = some m
gather_loop_indexes index (Flat.loop_begin id ∷ code) m = do
  begins ← insert_new id index m.loop_begin_indexes
  gather_loop_indexes (index + 1) code (record m { loop_begin_indexes = begins })
gather_loop_indexes index (Flat.loop_end id ∷ code) m = do
  ends ← insert_new id index m.loop_end_indexes
  gather_loop_indexes (index + 1) code (record m { loop_end_indexes = ends })
gather_loop_indexes index (Flat.instruction i ∷ code) m = gather_loop_indexes (index + 1) code m
gather_loop_indexes index (Flat.continue id ∷ code) m = gather_loop_indexes (index + 1) code m
gather_loop_indexes index (Flat.break id ∷ code) m = gather_loop_indexes (index + 1) code m

-- The jump for a `continue` at an index: as the source has it, a jump forwards.
unfoldable pub continue_jump : LoopIndexes → ℕ → ℕ → Option Instruction
continue_jump m index id = do
  loop_begin_index ← lookup_id id m.loop_begin_indexes
  if ltb index loop_begin_index
      then none
      else some (Instruction.rel_jump (rel_jump_target (pos (index - loop_begin_index))))

-- The jump for a `break` at an index. The source reads the index of the loop's end from
-- `loop_begin_indexes`.
unfoldable pub break_jump : LoopIndexes → ℕ → ℕ → Option Instruction
break_jump m index id = do
  loop_end_index ← lookup_id id m.loop_begin_indexes
  if ltb loop_end_index index
      then none
      else some (Instruction.rel_jump (rel_jump_target (pos (loop_end_index - index))))

-- The loop of `pass` from an index on.
unfoldable pub emit : LoopIndexes → ℕ → List Flat → Option (List Instruction)
unfolding continue_jump break_jump
emit m index [] = some []
emit m index (Flat.instruction i ∷ code) = do is ← emit m (index + 1) code; some (i ∷ is)
emit m index (Flat.continue id ∷ code) = do
  i ← continue_jump m index id
  is ← emit m (index + 1) code
  some (i ∷ is)
emit m index (Flat.break id ∷ code) = do
  i ← break_jump m index id
  is ← emit m (index + 1) code
  some (i ∷ is)
emit m index (Flat.loop_begin id ∷ code) = emit m (index + 1) code
emit m index (Flat.loop_end id ∷ code) = emit m (index + 1) code

unfoldable pub pass : List Flat → Option (List Instruction)
unfolding gather_loop_indexes emit
pass code = do
  m ← gather_loop_indexes 0 code (record { loop_begin_indexes = []; loop_end_indexes = [] })
  emit m 0 code
