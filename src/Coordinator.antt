-- ===== src/Coordinator.antt =====
-- distributed-prover/src/coordinator.rs: how the coordinator sorts the traces, and evaluates them
-- into the leaves of the execution tree. A panic is `none`.
pub mod Sort
pub mod Leaves
pub mod Responses
pub mod Stages
pub mod Worker
pub mod Chain
pub mod Replay
pub mod Honest
pub mod Requests
pub mod PublicInputs
pub mod Accept
pub mod Ordered
pub mod LeafAt
pub mod Filling
pub mod BuiltAt
pub mod Complete
mod Tests
mod StageTests
use hekaton_system.Prelude.{
  ℕ, Bool, Option, none, some, List, [], ◌∷◌, flatten, map, if◌then◌else◌, leb, ltb, ◌==◌, length,
  take, drop,
}
use hekaton_system.Field.{PrimeField}
use hekaton_system.Transcript.{MemType, TranscriptEntry, RunningEvaluation, addr, timestamp}
use hekaton_system.Transcript.Evaluation.{update_time_ordered, update_addr_ordered}
use hekaton_system.EvalTree.{ExecTreeLeaf}

-- `slice::sort_by_key` of the standard library, which is stable.
module _ {ℓ} {A : Type ℓ} (le : A → A → Bool) where
  unfoldable pub insert_sorted : A → List A → List A
  insert_sorted x [] = x ∷ []
  insert_sorted x (y ∷ ys) = if le x y then x ∷ y ∷ ys else y ∷ insert_sorted x ys

  unfoldable pub sort_by : List A → List A
  unfolding insert_sorted
  sort_by [] = []
  sort_by (x ∷ xs) = insert_sorted x (sort_by xs)

module _ {ℓ} {A : Type ℓ} where
  -- Cuts the sorted trace into chunks of the sizes of the given lists.
  unfoldable pub chunk_back : List (List A) → List A → List (List A)
  chunk_back [] flat = []
  chunk_back (st ∷ sts) flat = take (length st) flat ∷ chunk_back sts (drop (length st) flat)

module _ {ℓ} {F : Type ℓ} where
  -- The order of the keys `entry.addr()` and `(entry.addr(), entry.timestamp())`.
  unfoldable pub rom_key_le : TranscriptEntry F → TranscriptEntry F → Bool
  rom_key_le a b = leb (addr a) (addr b)

  unfoldable pub ram_key_le : TranscriptEntry F → TranscriptEntry F → Bool
  ram_key_le a b =
      if addr a == addr b then leb (timestamp a) (timestamp b) else ltb (addr a) (addr b)

  -- The kind of the first entry chooses the key.
  unfoldable pub key_le : TranscriptEntry F → TranscriptEntry F → TranscriptEntry F → Bool
  unfolding rom_key_le ram_key_le
  key_le (TranscriptEntry.rom e) = rom_key_le
  key_le (TranscriptEntry.ram e) = ram_key_le

  -- The sorted flat trace; `flat_trace[0]` panics on an empty trace.
  unfoldable pub sort_flat : List (TranscriptEntry F) → Option (List (TranscriptEntry F))
  unfolding sort_by key_le
  sort_flat [] = none
  sort_flat (e ∷ es) = some (sort_by (key_le e) (e ∷ es))

  unfoldable pub sort_subtraces_by_addr :
      List (List (TranscriptEntry F)) → Option (List (List (TranscriptEntry F)))
  unfolding sort_flat chunk_back
  sort_subtraces_by_addr subtraces = elim (sort_flat (flatten subtraces)) [
    | none ↦ none
    | some flat ↦ some (chunk_back subtraces flat)
  ]

module _ {ℓ} {F : Type ℓ} ⦃f : PrimeField F⦄ where
  -- The inner loop of `generate_exec_tree`, over one zipped pair of subtraces.
  unfoldable pub eval_subtrace :
      RunningEvaluation F
      → TranscriptEntry F
      → List (TranscriptEntry F)
      → List (TranscriptEntry F)
      → Option (RunningEvaluation F × TranscriptEntry F)
  eval_subtrace evals last [] addr_st = some (evals, last)
  eval_subtrace evals last (t ∷ time_st) [] = some (evals, last)
  eval_subtrace evals last (t ∷ time_st) (a ∷ addr_st) = elim (update_time_ordered evals t) [
    | none ↦ none
    | some evals' ↦ elim (update_addr_ordered evals' a) [
      | none ↦ none
      | some evals'' ↦ eval_subtrace evals'' a time_st addr_st
    ]
  ]

  -- The outer loop of `generate_exec_tree`: a leaf for each pair of subtraces.
  unfoldable pub exec_tree_leaves :
      RunningEvaluation F
      → TranscriptEntry F
      → List (List (TranscriptEntry F))
      → List (List (TranscriptEntry F))
      → Option (List (ExecTreeLeaf F))
  unfolding eval_subtrace
  exec_tree_leaves evals last [] addr_sts = some []
  exec_tree_leaves evals last (t ∷ time_sts) [] = some []
  exec_tree_leaves evals last (t ∷ time_sts) (a ∷ addr_sts) = elim (eval_subtrace evals last t a) [
    | none ↦ none
    | some (evals', last') ↦ elim (exec_tree_leaves evals' last' time_sts addr_sts) [
      | none ↦ none
      | some leaves ↦ some (record { evals = evals'; last_subtrace_entry = last' } ∷ leaves)
    ]
  ]
