-- ===== src/Coordinator/Tests.antt =====
-- A ROM trace of two subcircuits, whose second one reads the first one's wire.
use mathlib.Core.List.{Perm, Permᴰ, Memᴰ}
use mathlib.Core.List.Perm
use hekaton_system.Prelude.{
  ℕ, ◌+◌, ◌≡◌, refl, sym, ◌∙◌, arith, some, List, [], ◌∷◌, map, flatten, length,
}
use hekaton_system.Field.Tests.{numbers}
use hekaton_system.Transcript.{
  TranscriptEntry, RunningEvaluation, time_ordered_eval, addr_ordered_eval,
}
use hekaton_system.EvalTree.{ExecTreeLeaf}
use hekaton_system.Coordinator.{sort_subtraces_by_addr, exec_tree_leaves}
use hekaton_system.Coordinator.Sort.{IsKeySorted, sort_subtraces_by_addr_lem}
use hekaton_system.Coordinator.Responses.{
  Stage0Response, OneEach, collect_commitments, collect_commitments-InOrder,
}
use hekaton_system.Coordinator.Leaves.{last_evals, exec_tree_leaves-balanced}

abbrev entry : ℕ → ℕ → TranscriptEntry ℕ
entry addr val = TranscriptEntry.rom (record { addr = addr; val = val })

abbrev trace : List (List (TranscriptEntry ℕ))
trace = (entry 2 7 ∷ []) ∷ (entry 1 8 ∷ entry 2 7 ∷ []) ∷ []

abbrev sorted : List (List (TranscriptEntry ℕ))
sorted = (entry 1 8 ∷ []) ∷ (entry 2 7 ∷ entry 2 7 ∷ []) ∷ []

sort_subtraces_by_addr_example :
    (out : List (List (TranscriptEntry ℕ))) × (sort_subtraces_by_addr trace ≡ some out)
    × (map length out ≡ map length trace)
    × Perm (flatten out) (flatten trace)
    × IsKeySorted (entry 2 7) (flatten out)
sort_subtraces_by_addr_example =
    sort_subtraces_by_addr_lem trace (entry 2 7) (entry 1 8 ∷ entry 2 7 ∷ [])
      (unfold flatten in refl)

abbrev evals : RunningEvaluation ℕ
evals =
    RunningEvaluation.rom
      (record { time_ordered_eval = 1; addr_ordered_eval = 1; challenges = some (5, 70) })

trace-Perm-sorted : Perm (flatten trace) (flatten sorted)
unfolding flatten
trace-Perm-sorted = Perm.swap (entry 1 8) (entry 2 7) (entry 2 7 ∷ [])

exec_tree_leaves-balanced_example :
    (leaves : List (ExecTreeLeaf ℕ)) × (exec_tree_leaves evals (entry 0 0) trace sorted
      ≡ some leaves)
    × (length leaves ≡ 2)
    × (time_ordered_eval (last_evals evals leaves) ≡ addr_ordered_eval (last_evals evals leaves))
unfolding time_ordered_eval addr_ordered_eval
exec_tree_leaves-balanced_example =
    exec_tree_leaves-balanced evals (entry 0 0) trace sorted refl refl
      ((refl, tt), ((refl, (refl, tt)), tt)) ((refl, tt), ((refl, (refl, tt)), tt))
      trace-Perm-sorted

-- Two workers whose responses arrive in the wrong order.
abbrev response : ℕ → Stage0Response ℕ ℕ
response idx = record { subcircuit_idx = idx; commitment = idx + 7; com_seed = 3 }

abbrev arrived : List (Stage0Response ℕ ℕ)
arrived = response 1 ∷ response 0 ∷ []

arrived-OneEach : OneEach (λ (r : Stage0Response ℕ ℕ). r.subcircuit_idx) arrived
arrived-OneEach x y (Memᴰ.head e) (Memᴰ.head e') k = e ∙ sym e'
arrived-OneEach x y (Memᴰ.head e) (Memᴰ.tail (Memᴰ.head e')) k = absurd (grind arith)
arrived-OneEach x y (Memᴰ.head e) (Memᴰ.tail (Memᴰ.tail m)) k = elim m [ ]
arrived-OneEach x y (Memᴰ.tail (Memᴰ.head e)) (Memᴰ.head e') k = absurd (grind arith)
arrived-OneEach x y (Memᴰ.tail (Memᴰ.head e)) (Memᴰ.tail (Memᴰ.head e')) k = e ∙ sym e'
arrived-OneEach x y (Memᴰ.tail (Memᴰ.head e)) (Memᴰ.tail (Memᴰ.tail m)) k = elim m [ ]
arrived-OneEach x y (Memᴰ.tail (Memᴰ.tail m)) n k = elim m [ ]

collect_commitments-InOrder_example : collect_commitments arrived ≡ (7 ∷ 8 ∷ [], 3 ∷ 3 ∷ [])
collect_commitments-InOrder_example =
    collect_commitments-InOrder arrived (response 0 ∷ response 1 ∷ []) (Permᴰ.swap refl refl)
      arrived-OneEach ((refl, tt), (tt, tt))
