-- ===== src/Vm/Requests.antt =====
-- The native run of the virtual machine: no request panics, and how long the trace is.
use native.Mathlib.Nat.{one-le-pow}
use hekaton_system.Prelude.{
  ℕ, zero, suc, ◌+◌, ◌-◌, ◌*◌, ◌^◌, ◌≤◌, ◌<◌, ◌≡◌, refl, sym, ap, ◌∙◌, some, List, [], ◌∷◌, map,
  arith, flatten, length, length-append, Returns, returns, Returns-bind, Returns-map, Returns-inv,
  ℕ_discrete, subst, false, ◌==◌,
}
use hekaton_system.Prelude.Assoc.{lookup, insert, lookup-insert_self, lookup-insert_ne}
use hekaton_system.Field.{PrimeField}
use hekaton_system.Transcript.{TranscriptEntry, RamTranscriptEntry}
use hekaton_system.Portal.Push.{flatten-open}
use hekaton_system.Portal.Ram.{start_subtrace, new_setup}
use hekaton_system.Portal.Ram.Calls.{Grows, setup_get-Returns, setup_set-Returns}
use hekaton_system.Vm.{
  Setup, setup, VirtualMachine, register_num, num_subcircuits, native_gets, native_sets,
  native_operations, native_subcircuit, native_subcircuits, get_portal_subtraces,
}

suc_mul : (n r : ℕ) → suc n * r ≡ r + n * r
suc_mul n r = omega arith

-- The number of requests of a subcircuit.
abbrev pub requests : ℕ → ℕ → ℕ
requests ops zero = 16 + 3 * ops
requests ops (suc idx) = 32 + 3 * ops

module _ {ℓ} {F : Type ℓ} ⦃f : PrimeField F⦄ where
  -- The first registers are one.
  abbrev Ones : ℕ → List (ℕ × F) → Type ℓ
  Ones n m = (i : ℕ) → i < n → lookup ℕ_discrete i m ≡ some f.one_elem

  Ones-insert : (n j : ℕ) (m : List (ℕ × F)) → Ones n m → Ones n (insert ℕ_discrete j f.one_elem m)
  Ones-insert n j m h i p = elim (ℕ_discrete j i) [
    | yes e ↦ rw (sym e) (lookup-insert_self ℕ_discrete j f.one_elem m)
    | no ne ↦ lookup-insert_ne ℕ_discrete j i f.one_elem m ne ∙ h i p
  ]

  Ones-next :
      (n : ℕ) (m : List (ℕ × F)) → Ones n m → Ones (n + 1) (insert ℕ_discrete n f.one_elem m)
  Ones-next n m h i p = elim (ℕ_discrete n i) [
    | yes e ↦ rw (sym e) (lookup-insert_self ℕ_discrete n f.one_elem m)
    | no ne ↦ lookup-insert_ne ℕ_discrete n i f.one_elem m ne ∙ h i (omega arith)
  ]

  -- After a number of requests, with registers up to a number set.
  abbrev Goes : ℕ → ℕ → Setup F → Setup F → Type ℓ
  Goes n ones pm pm' = Ones ones pm'.var_map × Grows ℕ_discrete n pm pm'

  set_one :
      (n j : ℕ) (pm : Setup F)
      → 0 < length pm.subtraces
      → Ones n pm.var_map
      → Returns (Goes 1 n pm) (setup.set j f.one_elem pm)
  set_one n j pm h ones =
      Returns-map (setup_set-Returns ℕ_discrete j f.one_elem pm h)
        λ pm' s. (subst (Ones n) (sym s.0) (Ones-insert n j pm.var_map ones), s.1)

  get_one :
      (n j : ℕ) (pm : Setup F)
      → 0 < length pm.subtraces
      → j < n
      → Ones n pm.var_map
      → Returns (λ (r : F × Setup F). (r.0 ≡ f.one_elem) × Goes 1 n pm r.1) (setup.get j pm)
  get_one n j pm h p ones =
      Returns-map (setup_get-Returns ℕ_discrete j f.one_elem pm h (ones j p))
        λ r s. (s.0, (subst (Ones n) (sym s.1) ones, s.2))

  native_gets-Goes :
      (n i : ℕ) (pm : Setup F)
      → i + n ≤ register_num
      → 0 < length pm.subtraces
      → Ones register_num pm.var_map
      → Returns (Goes n register_num pm) (native_gets i n pm)
  unfolding native_gets
  native_gets-Goes zero i pm h opened ones = returns (ones, (refl, omega arith))
  native_gets-Goes (suc n) i pm h opened ones =
      Returns-bind (get_one register_num i pm opened (omega arith) ones) λ r s.
        Returns-map (native_gets-Goes n (i + 1) r.1 (omega arith) (omega (arith, s.1.1.0)) s.1.0)
          λ pm' t. (t.0, (omega (arith, s.1.1.0, t.1.0), omega (arith, s.1.1.1, t.1.1)))

  native_sets-Goes :
      (n i : ℕ) (pm : Setup F)
      → i + n ≡ register_num
      → 0 < length pm.subtraces
      → Ones i pm.var_map
      → Returns (Goes n register_num pm) (native_sets i n pm)
  unfolding native_sets
  native_sets-Goes zero i pm h opened ones =
      let all : i ≡ register_num = omega arith in returns (rw all at ones, (refl, omega arith))
  native_sets-Goes (suc n) i pm h opened ones =
      Returns-bind (setup_set-Returns ℕ_discrete i f.one_elem pm opened) λ pm1 s.
        let next : Ones (i + 1) pm1.var_map =
          subst (Ones (i + 1)) (sym s.0) (Ones-next i pm.var_map ones) in
        Returns-map (native_sets-Goes n (i + 1) pm1 (omega arith) (omega (arith, s.1.0)) next)
          λ pm' t. (t.0, (omega (arith, s.1.0, t.1.0), omega (arith, s.1.1, t.1.1)))

  native_operations-Goes :
      (n : ℕ) (pm : Setup F)
      → 0 < length pm.subtraces
      → Ones register_num pm.var_map
      → Returns (Goes (3 * n) register_num pm) (native_operations n pm)
  unfolding native_operations
  native_operations-Goes zero pm opened ones = returns (ones, (refl, omega arith))
  native_operations-Goes (suc n) pm opened ones =
      Returns-bind (set_one register_num 1 pm opened ones) λ pm1 a.
        Returns-bind (get_one register_num 1 pm1 (omega (arith, a.1.0)) (omega arith) a.0) λ r b.
          Returns-bind
            (get_one register_num 1 r.1 (omega (arith, a.1.0, b.1.1.0)) (omega arith) b.1.0)
            λ r' c.
              Returns-map
                (native_operations-Goes n r'.1 (omega (arith, a.1.0, b.1.1.0, c.1.1.0)) c.1.0)
                λ pm' d. (
                  d.0,
                  (
                    omega (arith, a.1.0, b.1.1.0, c.1.1.0, d.1.0),
                    omega (arith, a.1.1, b.1.1.1, c.1.1.1, d.1.1),
                  ),
                )

  native_subcircuit-Goes :
      (vm : VirtualMachine F) (idx : ℕ) (pm : Setup F)
      → 0 < length pm.subtraces
      → (0 < idx → Ones register_num pm.var_map)
      → Returns
          (Goes (requests vm.params.operations_per_chunk idx) register_num pm)
          (native_subcircuit vm idx pm)
  unfolding native_subcircuit
  native_subcircuit-Goes vm zero pm opened ones =
      let ops = vm.params.operations_per_chunk in
      Returns-bind (native_sets-Goes register_num 0 pm refl opened (λ i p. absurd (omega arith)))
        λ pm1 a.
          Returns-map (native_operations-Goes ops pm1 (omega (arith, a.1.0)) a.0)
            λ pm2 b. (b.0, (omega (arith, a.1.0, b.1.0), omega (arith, a.1.1, b.1.1)))
  native_subcircuit-Goes vm (suc idx) pm opened ones =
      let ops = vm.params.operations_per_chunk in
      let later : (suc idx == 0) ≡ false = ground arith in
      rw (later, native_subcircuit)
        (Returns-bind (native_gets-Goes register_num 0 pm (omega arith) opened (ones (omega arith)))
          λ pm1 a. Returns-bind (native_operations-Goes ops pm1 (omega (arith, a.1.0)) a.0) λ pm2 b.
            Returns-map
              (native_sets-Goes register_num 0 pm2 refl (omega (arith, a.1.0, b.1.0))
                (λ i p. absurd (omega arith)))
              λ pm3 c.
                (c.0, (omega (arith, a.1.0, b.1.0, c.1.0), omega (arith, a.1.1, b.1.1, c.1.1))))

  Opened : Setup F → Setup F → Type ℓ
  Opened pm pm' =
      (pm'.var_map ≡ pm.var_map)
      × (length pm'.subtraces ≡ length pm.subtraces + 1)
      × (length (flatten pm'.subtraces) ≡ length (flatten pm.subtraces))

  start_subtrace-Opened : (pm : Setup F) → Opened pm (start_subtrace pm)
  unfolding start_subtrace Opened
  start_subtrace-Opened pm =
      (refl, length-append pm.subtraces ([] ∷ []), ap length (flatten-open pm.subtraces))

  native_subcircuits-later :
      (vm : VirtualMachine F) (n idx : ℕ) (pm : Setup F)
      → Ones register_num pm.var_map
      → Returns
          (λ (pm' : Setup F).
            (length pm'.subtraces ≡ length pm.subtraces + n)
            × (length (flatten pm'.subtraces)
                ≡ length (flatten pm.subtraces) + n * (32 + 3 * vm.params.operations_per_chunk)))
          (native_subcircuits vm (suc idx) n pm)
  unfolding native_subcircuits Opened
  native_subcircuits-later vm zero idx pm ones = returns (omega arith, omega arith)
  native_subcircuits-later vm (suc n) idx pm ones =
      let o = start_subtrace-Opened pm in
      let next : suc idx + 1 ≡ suc (suc idx) = omega arith in
      rw (next, native_subcircuits)
        (Returns-bind
          (native_subcircuit-Goes vm (suc idx) (start_subtrace pm) (omega (arith, o.1))
            (λ h. subst (Ones register_num) (sym o.0) ones))
          λ pm1 a. Returns-map (native_subcircuits-later vm n (suc idx) pm1 a.0) λ pm' b. (
            omega (arith, o.1, a.1.0, b.0),
            omega (arith, o.2, a.1.1, b.1, suc_mul n (32 + 3 * vm.params.operations_per_chunk)),
          ))

  native_subcircuits-all :
      (vm : VirtualMachine F) (n : ℕ)
      → Returns
          (λ (pm : Setup F).
            (length pm.subtraces ≡ suc n)
            × (length (flatten pm.subtraces) + 16
                ≡ suc n * (32 + 3 * vm.params.operations_per_chunk)))
          (native_subcircuits vm 0 (suc n) new_setup)
  unfolding native_subcircuits Opened
  native_subcircuits-all vm n =
      let o = start_subtrace-Opened new_setup in
      let one : 0 + 1 ≡ suc zero = omega arith in
      let none_yet : length (flatten {A = RamTranscriptEntry F} []) ≡ 0 = unfold flatten in refl in
      Returns-bind
        (native_subcircuit-Goes vm 0 (start_subtrace new_setup) (omega (arith, o.1))
          (λ h. absurd (omega arith)))
        λ pm1 a. rw one (
          Returns-map (native_subcircuits-later vm n 0 pm1 a.0) λ pm2 b. (
            omega (arith, o.1, a.1.0, b.0),
            omega (
              arith,
              o.2,
              a.1.1,
              b.1,
              none_yet,
              suc_mul n (32 + 3 * vm.params.operations_per_chunk),
            ),
          ))

  length-map_ram :
      (es : List (RamTranscriptEntry F)) → length (map TranscriptEntry.ram es) ≡ length es
  length-map_ram [] = refl
  length-map_ram (e ∷ es) = ap suc (length-map_ram es)

  length-map-map_ram :
      (sts : List (List (RamTranscriptEntry F)))
      → (length (map (map TranscriptEntry.ram) sts) ≡ length sts)
        × (length (flatten (map (map TranscriptEntry.ram) sts)) ≡ length (flatten sts))
  unfolding flatten
  length-map-map_ram [] = (refl, refl)
  length-map-map_ram (st ∷ sts) =
      let (p, q) = length-map-map_ram sts in
      (
        ap suc p,
        omega (
          arith,
          length-append (map TranscriptEntry.ram st) (flatten (map (map TranscriptEntry.ram) sts)),
          length-append st (flatten sts),
          length-map_ram st,
          q,
        ),
      )

  -- With `log_num_subcircuit` below 64, which the shift takes, there are 2^log_num_subcircuit
  -- subcircuits and `get_portal_subtraces` of the machine returns: no request panics. It records one
  -- subtrace for each subcircuit, with 32 entries for the registers and 3 for each operation in each
  -- subcircuit, but for the 16 reads that the first one does not make.
  pub get_portal_subtraces-length :
      (vm : VirtualMachine F)
      → vm.params.log_num_subcircuit < 64
      → (subtraces : List (List (TranscriptEntry F))) × (get_portal_subtraces vm ≡ some subtraces)
        × (num_subcircuits vm ≡ some (2 ^ vm.params.log_num_subcircuit))
        × (length subtraces ≡ 2 ^ vm.params.log_num_subcircuit)
        × (length (flatten subtraces) + 16
            ≡ 2 ^ vm.params.log_num_subcircuit * (32 + 3 * vm.params.operations_per_chunk))
  unfolding get_portal_subtraces num_subcircuits
  get_portal_subtraces-length vm small =
      let n = 2 ^ vm.params.log_num_subcircuit in
      let shifted : num_subcircuits vm ≡ some n = ground arith in
      let positive : n ≡ suc (n - 1) =
        omega (arith, one-le-pow vm.params.log_num_subcircuit 2 (omega arith)) in
      let (pm, ran, (count, total)) = Returns-inv (native_subcircuits-all vm (n - 1)) in
      let ran' : native_subcircuits vm 0 n new_setup ≡ some pm =
        ap (λ (m : ℕ). native_subcircuits vm 0 m new_setup) positive ∙ ran in
      let (p, q) = length-map-map_ram pm.subtraces in
      (
        map (map TranscriptEntry.ram) pm.subtraces,
        rw (get_portal_subtraces, shifted, ran') refl,
        shifted,
        p ∙ count ∙ sym positive,
        omega (
          arith,
          q,
          total,
          ap (λ (m : ℕ). m * (32 + 3 * vm.params.operations_per_chunk)) positive,
        ),
      )
