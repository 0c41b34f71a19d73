-- ===== src/Portal/Rom/Trace/Preserve.antt =====
-- One request to the coordinator's ROM manager, and the invariant of its state.
use hekaton_system.Prelude.{
  ◌+◌, ◌%◌, ◌^◌, ◌<◌, ◌≡◌, refl, sym, ap, ◌∙◌, ◌⊎◌, none, some, Option-cases, inl, inr, List, [],
  ◌∷◌, arith, All, All-append, All-imp, flatten, subst,
}
use hekaton_system.Prelude.Assoc.{lookup, insert, lookup-insert_self, lookup-insert_ne}
use hekaton_system.Transcript.{RomTranscriptEntry}
use hekaton_system.Portal.{push_last}
use hekaton_system.Portal.Push.{flatten-push_last, flatten-open}
use hekaton_system.Portal.Rom.{SetupRomPortalManager, log, setup_get, setup_set, start_subtrace}
use hekaton_system.Portal.Rom.Trace.{Known, IsConsistent}

module _ {ℓ κ} {K : Type ℓ} {F : Type κ} (eq : Discrete K) where
  log-known :
      (pm : SetupRomPortalManager K F) (e : RomTranscriptEntry F) {pm' : SetupRomPortalManager K F}
      → All (Known eq pm.var_map) (flatten pm.subtraces)
      → Known eq pm.var_map e
      → log pm e ≡ some pm'
      → (pm'.var_map ≡ pm.var_map)
        × (pm'.next_var_addr ≡ pm.next_var_addr)
        × All (Known eq pm'.var_map) (flatten pm'.subtraces)
  unfolding log
  log-known pm e {pm'} a k h = elim (Option-cases (push_last pm.subtraces e)) [
    | inl n ↦ ground arith
    | inr (sts, p) ↦
        let v : pm'.var_map ≡ pm.var_map = ground arith in
        let s : pm'.subtraces ≡ sts = ground arith in
        (
          v,
          ground arith,
          rw (v, s, flatten-push_last pm.subtraces e p)
              (All-append (Known eq pm.var_map) (flatten pm.subtraces) (e ∷ []) a (k, tt)),
        )
  ]

  pub start-IsConsistent :
      (pm : SetupRomPortalManager K F) → IsConsistent eq pm → IsConsistent eq (start_subtrace pm)
  unfolding start_subtrace
  start-IsConsistent pm c = record {
    logged = rw (flatten-open pm.subtraces) c.logged;
    fresh = c.fresh;
    distinct = c.distinct;
    positive = c.positive;
  }

  pub get-IsConsistent :
      (name : K) (pm : SetupRomPortalManager K F) {v : F} {pm' : SetupRomPortalManager K F}
      → IsConsistent eq pm
      → setup_get eq name pm ≡ some (v, pm')
      → IsConsistent eq pm' × (pm'.next_var_addr ≡ pm.next_var_addr)
  unfolding setup_get
  get-IsConsistent name pm {v} {pm'} c h = elim (Option-cases (lookup eq name pm.var_map)) [
    | inl n ↦ ground arith
    | inr (e, k) ↦ elim (Option-cases (log pm e)) [
      | inl n ↦ ground arith
      | inr (pm1, l) ↦
          let same : pm1 ≡ pm' = ground arith in
          let (m, n, a) = log-known pm e {pm' = pm'} c.logged (name, k) (l ∙ ap some same) in
          (
            record {
              logged = a;
              fresh = rw (m, n) c.fresh;
              distinct = rw m c.distinct;
              positive = rw n c.positive;
            },
            n,
          )
    ]
  ]

  module _ (name : K) (entry : RomTranscriptEntry F) where
    -- A binding after the insertion is the new one, or was there before.
    insert-cases :
        (m : List (K × RomTranscriptEntry F)) (k : K) (e : RomTranscriptEntry F)
        → lookup eq k (insert eq name entry m) ≡ some e
        → ((name ≡ k) × (entry ≡ e)) ⊎ (lookup eq k m ≡ some e)
    insert-cases m k e h = elim (eq name k) [
      | yes p ↦
          let q : lookup eq name (insert eq name entry m) ≡ some e =
            subst (λ x. lookup eq x (insert eq name entry m) ≡ some e) (sym p) h in
          let r : some entry ≡ some e = sym (lookup-insert_self eq name entry m) ∙ q in
          inl (p, ground arith)
      | no p ↦ inr (sym (lookup-insert_ne eq name k entry m p) ∙ h)
    ]

    -- A binding from before stays, since the name had none.
    insert-Known :
        (m : List (K × RomTranscriptEntry F))
        → lookup eq name m ≡ none
        → (e : RomTranscriptEntry F) → Known eq m e
        → Known eq (insert eq name entry m) e
    insert-Known m n e (k, h) = elim (eq name k) [
      | yes p ↦
          let q : lookup eq name m ≡ some e = rw p h in
          let r : some e ≡ none = sym q ∙ n in ground arith
      | no p ↦ (k, lookup-insert_ne eq name k entry m p ∙ h)
    ]

    -- The entry that a new name brings in, before it is logged.
    abbrev with_entry : SetupRomPortalManager K F → SetupRomPortalManager K F
    with_entry pm = record pm {
      next_var_addr = (pm.next_var_addr + 1) % 2 ^ 64;
      var_map = insert eq name entry pm.var_map;
    }

    module _ (pm : SetupRomPortalManager K F) (c : IsConsistent eq pm)
        (b : pm.next_var_addr + 1 < 2 ^ 64) (a : entry.addr ≡ pm.next_var_addr) where
      with_entry-fresh :
          (k : K) (e : RomTranscriptEntry F)
          → lookup eq k (insert eq name entry pm.var_map) ≡ some e
          → (0 < e.addr) × (e.addr < (pm.next_var_addr + 1) % 2 ^ 64)
      with_entry-fresh k e h = elim (insert-cases pm.var_map k e h) [
        | inl (p, q) ↦
            let r : entry.addr ≡ e.addr = ap (λ (x : RomTranscriptEntry F). x.addr) q in
            (omega (arith, c.positive), omega arith)
        | inr q ↦ let (r, s) = c.fresh k e q in (r, omega arith)
      ]

      with_entry-distinct :
          (j k : K) (e e' : RomTranscriptEntry F)
          → lookup eq j (insert eq name entry pm.var_map) ≡ some e
          → lookup eq k (insert eq name entry pm.var_map) ≡ some e'
          → e.addr ≡ e'.addr
          → j ≡ k
      with_entry-distinct j k e e' h h' s = elim (insert-cases pm.var_map j e h) [
        | inl (p, q) ↦ elim (insert-cases pm.var_map k e' h') [
          | inl (p', q') ↦ sym p ∙ p'
          | inr q' ↦
              let r : entry.addr ≡ e.addr = ap (λ (x : RomTranscriptEntry F). x.addr) q in
              let (_, t) = c.fresh k e' q' in absurd (omega arith)
        ]
        | inr q ↦ elim (insert-cases pm.var_map k e' h') [
          | inl (p', q') ↦
              let r : entry.addr ≡ e'.addr = ap (λ (x : RomTranscriptEntry F). x.addr) q' in
              let (_, t) = c.fresh j e q in absurd (omega arith)
          | inr q' ↦ c.distinct j k e e' q q' s
        ]
      ]

  pub set-IsConsistent :
      (name : K) (v : F) (pm : SetupRomPortalManager K F) {pm' : SetupRomPortalManager K F}
      → IsConsistent eq pm
      → pm.next_var_addr + 1 < 2 ^ 64
      → setup_set eq name v pm ≡ some pm'
      → IsConsistent eq pm' × (pm'.next_var_addr ≡ pm.next_var_addr + 1)
  unfolding setup_set
  set-IsConsistent name v pm {pm'} c b h = elim (Option-cases (lookup eq name pm.var_map)) [
    | inr (e, k) ↦ ground arith
    | inl n ↦
        let entry : RomTranscriptEntry F = record { val = v; addr = pm.next_var_addr } in
        let l : log (with_entry name entry pm) entry ≡ some pm' = ground arith in
        let (m, nx, a) =
          log-known (with_entry name entry pm) entry {pm' = pm'}
            (All-imp (Known eq pm.var_map) (Known eq (insert eq name entry pm.var_map))
              (insert-Known name entry pm.var_map n) (flatten pm.subtraces) c.logged)
            (name, lookup-insert_self eq name entry pm.var_map) l in
        (
          record {
            logged = a;
            fresh = rw (m, nx) (with_entry-fresh name entry pm c b refl);
            distinct = rw m (with_entry-distinct name entry pm c b refl);
            positive = rw nx (omega arith);
          },
          rw nx (omega arith),
        )
  ]
