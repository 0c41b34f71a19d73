-- ===== src/Portal/Rom/Calls.antt =====
-- Single requests to the coordinator's ROM manager that do not panic, and what they leave.
use hekaton_system.Prelude.{
  ◌+◌, ◌%◌, ◌^◌, ◌<◌, ◌≡◌, refl, ◌∙◌, none, some, List, [], ◌∷◌, arith, length, Returns, returns,
  Returns-inv, ◌≢◌,
}
use hekaton_system.Prelude.Assoc.{lookup, insert, lookup-insert_self, lookup-insert_ne}
use hekaton_system.Transcript.{RomTranscriptEntry}
use hekaton_system.Portal.{push_last}
use hekaton_system.Portal.Push.{push_last-some}
use hekaton_system.Portal.Rom.{SetupRomPortalManager, log, setup_get, setup_set}

module _ {ℓ κ} {K : Type ℓ} {F : Type κ} (eq : Discrete K) where
  -- The name has been set to the value.
  pub record Holds (m : List (K × RomTranscriptEntry F)) (name : K) (v : F) : Type (ℓ ⊔ κ) where
    pub entry : RomTranscriptEntry F
    pub found : lookup eq name m ≡ some entry
    pub value : entry.val ≡ v

  -- The same names and as many subtraces.
  abbrev pub Keeps : SetupRomPortalManager K F → SetupRomPortalManager K F → Type (ℓ ⊔ κ)
  Keeps pm pm' = (pm'.var_map ≡ pm.var_map) × (length pm'.subtraces ≡ length pm.subtraces)

  push_last-length :
      (sts : List (List (RomTranscriptEntry F))) (e : RomTranscriptEntry F)
      → 0 < length sts
      → (out : List (List (RomTranscriptEntry F))) × (push_last sts e ≡ some out)
        × (length out ≡ length sts)
  push_last-length [] e h = absurd (omega arith)
  push_last-length (st ∷ sts) e h = let (out, p, q, n) = push_last-some st sts e in (out, p, n)

  log-Keeps :
      (pm : SetupRomPortalManager K F) (e : RomTranscriptEntry F)
      → 0 < length pm.subtraces
      → Returns (Keeps pm) (log pm e)
  unfolding log
  log-Keeps pm e h =
      let (out, p, n) = push_last-length pm.subtraces e h in rw (p, log) (returns (refl, n))

  -- With a subtrace open, reading a name that has been set returns its value.
  pub setup_get-Returns :
      (name : K) (v : F) (pm : SetupRomPortalManager K F)
      → 0 < length pm.subtraces
      → Holds pm.var_map name v
      → Returns
          (λ (r : F × SetupRomPortalManager K F). (r.0 ≡ v) × Keeps pm r.1)
          (setup_get eq name pm)
  unfolding setup_get
  setup_get-Returns name v pm h held =
      let (pm', p, k) = Returns-inv (log-Keeps pm held.entry h) in
      rw (held.found, setup_get) (rw (p, setup_get) (returns (held.value, k)))

  -- The name is set to the value, the other names are as they were.
  pub record Sets (name : K) (v : F) (pm pm' : SetupRomPortalManager K F) : Type (ℓ ⊔ κ) where
    pub entry : RomTranscriptEntry F
    pub value : entry.val ≡ v
    pub names : pm'.var_map ≡ insert eq name entry pm.var_map
    pub count : length pm'.subtraces ≡ length pm.subtraces

  -- With a subtrace open, a name that has not been set can be set.
  pub setup_set-Returns :
      (name : K) (v : F) (pm : SetupRomPortalManager K F)
      → 0 < length pm.subtraces
      → lookup eq name pm.var_map ≡ none
      → Returns (Sets name v pm) (setup_set eq name v pm)
  unfolding setup_set
  setup_set-Returns name v pm h free =
      let entry : RomTranscriptEntry F = record { val = v; addr = pm.next_var_addr } in
      let pm0 : SetupRomPortalManager K F = record pm {
        next_var_addr = (pm.next_var_addr + 1) % 2 ^ 64;
        var_map = insert eq name entry pm.var_map;
      } in
      let (pm', p, k) = Returns-inv (log-Keeps pm0 entry h) in
      rw (free, setup_set)
        (rw (p, setup_set)
          (returns (record { entry = entry; value = refl; names = k.0; count = k.1 })))

  pub Sets-Holds :
      (name : K) (v : F) (pm pm' : SetupRomPortalManager K F)
      → Sets name v pm pm'
      → Holds pm'.var_map name v
  Sets-Holds name v pm pm' s = record {
    entry = s.entry;
    found = rw s.names (lookup-insert_self eq name s.entry pm.var_map);
    value = s.value;
  }

  pub Sets-others :
      (name : K) (v : F) (pm pm' : SetupRomPortalManager K F) (other : K)
      → Sets name v pm pm'
      → name ≢ other
      → lookup eq other pm'.var_map ≡ lookup eq other pm.var_map
  Sets-others name v pm pm' other s ne =
      rw s.names (lookup-insert_ne eq name other s.entry pm.var_map ne)

  pub Holds-transfer :
      (m m' : List (K × RomTranscriptEntry F)) (name : K) (v : F)
      → lookup eq name m' ≡ lookup eq name m
      → Holds m name v
      → Holds m' name v
  Holds-transfer m m' name v e h = record { entry = h.entry; found = e ∙ h.found; value = h.value }
