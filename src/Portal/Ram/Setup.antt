-- ===== src/Portal/Ram/Setup.antt =====
-- What the coordinator's RAM manager records of a write and of the read after it.
use hekaton_system.Prelude.{
  ℕ, ◌+◌, ◌%◌, ◌^◌, ◌<◌, ◌≡◌, refl, sym, ap, ◌∙◌, Bool, true, false, some, Option-cases, inl, inr,
  List, [], ◌∷◌, ◌++◌, flatten, append_assoc, length, arith,
}
use hekaton_system.Prelude.Assoc.{lookup, insert, lookup-insert_self}
use hekaton_system.Uint32.{Unsigned32, increment_inplace}
use hekaton_system.Transcript.{RamTranscriptEntry}
use hekaton_system.Portal.{push_last}
use hekaton_system.Portal.Push.{push_last-some}
use hekaton_system.Portal.Ram.{
  AddressManager, name_to_addr, SetupRamPortalManager, log, setup_get, setup_set,
}

-- A name that was given an address keeps it.
module _ {ℓ} {K : Type ℓ} (eq : Discrete K) where
  name_to_addr-again :
      (name : K) (m : AddressManager K)
      → name_to_addr eq name (name_to_addr eq name m).1 ≡ name_to_addr eq name m
  unfolding name_to_addr
  name_to_addr-again name m = elim (Option-cases (lookup eq name m.addresses)) [
    | inr (a, h) ↦
        let known : name_to_addr eq name m ≡ (a, m) = rw (h, name_to_addr) refl in
        ap (λ (x : ℕ × AddressManager K). name_to_addr eq name x.1) known
    | inl h ↦
        let named : AddressManager K = record {
          addresses = insert eq name m.current_address m.addresses;
          current_address = (m.current_address + 1) % 2 ^ 64;
        } in
        let fresh : name_to_addr eq name m ≡ (m.current_address, named) =
          rw (h, name_to_addr) refl in
        ap (λ (x : ℕ × AddressManager K). name_to_addr eq name x.1) fresh
        ∙ rw (lookup-insert_self eq name m.current_address m.addresses, name_to_addr) refl
        ∙ sym fresh
  ]

abbrev pub entry_at {ℓ} : {F : Type ℓ} → ℕ → F → Unsigned32 → Bool → RamTranscriptEntry F
entry_at addr val i read = record { addr = addr; val = val; i = i; read = read }

module _ {ℓ κ} {K : Type ℓ} {F : Type κ} (eq : Discrete K) where
  -- What logging does to a manager with a subtrace open.
  pub record Logs (name : K) (val : F) (read : Bool) (pm : SetupRamPortalManager K F)
      : Type (ℓ ⊔ κ) where
    pub out : SetupRamPortalManager K F
    pub returns : log eq name val read pm ≡ some out
    pub appends :
        flatten out.subtraces
        ≡ flatten pm.subtraces
          ++ (entry_at (name_to_addr eq name pm.address).0 val pm.time_index read ∷ [])
    pub stays_open : 0 < length out.subtraces
    pub count : length out.subtraces ≡ length pm.subtraces
    pub names : out.address ≡ (name_to_addr eq name pm.address).1
    pub ticks : out.time_index ≡ increment_inplace pm.time_index
    pub keeps : out.var_map ≡ pm.var_map

  pushes :
      (sts : List (List (RamTranscriptEntry F))) (e : RamTranscriptEntry F)
      → 0 < length sts
      → (out : List (List (RamTranscriptEntry F))) × (push_last sts e ≡ some out)
        × (flatten out ≡ flatten sts ++ (e ∷ []))
        × (length out ≡ length sts)
  pushes [] e b = absurd (omega arith)
  pushes (st ∷ sts) e b = let (out, p, q, n) = push_last-some st sts e in (out, p, q, n)

  pub log-Logs :
      (name : K) (val : F) (read : Bool) (pm : SetupRamPortalManager K F)
      → 0 < length pm.subtraces
      → Logs name val read pm
  unfolding log
  log-Logs name val read pm b =
      let addr = (name_to_addr eq name pm.address).0 in
      let (sts, p, q, n) = pushes pm.subtraces (entry_at addr val pm.time_index read) b in
      record {
        out = record pm {
          subtraces = sts;
          address = (name_to_addr eq name pm.address).1;
          time_index = increment_inplace pm.time_index;
        };
        returns = rw (p, log) refl;
        appends = q;
        stays_open = omega (arith, n);
        count = n;
        names = refl;
        ticks = refl;
        keeps = refl;
      }

  -- With a subtrace open, writing a name and then reading it does not panic, returns the value that
  -- was written, and adds two entries to the end of the trace: the write at the present time, and
  -- the read of the same address and value at the next time.
  pub setup_set-setup_get :
      (name : K) (val : F) (pm : SetupRamPortalManager K F)
      → 0 < length pm.subtraces
      → (pm1 : SetupRamPortalManager K F) × (pm2 : SetupRamPortalManager K F) × (setup_set eq name
            val pm
          ≡ some pm1)
        × (setup_get eq name pm1 ≡ some (val, pm2))
        × (flatten pm2.subtraces
            ≡ flatten pm.subtraces
              ++ (entry_at (name_to_addr eq name pm.address).0 val pm.time_index false
                  ∷ entry_at
                      (name_to_addr eq name pm.address).0
                      val
                      (increment_inplace pm.time_index)
                      true
                  ∷ []))
  unfolding setup_get setup_set
  setup_set-setup_get name val pm b =
      let pm0 : SetupRamPortalManager K F = record pm { var_map = insert eq name val pm.var_map } in
      let w = log-Logs name val false pm0 b in
      let r = log-Logs name val true w.out w.stays_open in
      let found : lookup eq name w.out.var_map ≡ some val =
        rw w.keeps (lookup-insert_self eq name val pm.var_map) in
      let same : (name_to_addr eq name w.out.address).0 ≡ (name_to_addr eq name pm.address).0 =
        rw w.names
          (ap (λ (x : ℕ × AddressManager K). x.0) (name_to_addr-again eq name pm.address)) in
      (
        w.out,
        r.out,
        w.returns,
        rw (found, setup_get) (rw (r.returns, setup_get) refl),
        r.appends
            ∙ rw (w.appends, same, w.ticks)
                (append_assoc (flatten pm.subtraces)
                  (entry_at (name_to_addr eq name pm.address).0 val pm.time_index false ∷ [])
                  (entry_at (name_to_addr eq name pm.address).0 val
                      (increment_inplace pm.time_index) true
                    ∷ [])),
      )
