-- ===== src/Hyperv/Windows/Agreement.antt =====
-- Where the two engines of pkg/hyperv/engine.go agree, and what callers of the Windows engine may
-- rely on.
use crybaby.Base.{
  ℕ, suc, ◌*◌, ◌^◌, ◌<◌, ◌≡◌, refl, ◌∙◌, ap, ◌≢◌, sym, String, ℤ, pos, false, inl, inr, List, [],
  ◌∷◌, some, Option-cases, Bool-cases, All, arith, text_eq, ltb, if-cases,
}
use crybaby.Base.Assoc.{lookup}
use crybaby.Base.Int.{nonpositive}
use crybaby.Base.Result.{Result, ok, err, Result-cases}
use crybaby.Base.Spaces.{trim_space}
use crybaby.Base.Unicode.{Unicode}
use crybaby.Hyperv.Calls.{simulated, told}
use crybaby.Hyperv.Engine.{Clock, Returns}
use crybaby.Hyperv.Simulated.{gib, SimulatedEngine, Error, cpu_too_small, memory_too_small, message}
use crybaby.Hyperv.Simulated.Machines
use crybaby.Hyperv.Windows.{Host, command, PsSnap}
use crybaby.Hyperv.Windows.Machines.{is_blank, bracketed, resize_vm, create_vm, created_vm}
use crybaby.Hyperv.Windows.Checkpoints.{
  read_switches, list_virtual_switches, or_default, default_switches, list_checkpoints,
  read_checkpoints, listed_checkpoints,
}
use crybaby.Hyperv.Windows.Scripts.{resize_script, switches_script, checkpoints_script}
use crybaby.Types.Node.{Time}
use crybaby.Types.Vm.{VirtualMachine, CreateVmRequest, VmCheckpoint}

or_default_filled : (l : List String) → or_default l ≢ []
or_default_filled [] e = absurd (ground (arith, e))
or_default_filled (x ∷ xs) e = absurd (ground (arith, e))

-- A machine of the sizes that a request asks for, with the defaults where it asks for 0.
abbrev pub IsAsked : CreateVmRequest → VirtualMachine → Type 0
IsAsked req vm =
    (vm.name ≡ req.name)
    × (vm.cpu_count ≢ pos 0)
    × (vm.memory_mb ≢ 0)
    × (req.cpu_count ≡ pos 0 → vm.cpu_count ≡ pos 2)
    × (req.memory_mb ≡ 0 → vm.memory_mb ≡ 2048)
    × (req.cpu_count ≢ pos 0 → vm.cpu_count ≡ req.cpu_count)
    × (req.memory_mb ≢ 0 → vm.memory_mb ≡ req.memory_mb)
    × (req.disk_size_gb ≡ 0 → vm.disk_size_bytes ≡ 32 * gib)
    × (0 < req.disk_size_gb
        → req.disk_size_gb < 2 ^ 34
        → vm.disk_size_bytes ≡ req.disk_size_gb * gib)

module _ {S : Type 0} (h : Host S) where
  read_switches_filled : (out : String) → read_switches h out ≢ []
  unfolding read_switches
  read_switches_filled out e = ground (arith, e, or_default_filled (h.decode_names out))

  -- The list of switches is told for every failure of the shell and everything it may print, and
  -- always has a switch.
  pub list_virtual_switches_filled :
      (s : S) → (l : List String) × ((list_virtual_switches h s).1 ≡ ok l) × (l ≢ [])
  unfolding list_virtual_switches
  list_virtual_switches_filled s = elim (Option-cases (h.execute s switches_script).2) [
    | inl fine ↦ (
      read_switches h (trim_space (h.execute s switches_script).1),
      ground (arith, fine),
      read_switches_filled (trim_space (h.execute s switches_script).1),
    )
    | inr (m, broken) ↦ (default_switches, ground (arith, broken), or_default_filled [])
  ]

  -- A refusal of the simulated engine that the other engine's result is like.
  refused-agree :
      {e' : SimulatedEngine} {s : S} {fault : Error} {next : Returns S (Unit {0})}
      {r : SimulatedEngine × Result Error (Unit {0})} (w : Returns S (Unit {0}))
      → r ≡ (e', err fault)
      → w ≡ (s, err (message fault))
      → ((m : String) → told r.1 ≡ err m → w ≡ (s, err m)) × (told r.1 ≡ ok tt → w ≡ next)
  refused-agree {s = s} {fault = fault} w known like = (
    (λ m bad.
        let same : message fault ≡ m = ground (arith, ap (λ x. told x.1) (sym known) ∙ bad) in
        like ∙ ap (λ x. (s, err x)) same),
    (λ good. absurd (ground (arith, ap (λ x. told x.1) (sym known) ∙ good))),
  )

  -- On a machine that the simulated engine has, the two engines refuse the same sizes, with the
  -- same text. A size that is not refused is one script on Windows.
  pub resize_vm_agree :
      (u : Unicode) (e : SimulatedEngine) (s : S) (id : String) (v : VirtualMachine) (cpu : ℤ)
      (mem : ℕ)
      → lookup id e.vms ≡ some v
      → let r = (simulated u).resize_vm e id cpu mem in
        ((m : String) → r.1 ≡ err m → resize_vm h s id cpu mem ≡ (s, err m))
        × (r.1 ≡ ok tt
            → resize_vm h s id cpu mem
              ≡ command h "failed to resize VM" s (resize_script id cpu mem))
  unfolding resize_vm Machines.resize_vm message
  resize_vm_agree u e s id v cpu mem found = elim (Bool-cases (nonpositive cpu)) [
    | inl low ↦
        let known : Machines.resize_vm e id cpu mem ≡ (e, err cpu_too_small) =
          ground (arith, found, low) in
        refused-agree (resize_vm h s id cpu mem) known (rw (resize_vm, low) refl)
    | inr enough ↦ elim (Bool-cases (ltb mem 512)) [
      | inl low ↦
          let known : Machines.resize_vm e id cpu mem ≡ (e, err memory_too_small) =
            ground (arith, found, enough, low) in
          refused-agree (resize_vm h s id cpu mem) known (rw (resize_vm, enough, low) refl)
      | inr large ↦
          let known : (Machines.resize_vm e id cpu mem).1 ≡ ok tt =
            ground (arith, found, enough, large) in
          (
            (λ m bad. absurd (ground (arith, ap told (sym known) ∙ bad))),
            (λ good. rw (resize_vm, enough, large) refl),
          )
    ]
  ]

  -- A request with an empty name is carried out by the simulated engine, if no machine has that
  -- name yet, and refused by the Windows engine.
  pub create_vm_unnamed :
      (u : Unicode) (node_id : String) (c : Clock) (e : SimulatedEngine) (s : S)
      (req : CreateVmRequest)
      → req.name ≡ ""
      → Machines.is_taken u "" e.vms ≡ false
      → ((simulated u).create_vm c e req).1 ≡ ok (Machines.created_vm c e req)
        × (create_vm h node_id c s req ≡ (s, err "VM name cannot be empty"))
  unfolding create_vm Machines.create_vm
  create_vm_unnamed u node_id c e s req unnamed free =
      (ground (arith, unnamed, free), ground (arith, unnamed))

  listed_checkpoints_of :
      (vm_id : String) (clock : ℕ → Time) (i : ℕ) (raw : List PsSnap)
      → All (λ cp. cp.vm_id ≡ vm_id) (listed_checkpoints vm_id clock i raw)
  unfolding listed_checkpoints
  listed_checkpoints_of vm_id clock i [] = tt
  listed_checkpoints_of vm_id clock i (item ∷ items) =
      (refl, listed_checkpoints_of vm_id clock (suc i) items)

  read_checkpoints_of :
      (s : S) (vm_id out : String) → All (λ cp. cp.vm_id ≡ vm_id) (read_checkpoints h s vm_id out)
  unfolding read_checkpoints
  read_checkpoints_of s vm_id out =
      if-cases (All (λ cp. cp.vm_id ≡ vm_id)) (is_blank out) [] _ (λ _. tt)
        (λ _. elim (Result-cases (h.decode_snapshots (bracketed out))) [
          | inl (raw, decoded) ↦ rw decoded (listed_checkpoints_of vm_id (h.clock s) 0 raw)
          | inr (m, undecoded) ↦ rw undecoded tt
        ])

  -- Listing the checkpoints of a machine never fails: each of them is the machine's, and where the
  -- shell reports an error there is none.
  pub list_checkpoints_lem :
      (s : S) (vm_id : String)
      → (l : List VmCheckpoint) × ((list_checkpoints h s vm_id).1 ≡ ok l)
        × All (λ cp. cp.vm_id ≡ vm_id) l
        × ((m : String) → (h.execute s (checkpoints_script vm_id)).2 ≡ some m → l ≡ [])
  unfolding list_checkpoints
  list_checkpoints_lem s vm_id = elim (Option-cases (h.execute s (checkpoints_script vm_id)).2) [
    | inl fine ↦ (
      read_checkpoints h (h.execute s (checkpoints_script vm_id)).0 vm_id
          (trim_space (h.execute s (checkpoints_script vm_id)).1),
      ground (arith, fine),
      read_checkpoints_of _ vm_id _,
      (λ m bad. absurd (ground (arith, fine, bad))),
    )
    | inr (m, broken) ↦ ([], ground (arith, broken), tt, (λ _ _. refl))
  ]
