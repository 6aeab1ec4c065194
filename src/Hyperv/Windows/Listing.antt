-- ===== src/Hyperv/Windows/Listing.antt =====
-- What the listings of `windowsEngine` return (pkg/hyperv/engine.go).
use crybaby.Base.{
  ℕ, suc, ◌≡◌, refl, ap, ◌≢◌, subst, String, Bool, true, false, ◌||◌, ◌⊎◌, inl, inr, List, [], ◌∷◌,
  ◌++◌, map, none, some, Option-cases, Bool-cases, All, arith, ◌==◌, text_eq, ==_differ,
}
use crybaby.Base.Result.{ok, err, Result-cases}
use crybaby.Base.Spaces.{trim_space, has_prefix}
use crybaby.Base.Strings.{split}
use crybaby.Base.Unicode.{Unicode, equal_fold}
use crybaby.Hyperv.Windows.{Host, PsVm}
use crybaby.Hyperv.Windows.Machines.{
  is_blank, bracketed, usable, addresses, listed_vm, listed, first_named, read_vms, list_vms,
  get_vm,
}
use crybaby.Hyperv.Windows.Scripts.Creation.{list_script}
use crybaby.Types.Node.{Time}
use crybaby.Types.Vm.{VirtualMachine}

-- An address that is told: neither empty nor one that begins with `fe80:`, in small letters.
abbrev pub IsTold : String → Type 0
IsTold ip = (ip ≢ "") × (has_prefix ip "fe80:" ≡ false)

abbrev pub AllTold : VirtualMachine → Type 0
AllTold vm = All IsTold vm.ip_addresses

usable-IsTold : (ips : List String) → All IsTold (usable ips)
unfolding usable
usable-IsTold [] = tt
usable-IsTold (ip ∷ ips) =
    let rest = usable-IsTold ips in
    elim (Bool-cases (trim_space ip == "")) [
      | inl empty ↦ ground (arith, rest)
      | inr full ↦ elim (Bool-cases (has_prefix (trim_space ip) "fe80:")) [
        | inl local ↦ ground (arith, rest)
        | inr global ↦ rw (full, global) ((==_differ (trim_space ip) "" full, global), rest)
      ]
    ]

addresses-IsTold : (text : String) → All IsTold (addresses text)
unfolding addresses
addresses-IsTold text = ground (arith, usable-IsTold ((split b',' text).0 ∷ (split b',' text).1))

-- The identifier and the name of a machine, as they are told and as PowerShell printed them.
abbrev pub label : VirtualMachine → String × String
label vm = (vm.id, vm.name)

abbrev pub printed_label : PsVm → String × String
printed_label item = (item.id, item.name)

-- The list that is told for what was printed: the same machines in the same order, each of the
-- engine's node and with no other addresses.
abbrev pub IsListing : String → List PsVm → List VirtualMachine → Type 0
IsListing node_id raw vms =
    (map label vms ≡ map printed_label raw) × All AllTold vms × All (λ vm. vm.node_id ≡ node_id) vms

listed-IsListing :
    (node_id : String) (clock : ℕ → Time) (i : ℕ) (raw : List PsVm)
    → IsListing node_id raw (listed node_id clock i raw)
unfolding listed listed_vm
listed-IsListing node_id clock i [] = (refl, tt, tt)
listed-IsListing node_id clock i (item ∷ items) =
    let rest = listed-IsListing node_id clock (suc i) items in
    (
      ap (λ l. printed_label item ∷ l) rest.0,
      (addresses-IsTold item.ip_addresses, rest.1),
      (refl, rest.2),
    )

-- A machine that answers to a name or an identifier.
abbrev pub answers : Unicode → String → VirtualMachine → Bool
answers u name_or_id vm = vm.id == name_or_id || equal_fold u vm.name name_or_id

-- The first machine of a list that answers.
abbrev pub IsFirst : Unicode → String → List VirtualMachine → VirtualMachine → Type 0
IsFirst u name_or_id vms vm =
    (before : List VirtualMachine) × (behind : List VirtualMachine) × (vms ≡ before ++ vm ∷ behind)
    × (answers u name_or_id vm ≡ true)
    × All (λ v. answers u name_or_id v ≡ false) before

first_named-IsFirst :
    (u : Unicode) (name_or_id : String) (vms : List VirtualMachine) (vm : VirtualMachine)
    → first_named u name_or_id vms ≡ some vm
    → IsFirst u name_or_id vms vm
unfolding first_named
first_named-IsFirst u name_or_id [] vm e = absurd (ground (arith, e))
first_named-IsFirst u name_or_id (v ∷ vms) vm e = elim (Bool-cases (answers u name_or_id v)) [
  | inl hit ↦
      let same : v ≡ vm = ground (arith, e, hit) in
      subst (IsFirst u name_or_id (v ∷ vms)) same ([], vms, refl, hit, tt)
  | inr miss ↦
      let (before, behind, whole, found, others) =
        first_named-IsFirst u name_or_id vms vm (ground (arith, e, miss)) in
      (v ∷ before, behind, ap (λ l. v ∷ l) whole, found, (miss, others))
]

none_named :
    (u : Unicode) (name_or_id : String) (vms : List VirtualMachine)
    → first_named u name_or_id vms ≡ none
    → All (λ v. answers u name_or_id v ≡ false) vms
unfolding first_named
none_named u name_or_id [] e = tt
none_named u name_or_id (v ∷ vms) e = elim (Bool-cases (answers u name_or_id v)) [
  | inl hit ↦ absurd (ground (arith, e, hit))
  | inr miss ↦ (miss, none_named u name_or_id vms (ground (arith, e, miss)))
]

module _ {S : Type 0} (h : Host S) (node_id : String) where
  -- What the shell printed for the listing, as the decoder reads it.
  abbrev pub Printed : String → List PsVm → Type 0
  Printed out raw =
      ((is_blank out ≡ true) × (raw ≡ [])) ⊎ (h.decode_machines (bracketed out) ≡ ok raw)

  read_vms-IsListing :
      (s : S) (out : String) (vms : List VirtualMachine)
      → read_vms h node_id s out ≡ ok vms
      → (raw : List PsVm) × Printed out raw × IsListing node_id raw vms
  unfolding read_vms
  read_vms-IsListing s out vms e = elim (Bool-cases (is_blank out)) [
    | inl blank ↦
        let same : [] ≡ vms = ground (arith, e, blank) in
        subst (λ l. (raw : List PsVm) × Printed out raw × IsListing node_id raw l) same
          ([], inl (blank, refl), (refl, tt, tt))
    | inr full ↦ elim (Result-cases (h.decode_machines (bracketed out))) [
      | inl (raw, decoded) ↦
          let same : listed node_id (h.clock s) 0 raw ≡ vms = ground (arith, e, full, decoded) in
          subst (λ l. (raw : List PsVm) × Printed out raw × IsListing node_id raw l) same
            (raw, inr decoded, listed-IsListing node_id (h.clock s) 0 raw)
      | inr (m, undecoded) ↦ absurd (ground (arith, e, full, undecoded))
    ]
  ]

  -- A listing that succeeds comes from one script that the shell reported no error of. It tells the
  -- machines that were printed, in their order and by their identifiers and names, all of the
  -- engine's node, and no address that is empty or begins with the text `fe80:`.
  pub list_vms-IsListing :
      (s : S) (vms : List VirtualMachine)
      → (list_vms h node_id s).1 ≡ ok vms
      → let t = h.execute s list_script in
        (t.2 ≡ none)
        × ((raw : List PsVm) × Printed (trim_space t.1) raw × IsListing node_id raw vms)
  unfolding list_vms
  list_vms-IsListing s vms e = elim (Option-cases (h.execute s list_script).2) [
    | inl fine ↦ (
      fine,
      read_vms-IsListing (h.execute s list_script).0 (trim_space (h.execute s list_script).1) vms
          (ground (arith, e, fine)),
    )
    | inr (m, broken) ↦ absurd (ground (arith, e, broken))
  ]

  -- Getting a machine fails as the listing fails. Where the listing succeeds, it returns the first
  -- machine whose identifier is the text asked for, or whose name is up to case; it is an error
  -- only if no machine answers.
  pub get_vm_lem :
      (u : Unicode) (s : S) (name_or_id : String)
      → let r = get_vm h node_id u s name_or_id in
        let all = list_vms h node_id s in
        (r.0 ≡ all.0)
        × ((m : String) → all.1 ≡ err m → r.1 ≡ err m)
        × ((vms : List VirtualMachine) (vm : VirtualMachine)
            → all.1 ≡ ok vms
            → r.1 ≡ ok vm
            → IsFirst u name_or_id vms vm)
        × ((vms : List VirtualMachine) (m : String)
            → all.1 ≡ ok vms
            → r.1 ≡ err m
            → All (λ v. answers u name_or_id v ≡ false) vms)
  unfolding get_vm
  get_vm_lem u s name_or_id = (
    ground arith,
    (λ m e. ground (arith, e)),
    (λ vms vm all one.
        first_named-IsFirst u name_or_id vms vm
          (elim (Option-cases (first_named u name_or_id vms)) [
            | inl missing ↦ absurd (ground (arith, all, one, missing))
            | inr (v, found) ↦ ground (arith, all, one, found)
          ])),
    (λ vms m all bad.
        none_named u name_or_id vms (elim (Option-cases (first_named u name_or_id vms)) [
          | inl missing ↦ missing
          | inr (v, found) ↦ absurd (ground (arith, all, bad, found))
        ])),
  )
