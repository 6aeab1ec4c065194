-- ===== src/Hyperv/Invariant.antt =====
-- What holds of the simulated engine between two operations, for pkg/hyperv/engine.go.
pub mod Updates
pub mod Machines
pub mod Checkpoints
pub mod Keeps
use crybaby.Base.{
  ℕ, zero, suc, ◌≡◌, refl, ap, sym, subst, String, ℤ, pos, Bool, true, false, ◌||◌, List, [], ◌∷◌,
  map, Option, none, some, ◌==◌, text_eq, ◌≢◌, ◌⊎◌, inl, inr, arith, All, Absent, Distinct,
  Bool-cases, ==_eq,
}
use crybaby.Base.Assoc.{lookup, insert, erase, keys, lookup-insert, lookup-erase}
use crybaby.Base.Assoc.Fields.{field}
use crybaby.Base.Unicode.{Unicode, equal_fold}
use crybaby.Hyperv.Simulated.{SimulatedEngine, new_simulated_engine}
use crybaby.Hyperv.Simulated.Machines.{is_taken}
use crybaby.Types.Node.{Time}
use crybaby.Types.Vm.{VirtualMachine, VmState, running, stopped, VmCheckpoint}

-- A stopped VM uses nothing and has no address; no other state than these two is reached.
pub record IsSettled (vm : VirtualMachine) : Type 0 where
  pub two_states : (vm.state ≡ running) ⊎ (vm.state ≡ stopped)
  pub no_uptime : vm.state ≡ stopped → vm.uptime_seconds ≡ 0
  pub no_address : vm.state ≡ stopped → vm.ip_addresses ≡ []
  pub no_cpu : vm.state ≡ stopped → vm.cpu_usage_pct ≡ pos 0
  pub no_memory : vm.state ≡ stopped → vm.memory_demand_mb ≡ 0

-- A VM stands under its identifier.
abbrev pub IsEntry : String × VirtualMachine → Type 0
IsEntry e = (e.1.id ≡ e.0) × IsSettled e.1

-- The names up to case, as `EqualFold` compares them.
abbrev pub names : Unicode → List (String × VirtualMachine) → List String
names u = field (λ v. u.fold v.name)

-- The checkpoints under a key belong to a VM that the engine has, and say so.
abbrev pub IsOwned : List (String × VirtualMachine) → String × List VmCheckpoint → Type 0
IsOwned vms e = (lookup e.0 vms ≢ none) × All (λ cp. cp.vm_id ≡ e.0) e.1

pub record IsValid (u : Unicode) (s : SimulatedEngine) : Type 0 where
  pub keys_distinct : Distinct (keys s.vms)
  pub entries : All IsEntry s.vms
  pub names_distinct : Distinct (names u s.vms)
  pub owned : All (IsOwned s.vms) s.checkpoints

pub new_simulated_engine-IsValid :
    (u : Unicode) (node_id : String) (now : Time) → IsValid u (new_simulated_engine node_id now)
unfolding new_simulated_engine
new_simulated_engine-IsValid u node_id now = record {
  keys_distinct = (tt, tt);
  entries = ((refl, ground arith), tt);
  names_distinct = (tt, tt);
  owned = tt;
}

module _ (u : Unicode) where
  -- The loop over the existing names finds a name up to case.
  pub is_taken-Absent :
      (name : String) (m : List (String × VirtualMachine))
      → is_taken u name m ≡ false
      → Absent (u.fold name) (names u m)
  unfolding is_taken
  is_taken-Absent name [] h = tt
  is_taken-Absent name (e ∷ m) h = ground (arith, is_taken-Absent name m)
