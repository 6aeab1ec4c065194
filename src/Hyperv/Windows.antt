-- ===== src/Hyperv/Windows.antt =====
-- `windowsEngine` of pkg/hyperv/engine.go: the host that it runs its scripts on, and what its
-- operations share. `S` is the host's state, of which the engine itself keeps nothing.
pub mod Scripts
pub mod Machines
pub mod Checkpoints
pub mod Calls
pub mod Commands
pub mod Listing
pub mod Agreement
use crybaby.Base.{ℕ, ◌+◌, ◌*◌, ◌-◌, ◌/◌, ◌%◌, ◌^◌, String, ℤ, pos, negsuc, List, Option, none, some}
use crybaby.Base.Result.{Result, ok, err}
use crybaby.Base.Text.{◌<>◌}
use crybaby.Hyperv.Engine.{Returns}
use crybaby.Types.Node.{Time}
use mathlib.Core.Option

-- A machine as PowerShell prints it.
pub record PsVm : Type 0 where
  pub id : String
  pub name : String
  pub state : ℤ
  pub cpu_usage : ℤ
  pub memory_assigned : ℤ
  pub memory_demand : ℤ
  pub ip_addresses : String
  pub hard_drives : String

pub record PsSnap : Type 0 where
  pub id : String
  pub name : String
  pub creation_time : String

-- powershell.exe, the clock and encoding/json.
pub record Host (S : Type 0) : Type 0 where
  -- `runPowerShell`: the state after a script, what it printed, and the error if there is one
  pub execute : S → String → S × String × Option String
  -- the readings of the clock in a state, one after the other
  pub clock : S → ℕ → Time
  -- `json.Unmarshal` into `[]psVM`, `psSnap` and `[]psSnap`
  pub decode_machines : String → Result String (List PsVm)
  pub decode_snapshot : String → Result String PsSnap
  pub decode_snapshots : String → Result String (List PsSnap)
  -- what `json.Unmarshal` leaves in a `[]string` and in a `string`, whatever error it returns
  pub decode_names : String → List String
  pub decode_name : String → String

-- `fmt.Errorf(task + ": %w (%s)", err, out)`
abbrev pub failed : String → String → String → String
failed task e out = task <> ": " <> e <> " (" <> out <> ")"

module _ {S : Type 0} (h : Host S) where
  -- Run a script of which only the failure is told.
  abbrev pub command : String → S → String → Returns S (Unit {0})
  command task s script =
      let (s', out, e) = h.execute s script in
      elim e [ none ↦ (s', ok tt) | some m ↦ (s', err (failed task m out)) ]

-- `uint64(n / (1024 * 1024))` of an `int64`: the quotient is towards zero, and wraps.
abbrev pub mebibytes : ℤ → ℕ
mebibytes (pos n) = n / (1024 * 1024)
mebibytes (negsuc n) = (2 ^ 64 - (n + 1) / (1024 * 1024)) % 2 ^ 64
