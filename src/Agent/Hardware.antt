-- ===== src/Agent/Hardware.antt =====
-- cmd/agent/hardware.go and metrics.go: what an agent tells of its host. Interfaces, the runtime,
-- the clock and random numbers are arguments.
use crybaby.Base.{
  ◌≡◌, refl, ap, ◌∙◌, ◌⊎◌, inl, inr, ◌++◌, All, Bool-cases, arith, ℕ, ◌+◌, ◌*◌, ◌%◌, ◌^◌, String, ℤ,
  pos, Bool, true, false, not, ◌&&◌, List, [], ◌∷◌, Option, none, some, ◌==◌, text_eq,
  if◌then◌else◌,
}
use crybaby.Base.Spaces.{has_prefix}
use crybaby.Base.Text.{◌<>◌}
use crybaby.Types.Node.{NodeHardware, NodeMetrics, Float64, Time}

-- A `net.Interface`; its address as text, which is empty where there is none.
pub record Interface : Type 0 where
  pub is_up : Bool
  pub is_loopback : Bool
  pub hardware_addr : String

-- The address of an interface that is up and no loopback.
abbrev pub is_primary : Interface → Bool
is_primary i = i.is_up && not i.is_loopback && not (i.hardware_addr == "")

-- the loop over the interfaces
unfoldable pub first_mac : List Interface → String
first_mac [] = ""
first_mac (i ∷ is) =
    let rest = first_mac is in
    if i.is_up && not i.is_loopback
    then (if not (i.hardware_addr == "") then i.hardware_addr else rest)
    else rest

-- `net.Interfaces` fails or lists them.
unfoldable pub get_primary_mac_address : Option (List Interface) → String
unfolding first_mac
get_primary_mac_address none = ""
get_primary_mac_address (some is) = first_mac is

-- `strings.Contains(s, t)`
unfoldable pub contains : String → String → Bool
contains t String.[] = has_prefix "" t
contains t (String.◌∷◌ c s) =
    let rest = contains t s in if has_prefix (String.◌∷◌ c s) t then true else rest

-- The output of `sc query vmms`, if the command succeeds.
unfoldable pub check_hyperv_enabled : String → Option String → Bool
unfolding contains
check_hyperv_enabled goos service =
    if not (goos == "windows")
    then true
    else elim service [ none ↦ false | some out ↦ contains "STATE" out ]

-- What the runtime and the system tell.
pub record Machine : Type 0 where
  pub goos : String
  pub goarch : String
  pub version : String
  pub num_cpu : ℤ
  -- `os.Hostname`, whose error is ignored
  pub hostname : String
  pub interfaces : Option (List Interface)
  pub service : Option String

unfoldable pub detect_hardware : Machine → ℤ → NodeHardware
unfolding get_primary_mac_address check_hyperv_enabled
detect_hardware m agent_port = record {
  hostname = m.hostname;
  os = m.goos <> " " <> m.goarch;
  kernel_version = m.version;
  cpu_model = m.goarch <> " Multi-Core Processor";
  cpu_cores = m.num_cpu;
  cpu_threads = m.num_cpu;
  total_ram_bytes = 16 * 1024 * 1024 * 1024;
  total_disk_bytes = 512 * 1024 * 1024 * 1024;
  mac_address = get_primary_mac_address m.interfaces;
  hyperv_enabled = check_hyperv_enabled m.goos m.service;
  agent_port = agent_port;
}

-- The readings that `CollectMetrics` takes: the clock, the seconds since the start, the bytes
-- allocated, and a load that it draws at random; and its float64 constants and quotient.
pub record Sample : Type 0 where
  pub now : Time
  pub uptime : ℕ
  pub alloc : ℕ
  pub cpu_pct : Float64
  pub disk_pct : Float64
  pub percent : ℕ → Float64

unfoldable pub collect_metrics : Sample → NodeMetrics
collect_metrics s =
    let ram_used = (s.alloc + 2 * 1024 * 1024 * 1024) % 2 ^ 64 in
    record {
      timestamp = s.now;
      cpu_usage_pct = s.cpu_pct;
      ram_used_bytes = ram_used;
      ram_usage_pct = s.percent ram_used;
      disk_used_bytes = 80 * 1024 * 1024 * 1024;
      disk_usage_pct = s.disk_pct;
      net_bytes_sent = 1024 * s.uptime % 2 ^ 64;
      net_bytes_recv = 2048 * s.uptime % 2 ^ 64;
      active_vm_count = pos 0;
      uptime_seconds = s.uptime;
    }

-- The address that is told is that of the first interface that is up, no loopback and has one; it
-- is empty if there is no such interface.
first_mac-IsFirst :
    (is : List Interface)
    → (All (λ i. is_primary i ≡ false) is × (first_mac is ≡ ""))
      ⊎ ((before : List Interface) × (i : Interface) × (after : List Interface) × (is
            ≡ before ++ i ∷ after)
          × All (λ j. is_primary j ≡ false) before
          × (is_primary i ≡ true)
          × (first_mac is ≡ i.hardware_addr))
unfolding first_mac
first_mac-IsFirst [] = inl (tt, refl)
first_mac-IsFirst (i ∷ is) = elim (Bool-cases (is_primary i)) [
  | inl here ↦ inr ([], i, is, refl, tt, here, ground arith)
  | inr there ↦
      let skip : first_mac (i ∷ is) ≡ first_mac is = ground arith in
      elim (first_mac-IsFirst is) [
        | inl (none_is, empty) ↦ inl ((there, none_is), skip ∙ empty)
        | inr (before, j, after, at, passed, primary, told) ↦
            inr (i ∷ before, j, after, ap (λ xs. i ∷ xs) at, (there, passed), primary, skip ∙ told)
      ]
]
