-- ===== src/Tests/Windows.antt =====
-- The theorems on the Windows engine at concrete inputs (pkg/hyperv/engine.go).
use crybaby.Agent.Calls.Windows.{IsOneScript, serve-IsOneScript}
use crybaby.Agent.Host.{serve}
use crybaby.Base.{
  ◌≡◌, refl, ◌↔◌, String, pos, false, List, [], ◌∷◌, ◌++◌, none, some, text_discrete, ℕ_discrete,
}
use crybaby.Base.Int.{int_discrete}
use crybaby.Base.Result.{ok, err}
use crybaby.Base.Spaces.{trim_space, is_space, has_prefix}
use crybaby.Base.Strings.{split, after_prefix}
use crybaby.Base.Assoc.{lookup}
use crybaby.Http.{post, Request}
use crybaby.Hyperv.Simulated.{demo_vm, demo_id}
use crybaby.Hyperv.Simulated.Machines.{is_taken}
use crybaby.Hyperv.Windows.{Host, PsVm}
use crybaby.Hyperv.Windows.Calls.{windows, run, executed, scripts, script_of}
use crybaby.Hyperv.Windows.Calls
use crybaby.Hyperv.Windows.Commands.{run-scripts, Succeeded, outcome-Succeeded}
use crybaby.Hyperv.Windows.Listing.{IsListing, Printed, list_vms-IsListing}
use crybaby.Hyperv.Windows.Machines.{
  listed, read_vms, start_vm, listed_vm, list_vms, resize_vm, addresses,
}
use crybaby.Hyperv.Windows.Scripts.{start_script}
use crybaby.Hyperv.Windows.Scripts.Creation.{list_script}
use crybaby.Tests.Samples.{plain, clock, sample_engine, decoders, new_vm}
use crybaby.Types.Vm.{VirtualMachine, running, stopped, CreateVmRequest}

abbrev sample_item : PsVm
sample_item = record {
  id = "a1";
  name = "web";
  state = pos 2;
  cpu_usage = pos 3;
  memory_assigned = pos 2097152;
  memory_demand = pos 1048576;
  ip_addresses = "10.0.0.7, fe80::1,,192.168.0.2";
  hard_drives = "C:\\web.vhdx";
}

-- A host that notes its scripts and prints one machine.
abbrev host : Host (List String)
host = record {
  execute = λ s t. (s ++ t ∷ [], " {vm}\r\n", none);
  clock = λ _ i. i;
  decode_machines = λ _. ok (sample_item ∷ []);
  decode_snapshot = λ _. err "not a snapshot";
  decode_snapshots = λ _. ok [];
  decode_names = λ _. [];
  decode_name = λ _. "";
}

abbrev requests : List Calls.Request
requests =
    Calls.Request.start_vm "a1"
    ∷ Calls.Request.resize_vm "a1" (pos 0) 1024
    ∷ Calls.Request.list_vms
    ∷ []

-- The request without a processor runs nothing.
scripts_left : run host plain "n1" [] requests ≡ start_script "a1" ∷ list_script ∷ []
unfolding run scripts executed Calls.step list_vms resize_vm start_vm
scripts_left = refl

-- The link-local address and the empty one are left out.
sample_addresses : addresses "10.0.0.7, fe80::1,,192.168.0.2" ≡ "10.0.0.7" ∷ "192.168.0.2" ∷ []
unfolding addresses trim_space text_discrete split ℕ_discrete is_space has_prefix after_prefix
sample_addresses = refl

run-scripts_example : run host plain "n1" [] requests ≡ executed host [] (scripts requests)
run-scripts_example = run-scripts host plain "n1" [] requests

outcome-Succeeded_example :
    ((resize_vm host [] "a1" (pos 0) 1024).1 ≡ ok tt)
    ↔ Succeeded host [] (script_of (Calls.Request.resize_vm "a1" (pos 0) 1024))
outcome-Succeeded_example =
    outcome-Succeeded host [] (Calls.Request.resize_vm "a1" (pos 0) 1024)
      (resize_vm host [] "a1" (pos 0) 1024).1 refl

abbrev sample_vm : VirtualMachine
sample_vm = record {
  id = "a1";
  node_id = "n1";
  name = "web";
  state = running;
  cpu_count = pos 2;
  memory_mb = 2;
  disk_path = "C:\\web.vhdx";
  disk_size_bytes = 0;
  uptime_seconds = 0;
  ip_addresses = "10.0.0.7" ∷ "192.168.0.2" ∷ [];
  cpu_usage_pct = pos 3;
  memory_demand_mb = 1;
  created_at = 0;
}

sample_listing : (list_vms host "n1" []).1 ≡ ok (sample_vm ∷ [])
unfolding list_vms read_vms trim_space text_discrete listed_vm listed addresses split ℕ_discrete
    int_discrete is_space has_prefix after_prefix
sample_listing = refl

list_vms-IsListing_example :
    let t = host.execute [] list_script in
    (t.2 ≡ none)
    × ((raw : List PsVm) × Printed host "n1" (trim_space t.1) raw
        × IsListing "n1" raw (sample_vm ∷ []))
list_vms-IsListing_example = list_vms-IsListing host "n1" [] (sample_vm ∷ []) sample_listing

abbrev created : VirtualMachine
created = record {
  id = "{vm}";
  node_id = "n1";
  name = "web";
  state = stopped;
  cpu_count = pos 1;
  memory_mb = 1024;
  disk_path = "C:\\Crybaby\\Disks\\web.vhdx";
  disk_size_bytes = 10737418240;
  uptime_seconds = 0;
  ip_addresses = [];
  cpu_usage_pct = pos 0;
  memory_demand_mb = 0;
  created_at = 7;
}

sample_found : lookup demo_id sample_engine.vms ≡ some (demo_vm "node-1" 0)
unfolding lookup text_discrete
sample_found = refl

abbrev unnamed : CreateVmRequest
unnamed = record new_vm { name = "" }

sample_free : is_taken plain "" sample_engine.vms ≡ false
unfolding is_taken text_discrete
sample_free = refl

abbrev starting : Request
starting = record { method = post; path = "/api/v1/vms/a1/start"; body = "" }

serve-IsOneScript_example :
    IsOneScript host plain "n1" [] (serve (windows host plain "n1") decoders clock [] starting).0
serve-IsOneScript_example = serve-IsOneScript host plain "n1" decoders clock [] starting
