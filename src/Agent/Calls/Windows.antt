-- ===== src/Agent/Calls/Windows.antt =====
-- An agent with the Windows engine: requests and the scripts that they run (cmd/agent/main.go with
-- pkg/hyperv/engine.go).
use crybaby.Agent.Calls.Steps.{Steps, serve-Steps}
use crybaby.Agent.Host.{serve}
use crybaby.Base.{◌≡◌, refl, ◌∙◌, ap, String, ◌⊎◌, inl, inr, some, Option-cases}
use crybaby.Base.Unicode.{Unicode}
use crybaby.Http.{Request, Decoders}
use crybaby.Hyperv.Engine.{Clock}
use crybaby.Hyperv.Windows.{Host}
use crybaby.Hyperv.Windows.Calls.{windows, step, script_of}
use crybaby.Hyperv.Windows.Calls
use crybaby.Hyperv.Windows.Commands.{after, step-after}

module _ {S : Type 0} (h : Host S) (u : Unicode) (node_id : String) where
  -- The host after at most one script, which is that of a request to the engine.
  abbrev pub IsOneScript : S → S → Type 0
  IsOneScript s t =
      (t ≡ s)
      ⊎ ((q : Calls.Request) × (script : String) × (script_of q ≡ some script)
          × (t ≡ (h.execute s script).0))

  stepped-IsOneScript : (s : S) (q : Calls.Request) → IsOneScript s (step h u node_id s q)
  stepped-IsOneScript s q = elim (Option-cases (script_of q)) [
    | inl refused ↦ inl (step-after h u node_id s q ∙ ap (after h u node_id s) refused)
    | inr (t, made) ↦ inr (q, t, made, step-after h u node_id s q ∙ ap (after h u node_id s) made)
  ]

  windows-Steps : (c : Clock) → Steps (windows h u node_id) c IsOneScript
  unfolding step
  windows-Steps c = record {
    stay = λ s. inl refl;
    list_vms = λ s. stepped-IsOneScript s Calls.Request.list_vms;
    get_vm = λ s id. stepped-IsOneScript s (Calls.Request.get_vm id);
    create_vm = λ s req. stepped-IsOneScript s (Calls.Request.create_vm c req);
    start_vm = λ s id. stepped-IsOneScript s (Calls.Request.start_vm id);
    stop_vm = λ s id force. stepped-IsOneScript s (Calls.Request.stop_vm id force);
    restart_vm = λ s id. stepped-IsOneScript s (Calls.Request.restart_vm id);
    delete_vm = λ s id disk. stepped-IsOneScript s (Calls.Request.delete_vm id disk);
    list_virtual_switches = λ s. stepped-IsOneScript s Calls.Request.list_virtual_switches;
    create_checkpoint =
        λ s id name. stepped-IsOneScript s (Calls.Request.create_checkpoint c id name);
    list_checkpoints = λ s id. stepped-IsOneScript s (Calls.Request.list_checkpoints id);
    restore_checkpoint =
        λ s id name. stepped-IsOneScript s (Calls.Request.restore_checkpoint id name);
    delete_checkpoint =
        λ s id name. stepped-IsOneScript s (Calls.Request.delete_checkpoint id name);
    resize_vm = λ s id cpu mem. stepped-IsOneScript s (Calls.Request.resize_vm id cpu mem);
    expand_disk = λ s id size. stepped-IsOneScript s (Calls.Request.expand_disk id size);
    clone_vm = λ s id name. stepped-IsOneScript s (Calls.Request.clone_vm c id name);
  }

  -- A request to an agent on Windows, whatever its path, method and body, runs at most one script
  -- on the host, and this is the script of one of the engine's operations.
  pub serve-IsOneScript :
      (d : Decoders) (c : Clock) (s : S) (r : Request)
      → IsOneScript s (serve (windows h u node_id) d c s r).0
  serve-IsOneScript d c s r =
      serve-Steps (windows h u node_id) d c IsOneScript (windows-Steps c) s r
