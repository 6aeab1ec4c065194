-- ===== src/Agent/Vms.antt =====
-- The handlers of `/api/v1/vms`, `/api/v1/vms/` and `/api/v1/switches` in cmd/agent/main.go, over
-- any engine.
use crybaby.Agent.{
  failure, status, vms, vm, checkpoints, checkpoint, switches, Response, answer, respond,
  method_not_allowed,
}
use crybaby.Base.{String, Bool, true, false, List, [], ◌∷◌, ◌==◌, text_eq, if◌then◌else◌, ◌&&◌}
use crybaby.Base.Strings.{trim_prefix, split}
use crybaby.Http.{get, post, delete, method_eq, Request, Decoders}
use crybaby.Hyperv.Engine.{Clock, Engine}

-- Decode the body, and answer 400 with the text if that fails.
abbrev pub decoding : {S A : Type 0} → S → A × Bool → String → (A → S × Response) → S × Response
decoding s (req, true) text f = f req
decoding s (req, false) text f = (s, answer 400 (failure text))

module _ {S : Type 0} (hv : Engine S) (d : Decoders) (c : Clock) where
  -- `/api/v1/vms`
  unfoldable pub handle_vms : S → Request → S × Response
  handle_vms s r =
      if r.method == get
      then respond (hv.list_vms s) 500 (λ l. answer 200 (vms l))
      else if r.method == post
      then decoding s (d.create_vm r.body) "Invalid VM request JSON"
          (λ req. respond (hv.create_vm c s req) 400 (λ v. answer 201 (vm v)))
      else (s, method_not_allowed)

  -- `/api/v1/vms/` with the machine alone
  unfoldable pub handle_vm : S → Request → String → S × Response
  handle_vm s r vm_id =
      if r.method == get
      then respond (hv.get_vm s vm_id) 404 (λ v. answer 200 (vm v))
      else if r.method == delete
      then respond (hv.delete_vm s vm_id true) 500 (λ _. answer 200 (status "deleted"))
      else (s, method_not_allowed)

  -- the action `checkpoints`, with the parts of the path behind it
  unfoldable pub handle_checkpoints : S → Request → String → List String → S × Response
  handle_checkpoints s r vm_id [] =
      if r.method == get
      then respond (hv.list_checkpoints s vm_id) 500 (λ l. answer 200 (checkpoints l))
      else if r.method == post
      then respond (hv.create_checkpoint c s vm_id (d.checkpoint r.body).0.name) 500
          (λ cp. answer 200 (checkpoint cp))
      else (s, method_not_allowed)
  handle_checkpoints s r vm_id (sub_action ∷ _) =
      if sub_action == "restore" && r.method == post
      then respond (hv.restore_checkpoint s vm_id (d.checkpoint r.body).0.name) 500
          (λ _. answer 200 (status "restored"))
      else if r.method == delete
      then respond (hv.delete_checkpoint s vm_id sub_action) 500
          (λ _. answer 200 (status "deleted"))
      else (s, answer 404 (failure "Unknown checkpoint action"))

  unfoldable pub handle_resize : S → Request → String → S × Response
  handle_resize s r vm_id =
      if r.method == post
      then decoding s (d.resize r.body) "Invalid resize request JSON" (λ req.
        respond (hv.resize_vm s vm_id req.cpu_count req.memory_mb) 500
          (λ _. answer 200 (status "resized")))
      else (s, method_not_allowed)

  unfoldable pub handle_expand_disk : S → Request → String → S × Response
  handle_expand_disk s r vm_id =
      if r.method == post
      then decoding s (d.expand r.body) "Invalid expand disk request JSON" (λ req.
        respond (hv.expand_disk s vm_id req.new_size_gb) 500 (λ _. answer 200 (status "expanded")))
      else (s, method_not_allowed)

  unfoldable pub handle_clone : S → Request → String → S × Response
  handle_clone s r vm_id =
      if r.method == post
      then decoding s (d.clone r.body) "Invalid clone request JSON"
          (λ req. respond (hv.clone_vm c s vm_id req.new_name) 500 (λ v. answer 201 (vm v)))
      else (s, method_not_allowed)

  -- the `switch` over the action
  unfoldable pub handle_action : S → Request → String → String → List String → S × Response
  handle_action s r vm_id action rest =
      if action == "start"
      then respond (hv.start_vm s vm_id) 500 (λ _. answer 200 (status "started"))
      else if action == "stop"
      then respond (hv.stop_vm s vm_id false) 500 (λ _. answer 200 (status "stopped"))
      else if action == "restart"
      then respond (hv.restart_vm s vm_id) 500 (λ _. answer 200 (status "restarted"))
      else if action == "checkpoints"
      then handle_checkpoints s r vm_id rest
      else if action == "resize"
      then handle_resize s r vm_id
      else if action == "expand-disk"
      then handle_expand_disk s r vm_id
      else if action == "clone"
      then handle_clone s r vm_id
      else (s, answer 404 (failure "Unknown VM action"))

  -- the parts of the path behind `/api/v1/vms/`
  unfoldable pub handle_vm_parts : S → Request → String → List String → S × Response
  handle_vm_parts s r vm_id [] = handle_vm s r vm_id
  handle_vm_parts s r vm_id (action ∷ rest) = handle_action s r vm_id action rest

  -- `/api/v1/vms/`
  unfoldable pub handle_vm_path : S → Request → S × Response
  unfolding handle_vm_parts
  handle_vm_path s r =
      let (vm_id, parts) = split b'/' (trim_prefix r.path "/api/v1/vms/") in
      handle_vm_parts s r vm_id parts

  -- `/api/v1/switches`
  unfoldable pub handle_switches : S → Request → S × Response
  handle_switches s r = respond (hv.list_virtual_switches s) 500 (λ l. answer 200 (switches l))
