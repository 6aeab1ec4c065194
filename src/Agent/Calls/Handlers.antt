-- ===== src/Agent/Calls/Handlers.antt =====
-- Each handler makes at most one call of the simulated engine (cmd/agent/main.go).
use crybaby.Agent.{Response, answer, respond, status, vm, checkpoints, checkpoint}
use crybaby.Agent.Calls.{
  OneCall, OneCall-none, OneCall-respond, OneCall-read, update_vm_failed, create_vm_failed,
  clone_vm_failed, delete_vm_failed, create_checkpoint_failed, delete_checkpoint_failed,
}
use crybaby.Agent.Host.{dispatch, serve, Route, route}
use crybaby.Agent.Vms.{
  handle_vms, handle_vm, handle_checkpoints, handle_resize, handle_expand_disk, handle_clone,
  handle_action, handle_vm_parts, handle_vm_path, handle_switches, decoding,
}
use crybaby.Base.{
  refl, String, Bool, true, false, List, [], ◌∷◌, ◌==◌, text_eq, arith, if◌then◌else◌, ◌&&◌,
}
use crybaby.Hyperv.Simulated.Machines.{started, start_vm}
use crybaby.Base.Strings.{split, trim_prefix}
use crybaby.Base.Unicode.{Unicode}
use crybaby.Http.{Method, get, post, method_eq, Request, Decoders}
use crybaby.Hyperv.Calls.{
  simulated, told, Update, start, restart, stop, resize, expand, update_vm, Call, create, clone,
  update, delete_checkpoint, step,
}
use crybaby.Hyperv.Engine.{Clock}
use crybaby.Hyperv.Simulated.{SimulatedEngine}
use crybaby.Hyperv.Simulated.Machines
use crybaby.Hyperv.Simulated.Checkpoints

-- What a handler did, as its new state beside its answer.
abbrev pub Did : Unicode → SimulatedEngine → SimulatedEngine × Response → Type 0
Did u s t = OneCall u s t.0 t.1.code

module _ (u : Unicode) (d : Decoders) (c : Clock) (s : SimulatedEngine) (r : Request) where
  decoding-Did :
      {A : Type 0} (body : A × Bool) (text : String) (f : A → SimulatedEngine × Response)
      → ((a : A) → Did u s (f a))
      → Did u s (decoding s body text f)
  decoding-Did (a, true) text f h = h a
  decoding-Did (a, false) text f h = OneCall-none u s 400

  -- A test passes the handler on to one of two.
  if-Did :
      (b : Bool) (x y : SimulatedEngine × Response)
      → Did u s x
      → Did u s y
      → Did u s (if b then x else y)
  if-Did true x y hx hy = hx
  if-Did false x y hx hy = hy

  update-Did :
      (id : String) (change : Update) (text : String)
      → let t = update_vm s id change in
        Did u s (respond (t.0, told t.1) 500 (λ _. answer 200 (status text)))
  unfolding step
  update-Did id change text =
      OneCall-respond u s (update id change) (update_vm s id change) 500
        (λ _. answer 200 (status text)) refl (update_vm_failed s id change) (λ _. omega arith)

  handle_vms-Did : Did u s (handle_vms (simulated u) d c s r)
  unfolding handle_vms step
  handle_vms-Did = if-Did (r.method == get) _ _ (OneCall-none u s 200) (
      if-Did (r.method == post) _ _
        (decoding-Did (d.create_vm r.body) "Invalid VM request JSON" _ (λ req.
          OneCall-respond u s (create c req) (Machines.create_vm u c s req) 400
            (λ v. answer 201 (vm v)) refl (create_vm_failed u c s req) (λ _. omega arith)))
        (OneCall-none u s 405))

  handle_vm-Did : (id : String) → Did u s (handle_vm (simulated u) d c s r id)
  unfolding handle_vm step
  handle_vm-Did id =
      if-Did (r.method == get) _ _
        (OneCall-read u s (Machines.get_vm u s id) 404 (λ v. answer 200 (vm v)))
        (if-Did (r.method == Method.delete) _ _
          (OneCall-respond u s (Call.delete id true) (Machines.delete_vm s id true) 500
            (λ _. answer 200 (status "deleted")) refl (delete_vm_failed s id true)
            (λ _. omega arith))
          (OneCall-none u s 405))

  handle_checkpoints-Did :
      (id : String) (rest : List String)
      → Did u s (handle_checkpoints (simulated u) d c s r id rest)
  unfolding handle_checkpoints step
  handle_checkpoints-Did id [] =
      let name = (d.checkpoint r.body).0.name in
      if-Did (r.method == get) _ _
        (OneCall-read u s (Checkpoints.list_checkpoints s id) 500 (λ l. answer 200 (checkpoints l)))
        (if-Did (r.method == post) _ _
          (OneCall-respond u s (Call.checkpoint c id name)
            (Checkpoints.create_checkpoint c s id name) 500 (λ cp. answer 200 (checkpoint cp)) refl
            (create_checkpoint_failed c s id name) (λ _. omega arith))
          (OneCall-none u s 405))
  handle_checkpoints-Did id (sub ∷ rest) =
      if-Did (sub == "restore" && r.method == post) _ _
        (OneCall-read u s (Checkpoints.restore_checkpoint s id (d.checkpoint r.body).0.name) 500
          (λ _. answer 200 (status "restored")))
        (if-Did (r.method == Method.delete) _ _
          (OneCall-respond u s (delete_checkpoint id sub) (Checkpoints.delete_checkpoint s id sub)
            500 (λ _. answer 200 (status "deleted")) refl (delete_checkpoint_failed s id sub)
            (λ _. omega arith))
          (OneCall-none u s 404))

  handle_resize-Did : (id : String) → Did u s (handle_resize (simulated u) d c s r id)
  unfolding handle_resize update_vm
  handle_resize-Did id =
      if-Did (r.method == post) _ _
        (decoding-Did (d.resize r.body) "Invalid resize request JSON" _
          (λ req. update-Did id (resize req.cpu_count req.memory_mb) "resized"))
        (OneCall-none u s 405)

  handle_expand_disk-Did : (id : String) → Did u s (handle_expand_disk (simulated u) d c s r id)
  unfolding handle_expand_disk update_vm
  handle_expand_disk-Did id =
      if-Did (r.method == post) _ _
        (decoding-Did (d.expand r.body) "Invalid expand disk request JSON" _
          (λ req. update-Did id (expand req.new_size_gb) "expanded"))
        (OneCall-none u s 405)

  handle_clone-Did : (id : String) → Did u s (handle_clone (simulated u) d c s r id)
  unfolding handle_clone step
  handle_clone-Did id =
      if-Did (r.method == post) _ _
        (decoding-Did (d.clone r.body) "Invalid clone request JSON" _ (λ req.
          OneCall-respond u s (clone c id req.new_name) (Machines.clone_vm u c s id req.new_name)
            500 (λ v. answer 201 (vm v)) refl (clone_vm_failed u c s id req.new_name)
            (λ _. omega arith)))
        (OneCall-none u s 405)

  handle_action-Did :
      (id action : String) (rest : List String)
      → Did u s (handle_action (simulated u) d c s r id action rest)
  unfolding handle_action update_vm
  handle_action-Did id action rest =
      if-Did (action == "start") _ _ (update-Did id start "started") (
        if-Did (action == "stop") _ _ (update-Did id (stop false) "stopped") (
          if-Did (action == "restart") _ _ (update-Did id restart "restarted") (
            if-Did (action == "checkpoints") _ _ (handle_checkpoints-Did id rest) (
              if-Did (action == "resize") _ _ (handle_resize-Did id) (
                if-Did (action == "expand-disk") _ _ (handle_expand_disk-Did id)
                  (if-Did (action == "clone") _ _ (handle_clone-Did id) (OneCall-none u s 404)))))))

  handle_vm_parts-Did :
      (id : String) (parts : List String) → Did u s (handle_vm_parts (simulated u) d c s r id parts)
  unfolding handle_vm_parts
  handle_vm_parts-Did id [] = handle_vm-Did id
  handle_vm_parts-Did id (action ∷ rest) = handle_action-Did id action rest

  handle_vm_path-Did : Did u s (handle_vm_path (simulated u) d c s r)
  unfolding handle_vm_path
  handle_vm_path-Did =
      let t = split b'/' (trim_prefix r.path "/api/v1/vms/") in handle_vm_parts-Did t.0 t.1

  dispatch-OneCall :
      (to : Route) → let t = dispatch (simulated u) d c to s r in OneCall u s t.0 t.1.code
  unfolding dispatch handle_switches
  dispatch-OneCall Route.to_vms = handle_vms-Did
  dispatch-OneCall Route.to_vm_path = handle_vm_path-Did
  dispatch-OneCall Route.to_switches = OneCall-none u s 200
  dispatch-OneCall _ = OneCall-none u s _

  -- A request to the agent, whatever its path, method and body, makes at most one call of the
  -- engine; if the answer's code is 400 or more, the engine is as it was.
  pub serve-OneCall : let t = serve (simulated u) d c s r in OneCall u s t.0 t.1.code
  unfolding serve
  serve-OneCall = dispatch-OneCall (route r.path)
