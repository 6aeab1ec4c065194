-- ===== src/Agent/Calls/Steps.antt =====
-- What a request to the agent does to the state of any engine, from what each of the engine's
-- operations does (cmd/agent/main.go).
use crybaby.Agent.{Response, respond}
use crybaby.Agent.Host.{dispatch, serve, Route, route}
use crybaby.Agent.Vms.{
  handle_vms, handle_vm, handle_checkpoints, handle_resize, handle_expand_disk, handle_clone,
  handle_action, handle_vm_parts, handle_vm_path, handle_switches, decoding,
}
use crybaby.Base.{
  String, Bool, true, false, List, [], ◌∷◌, ◌==◌, text_eq, if◌then◌else◌, ◌&&◌, ℤ, ℕ,
}
use crybaby.Base.Result.{ok, err}
use crybaby.Base.Strings.{split, trim_prefix}
use crybaby.Http.{Method, get, post, method_eq, Request, Decoders}
use crybaby.Hyperv.Engine.{Clock, Engine, Returns}
use crybaby.Types.Vm.{CreateVmRequest}

-- A relation between the states before and after, which holds of every operation and of none.
pub record Steps {S : Type 0} (hv : Engine S) (c : Clock) (R : S → S → Type 0) : Type 0 where
  pub stay : (s : S) → R s s
  pub list_vms : (s : S) → R s (hv.list_vms s).0
  pub get_vm : (s : S) (id : String) → R s (hv.get_vm s id).0
  pub create_vm : (s : S) (req : CreateVmRequest) → R s (hv.create_vm c s req).0
  pub start_vm : (s : S) (id : String) → R s (hv.start_vm s id).0
  pub stop_vm : (s : S) (id : String) (force : Bool) → R s (hv.stop_vm s id force).0
  pub restart_vm : (s : S) (id : String) → R s (hv.restart_vm s id).0
  pub delete_vm : (s : S) (id : String) (disk : Bool) → R s (hv.delete_vm s id disk).0
  pub list_virtual_switches : (s : S) → R s (hv.list_virtual_switches s).0
  pub create_checkpoint : (s : S) (id name : String) → R s (hv.create_checkpoint c s id name).0
  pub list_checkpoints : (s : S) (id : String) → R s (hv.list_checkpoints s id).0
  pub restore_checkpoint : (s : S) (id name : String) → R s (hv.restore_checkpoint s id name).0
  pub delete_checkpoint : (s : S) (id name : String) → R s (hv.delete_checkpoint s id name).0
  pub resize_vm : (s : S) (id : String) (cpu : ℤ) (mem : ℕ) → R s (hv.resize_vm s id cpu mem).0
  pub expand_disk : (s : S) (id : String) (size : ℕ) → R s (hv.expand_disk s id size).0
  pub clone_vm : (s : S) (id name : String) → R s (hv.clone_vm c s id name).0

module _ {S : Type 0} (hv : Engine S) (d : Decoders) (c : Clock) (R : S → S → Type 0)
    (k : Steps hv c R) (s : S) (r : Request) where
  respond-Steps :
      {A : Type 0} (t : Returns S A) (code : ℕ) (f : A → Response)
      → R s t.0
      → R s (respond t code f).0
  respond-Steps (t, ok a) code f h = h
  respond-Steps (t, err e) code f h = h

  decoding-Steps :
      {A : Type 0} (body : A × Bool) (text : String) (f : A → S × Response)
      → ((a : A) → R s (f a).0)
      → R s (decoding s body text f).0
  decoding-Steps (a, true) text f h = h a
  decoding-Steps (a, false) text f h = k.stay s

  if-Steps : (b : Bool) (x y : S × Response) → R s x.0 → R s y.0 → R s (if b then x else y).0
  if-Steps true x y hx hy = hx
  if-Steps false x y hx hy = hy

  handle_vms-Steps : R s (handle_vms hv d c s r).0
  unfolding handle_vms
  handle_vms-Steps =
      if-Steps (r.method == get) _ _ (respond-Steps (hv.list_vms s) 500 _ (k.list_vms s)) (
        if-Steps (r.method == post) _ _
          (decoding-Steps (d.create_vm r.body) "Invalid VM request JSON" _
            (λ req. respond-Steps (hv.create_vm c s req) 400 _ (k.create_vm s req)))
          (k.stay s))

  handle_vm-Steps : (id : String) → R s (handle_vm hv d c s r id).0
  unfolding handle_vm
  handle_vm-Steps id =
      if-Steps (r.method == get) _ _ (respond-Steps (hv.get_vm s id) 404 _ (k.get_vm s id)) (
        if-Steps (r.method == Method.delete) _ _
          (respond-Steps (hv.delete_vm s id true) 500 _ (k.delete_vm s id true)) (k.stay s))

  handle_checkpoints-Steps :
      (id : String) (rest : List String) → R s (handle_checkpoints hv d c s r id rest).0
  unfolding handle_checkpoints
  handle_checkpoints-Steps id [] =
      let name = (d.checkpoint r.body).0.name in
      if-Steps (r.method == get) _ _
        (respond-Steps (hv.list_checkpoints s id) 500 _ (k.list_checkpoints s id))
        (if-Steps (r.method == post) _ _
          (respond-Steps (hv.create_checkpoint c s id name) 500 _ (k.create_checkpoint s id name))
          (k.stay s))
  handle_checkpoints-Steps id (sub ∷ rest) =
      let name = (d.checkpoint r.body).0.name in
      if-Steps (sub == "restore" && r.method == post) _ _
        (respond-Steps (hv.restore_checkpoint s id name) 500 _ (k.restore_checkpoint s id name))
        (if-Steps (r.method == Method.delete) _ _
          (respond-Steps (hv.delete_checkpoint s id sub) 500 _ (k.delete_checkpoint s id sub))
          (k.stay s))

  handle_resize-Steps : (id : String) → R s (handle_resize hv d c s r id).0
  unfolding handle_resize
  handle_resize-Steps id =
      if-Steps (r.method == post) _ _
        (decoding-Steps (d.resize r.body) "Invalid resize request JSON" _ (λ req.
          respond-Steps (hv.resize_vm s id req.cpu_count req.memory_mb) 500 _
            (k.resize_vm s id req.cpu_count req.memory_mb)))
        (k.stay s)

  handle_expand_disk-Steps : (id : String) → R s (handle_expand_disk hv d c s r id).0
  unfolding handle_expand_disk
  handle_expand_disk-Steps id =
      if-Steps (r.method == post) _ _
        (decoding-Steps (d.expand r.body) "Invalid expand disk request JSON" _ (λ req.
          respond-Steps (hv.expand_disk s id req.new_size_gb) 500 _
            (k.expand_disk s id req.new_size_gb)))
        (k.stay s)

  handle_clone-Steps : (id : String) → R s (handle_clone hv d c s r id).0
  unfolding handle_clone
  handle_clone-Steps id =
      if-Steps (r.method == post) _ _
        (decoding-Steps (d.clone r.body) "Invalid clone request JSON" _ (λ req.
          respond-Steps (hv.clone_vm c s id req.new_name) 500 _ (k.clone_vm s id req.new_name)))
        (k.stay s)

  handle_action-Steps :
      (id action : String) (rest : List String) → R s (handle_action hv d c s r id action rest).0
  unfolding handle_action
  handle_action-Steps id action rest =
      if-Steps (action == "start") _ _ (respond-Steps (hv.start_vm s id) 500 _ (k.start_vm s id)) (
        if-Steps (action == "stop") _ _
          (respond-Steps (hv.stop_vm s id false) 500 _ (k.stop_vm s id false))
          (if-Steps (action == "restart") _ _
            (respond-Steps (hv.restart_vm s id) 500 _ (k.restart_vm s id))
            (if-Steps (action == "checkpoints") _ _ (handle_checkpoints-Steps id rest) (
              if-Steps (action == "resize") _ _ (handle_resize-Steps id) (
                if-Steps (action == "expand-disk") _ _ (handle_expand_disk-Steps id)
                  (if-Steps (action == "clone") _ _ (handle_clone-Steps id) (k.stay s)))))))

  handle_vm_parts-Steps :
      (id : String) (parts : List String) → R s (handle_vm_parts hv d c s r id parts).0
  unfolding handle_vm_parts
  handle_vm_parts-Steps id [] = handle_vm-Steps id
  handle_vm_parts-Steps id (action ∷ rest) = handle_action-Steps id action rest

  handle_vm_path-Steps : R s (handle_vm_path hv d c s r).0
  unfolding handle_vm_path
  handle_vm_path-Steps =
      let t = split b'/' (trim_prefix r.path "/api/v1/vms/") in handle_vm_parts-Steps t.0 t.1

  dispatch-Steps : (to : Route) → R s (dispatch hv d c to s r).0
  unfolding dispatch handle_switches
  dispatch-Steps Route.to_vms = handle_vms-Steps
  dispatch-Steps Route.to_vm_path = handle_vm_path-Steps
  dispatch-Steps Route.to_switches =
      respond-Steps (hv.list_virtual_switches s) 500 _ (k.list_virtual_switches s)
  dispatch-Steps _ = k.stay s

  -- A request changes the engine's state at most as one of its operations does.
  pub serve-Steps : R s (serve hv d c s r).0
  unfolding serve
  serve-Steps = dispatch-Steps (route r.path)
