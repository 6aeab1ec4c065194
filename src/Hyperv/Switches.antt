-- ===== src/Hyperv/Switches.antt =====
-- Virtual switches: `EnsureVirtualSwitch` (pkg/hyperv/engine.go).
use crybaby.Base.{
  ◌≡◌, String, true, false, List, [], ◌∷◌, ◌++◌, text_eq, ◌≢◌, inl, inr, arith, Bool-cases, Absent,
  Distinct,
}
use crybaby.Hyperv.Simulated.{SimulatedEngine}
use crybaby.Hyperv.Simulated.Checkpoints.{has_switch, ensure_virtual_switch, list_virtual_switches}

has_switch-append : (name : String) (l : List String) → has_switch name (l ++ name ∷ []) ≡ true
unfolding has_switch
has_switch-append name [] = ground arith
has_switch-append name (x ∷ l) = ground (arith, has_switch-append name l)

has_switch-append_left :
    (name sw : String) (l : List String)
    → has_switch name l ≡ true
    → has_switch name (l ++ sw ∷ []) ≡ true
unfolding has_switch
has_switch-append_left name sw [] h = cc
has_switch-append_left name sw (x ∷ l) h = ground (arith, has_switch-append_left name sw l)

Absent-append : (x sw : String) (l : List String) → sw ≢ x → Absent x l → Absent x (l ++ sw ∷ [])
Absent-append x sw [] ne a = (ne, tt)
Absent-append x sw (y ∷ l) ne a = (a.0, Absent-append x sw l ne a.1)

append-Distinct :
    (sw : String) (l : List String) → has_switch sw l ≡ false → Distinct l → Distinct (l ++ sw ∷ [])
unfolding has_switch
append-Distinct sw [] h d = (tt, tt)
append-Distinct sw (x ∷ l) h d =
    (Absent-append x sw l (ground arith) d.0, append-Distinct sw l (ground arith) d.1)

-- In an engine that lists no switch twice: the switch is there afterwards, a second call changes
-- nothing, the other switches stay, and still no switch is listed twice.
pub ensure_virtual_switch_lem :
    (s : SimulatedEngine) (name : String)
    → Distinct s.switches
    → let t = ensure_virtual_switch s name in
      (has_switch name (list_virtual_switches t) ≡ true)
      × (ensure_virtual_switch t name ≡ t)
      × ((other : String) → has_switch other s.switches ≡ true → has_switch other t.switches ≡ true)
      × Distinct t.switches
unfolding ensure_virtual_switch list_virtual_switches
ensure_virtual_switch_lem s name d = elim (Bool-cases (has_switch name s.switches)) [
  | inl old ↦ rw old (old, (ground arith), (λ other h. h), d)
  | inr new ↦ (
    ground (arith, has_switch-append name s.switches),
    ground (arith, has_switch-append name s.switches),
    (λ other h. ground (arith, has_switch-append_left other name s.switches h)),
    rw new (append-Distinct name s.switches new d),
  )
]
