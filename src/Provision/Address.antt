-- ===== src/Provision/Address.antt =====
-- The address that the controller gives of itself (cmd/controller/main.go).
use crybaby.Base.{
  Bool-cases, ◌≡◌, subst, refl, sym, ◌⊎◌, inl, inr, String, true, false, List, [], ◌∷◌, Option,
  none, some, text_eq, Option-cases, arith,
}
use crybaby.Base.Text.{◌<>◌}
use crybaby.Provision.{
  Ip, reachable, first_reachable, Network, from_interfaces, get_outbound_ip, Visit, named_host,
  is_local,
}

-- The text of an IPv4 address that stands in a list and is no loopback address.
abbrev pub IsOffered : String → List (Option Ip) → Type 0
IsOffered text [] = ⊥
IsOffered text (a ∷ addrs) =
    ((ip : Ip) × (a ≡ some ip) × (ip.is_loopback ≡ false) × (ip.to4 ≡ some text))
    ⊎ IsOffered text addrs

reachable_lem :
    (ip : Ip) (text : String)
    → reachable ip ≡ some text
    → (ip.is_loopback ≡ false) × (ip.to4 ≡ some text)
unfolding reachable
reachable_lem ip text e = elim (Bool-cases ip.is_loopback) [
  | inl own ↦ absurd (ground (arith, e, own))
  | inr other ↦ (other, ground (arith, e, other))
]

-- A text that is empty, or an address of the list.
abbrev pub IsAnswer : List (Option Ip) → String → Type 0
IsAnswer addrs text = (text ≡ "") ⊎ IsOffered text addrs

later-IsAnswer :
    (a : Option Ip) (addrs : List (Option Ip)) (text : String)
    → IsAnswer addrs text
    → IsAnswer (a ∷ addrs) text
later-IsAnswer a addrs text (inl nothing) = inl nothing
later-IsAnswer a addrs text (inr offered) = inr (inr offered)

first_reachable_hit :
    (ip : Ip) (addrs : List (Option Ip)) (text : String)
    → reachable ip ≡ some text
    → first_reachable (some ip ∷ addrs) ≡ text
unfolding first_reachable
first_reachable_hit ip addrs text e = ground (arith, e)

first_reachable_miss :
    (ip : Ip) (addrs : List (Option Ip))
    → reachable ip ≡ none
    → first_reachable (some ip ∷ addrs) ≡ first_reachable addrs
unfolding first_reachable
first_reachable_miss ip addrs e = ground (arith, e)

first_reachable-IsAnswer : (addrs : List (Option Ip)) → IsAnswer addrs (first_reachable addrs)
unfolding first_reachable
first_reachable-IsAnswer [] = inl refl
first_reachable-IsAnswer (none ∷ addrs) =
    later-IsAnswer none addrs (first_reachable addrs) (first_reachable-IsAnswer addrs)
first_reachable-IsAnswer (some ip ∷ addrs) = elim (Option-cases (reachable ip)) [
  | inr (text, e) ↦
      subst (IsAnswer (some ip ∷ addrs)) (sym (first_reachable_hit ip addrs text e))
        (inr (inl (ip, refl, (reachable_lem ip text e).0, (reachable_lem ip text e).1)))
  | inl e ↦
      subst (IsAnswer (some ip ∷ addrs)) (sym (first_reachable_miss ip addrs e))
        (later-IsAnswer (some ip) addrs (first_reachable addrs) (first_reachable-IsAnswer addrs))
]

abbrev pub listed : Option (List (Option Ip)) → List (Option Ip)
listed none = []
listed (some addrs) = addrs

-- All the addresses that the network has.
abbrev pub addresses : Network → List (Option Ip)
addresses n = n.local_addr ∷ listed n.interface_addrs

interfaces-IsAnswer :
    (addrs : Option (List (Option Ip))) → IsAnswer (listed addrs) (from_interfaces addrs)
interfaces-IsAnswer none = inl refl
interfaces-IsAnswer (some addrs) = first_reachable-IsAnswer addrs

outbound-IsAnswer :
    (own : Option Ip) (addrs : Option (List (Option Ip)))
    → IsAnswer
        (own ∷ listed addrs)
        (get_outbound_ip (record { local_addr = own; interface_addrs = addrs }))
unfolding get_outbound_ip
outbound-IsAnswer none addrs =
    later-IsAnswer none (listed addrs) (from_interfaces addrs) (interfaces-IsAnswer addrs)
outbound-IsAnswer (some ip) addrs =
    let told = get_outbound_ip (record { local_addr = some ip; interface_addrs = addrs }) in
    elim (Option-cases (reachable ip)) [
      | inr (text, e) ↦
          let hit : text ≡ told = ground (arith, e) in
          subst (IsAnswer (some ip ∷ listed addrs)) hit
            (inr (inl (ip, refl, (reachable_lem ip text e).0, (reachable_lem ip text e).1)))
      | inl e ↦
          let miss : from_interfaces addrs ≡ told = ground (arith, e) in
          subst (IsAnswer (some ip ∷ listed addrs)) miss (
            later-IsAnswer (some ip) (listed addrs) (from_interfaces addrs)
              (interfaces-IsAnswer addrs))
    ]

-- The address for the LAN is none, or the IPv4 address of the local end or of an interface, and
-- never a loopback address.
pub get_outbound_ip-IsAnswer : (n : Network) → IsAnswer (addresses n) (get_outbound_ip n)
get_outbound_ip-IsAnswer n = outbound-IsAnswer n.local_addr n.interface_addrs

-- What agents may be told: the host that the request names, an address of the network with the
-- port, or the loopback address.
abbrev pub IsTold : Network → String → Visit → String → Type 0
IsTold n port v host =
    ((host ≡ named_host v) × ((is_local (named_host v) ≡ false) ⊎ (get_outbound_ip n ≡ "")))
    ⊎ ((ip : String) × (host ≡ ip <> ":" <> port)
        × IsOffered ip (addresses n)
        × (is_local (named_host v) ≡ true))
    ⊎ ((host ≡ "127.0.0.1:" <> port) × (named_host v ≡ "") × (get_outbound_ip n ≡ ""))
