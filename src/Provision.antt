-- ===== src/Provision.antt =====
-- What cmd/controller/main.go hands to a new node: the controller's address, the profile, the
-- agent's binaries and the USB pack. Interfaces, files and the clock are arguments.
pub mod Address
pub mod Files
pub mod Installers
use crybaby.Base.{
  ℕ, String, ℤ, Bool, true, false, not, ◌||◌, ◌&&◌, List, [], ◌∷◌, ◌++◌, Option, none, some, ◌==◌,
  text_eq, if◌then◌else◌,
}
use crybaby.Base.Spaces.{has_prefix}
use crybaby.Base.Text.{◌<>◌}
use crybaby.Types.Cluster.{UsbProvisionProfile}
use mathlib.Core.Option

-- A `net.IP`: whether it is a loopback address, and its text if it is of four bytes.
pub record Ip : Type 0 where
  pub is_loopback : Bool
  pub to4 : Option String

-- The text of an address that others can reach.
unfoldable pub reachable : Ip → Option String
reachable ip = if ip.is_loopback then none else ip.to4

-- the loop over the interfaces' addresses, `none` for one that is no `*net.IPNet`
unfoldable pub first_reachable : List (Option Ip) → String
unfolding reachable
first_reachable [] = ""
first_reachable (none ∷ addrs) = first_reachable addrs
first_reachable (some ip ∷ addrs) = elim (reachable ip) [
  | some text ↦ text
  | none ↦ first_reachable addrs
]

-- What package net gives: the local address of the connection, if there is one, and the addresses
-- of the interfaces, if they can be listed.
pub record Network : Type 0 where
  pub local_addr : Option Ip
  pub interface_addrs : Option (List (Option Ip))

abbrev pub from_interfaces : Option (List (Option Ip)) → String
from_interfaces none = ""
from_interfaces (some addrs) = first_reachable addrs

unfoldable pub get_outbound_ip : Network → String
unfolding reachable first_reachable
get_outbound_ip n = elim n.local_addr [
  | none ↦ from_interfaces n.interface_addrs
  | some ip ↦ elim (reachable ip) [ some text ↦ text | none ↦ from_interfaces n.interface_addrs ]
]

-- What a request says of the host: the query's `host`, the header Host, X-Forwarded-Proto, TLS.
pub record Visit : Type 0 where
  pub query_host : String
  pub host : String
  pub forwarded_proto : String
  pub has_tls : Bool

-- The host that the request names.
abbrev pub named_host : Visit → String
named_host v = if v.query_host == "" then v.host else v.query_host

-- A host that only this machine can reach, or none.
unfoldable pub is_local : String → Bool
is_local host = host == "" || has_prefix host "localhost" || has_prefix host "127.0.0.1"

unfoldable pub resolve_controller_host : Network → String → Visit → String
unfolding get_outbound_ip is_local
resolve_controller_host n port v =
    let host = named_host v in
    let lan_ip = get_outbound_ip n in
    if is_local host
    then (if not (lan_ip == "")
        then lan_ip <> ":" <> port
        else if host == ""
        then "127.0.0.1:" <> port
        else host)
    else host

unfoldable pub resolve_scheme : Visit → String
resolve_scheme v = if v.forwarded_proto == "https" || v.has_tls then "https" else "http"

-- `fmt.Sprintf("%s://%s", scheme, host)`
unfoldable pub controller_url : Network → String → Visit → String
unfolding resolve_controller_host resolve_scheme
controller_url n port v = resolve_scheme v <> "://" <> resolve_controller_host n port v

-- The profile; `created_at` is the clock's reading by RFC 3339.
unfoldable pub usb_profile : Network → String → String → String → Visit → UsbProvisionProfile
unfolding controller_url
usb_profile n port cluster_token created_at v = record {
  controller_url = controller_url n port v;
  cluster_token = cluster_token;
  cluster_name = "Crybaby-Primary-Cluster";
  created_at = created_at;
}

-- The answer of `handleUSBProfile`: the profile, the host and the URL.
unfoldable pub handle_usb_profile :
    Network → String → String → String → Visit → UsbProvisionProfile × String × String
unfolding usb_profile resolve_controller_host
handle_usb_profile n port cluster_token created_at v =
    let profile = usb_profile n port cluster_token created_at v in
    (profile, resolve_controller_host n port v, profile.controller_url)

-- The size of a file and whether it is a directory, as `os.Stat` tells.
pub record FileInfo : Type 0 where
  pub size : ℤ
  pub is_dir : Bool

-- The paths that `filepath.Join` makes of the three directories.
abbrev pub binary_candidates : String → List String
binary_candidates name = ("bin/" <> name) ∷ ("../../bin/" <> name) ∷ ("../bin/" <> name) ∷ []

-- the loop of `findBinaryPath`
unfoldable pub first_file : (String → Option FileInfo) → List String → Option (String × FileInfo)
first_file stat [] = none
first_file stat (p ∷ ps) =
    let rest = first_file stat ps in
    elim (stat p) [ none ↦ rest | some info ↦ if info.is_dir then rest else some (p, info) ]

unfoldable pub find_binary_path : (String → Option FileInfo) → String → Option (String × FileInfo)
unfolding first_file
find_binary_path stat name = first_file stat (binary_candidates name)

unfoldable pub find_file_candidate :
    (String → Option String) → List String → Option (String × String)
find_file_candidate read [] = none
find_file_candidate read (p ∷ ps) =
    let rest = find_file_candidate read ps in
    elim (read p) [ none ↦ rest | some bytes ↦ some (p, bytes) ]

-- The answer for a binary: an error, or the file with its name for the browser and its size.
pub data BinaryAnswer : Type 0 where
  not_found : String → BinaryAnswer
  served : String → String → ℤ → BinaryAnswer

abbrev pub serving : String → String → Option (String × FileInfo) → BinaryAnswer
serving name message none = not_found message
serving name message (some (path, info)) = served path name info.size

unfoldable pub handle_serve_agent_binary : (String → Option FileInfo) → BinaryAnswer
unfolding find_binary_path
handle_serve_agent_binary stat =
    serving "crybaby-agent.exe"
      "Agent binary not found in bin/crybaby-agent.exe. Please build it first on controller via: GOOS=windows GOARCH=amd64 go build -o bin/crybaby-agent.exe ./cmd/agent"
      (find_binary_path stat "crybaby-agent.exe")

unfoldable pub handle_serve_linux_agent_binary : (String → Option FileInfo) → BinaryAnswer
unfolding find_binary_path
handle_serve_linux_agent_binary stat =
    serving "crybaby-agent-linux"
      "Linux agent binary not found in bin/crybaby-agent-linux. Please build it first on controller via: GOOS=linux GOARCH=amd64 go build -o bin/crybaby-agent-linux ./cmd/agent"
      (find_binary_path stat "crybaby-agent-linux")

-- The files of a pack: the name and the bytes of each.
abbrev pub Pack : Type 0
Pack = List (String × String)

-- A file is packed if it is found and can be begun in the archive.
unfoldable pub packed : (String → Bool) → String → Option (String × String) → Pack
packed can_create name none = []
packed can_create name (some (_, bytes)) = if can_create name then (name, bytes) ∷ [] else []

-- The three places of a file of the repository.
abbrev pub places : String → List String
places path = path ∷ ("../../" <> path) ∷ ("../" <> path) ∷ []

-- `handleUSBZip`: `marshal` indents the profile, `read` reads a file, and `can_create` tells which
-- files the archive takes.
unfoldable pub handle_usb_zip :
    (UsbProvisionProfile → String)
    → (String → Option String)
    → (String → Bool)
    → UsbProvisionProfile
    → Pack
unfolding packed find_file_candidate
handle_usb_zip marshal read can_create cfg =
    packed can_create "crybaby-config.json" (some ("", marshal cfg))
    ++ packed can_create "install.bat" (find_file_candidate read (places "scripts/install.bat"))
    ++ packed can_create "enable-hyperv.ps1"
        (find_file_candidate read (places "scripts/enable-hyperv.ps1"))
    ++ packed can_create "crybaby-agent.exe"
        (find_file_candidate read (places "bin/crybaby-agent.exe"))
    ++ packed can_create "uninstall.bat" (find_file_candidate read (places "scripts/uninstall.bat"))
