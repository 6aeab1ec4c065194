-- ===== src/Registry/Persistence.antt =====
-- Loading and saving the state file (pkg/cluster/registry.go).
use crybaby.Base.{
  Absent, refl, ◌-◌, ◌^◌, sym, ◌∙◌, Distinct, ℕ, ◌≤◌, ◌<◌, ◌≡◌, String, ℤ, pos, negsuc, true, [],
  ◌∷◌, Option, none, some, All, arith, text_eq, inl, inr, Bool-cases, Option-cases, ◌≢◌,
}
use crybaby.Base.Assoc.{lookup, keys}
use crybaby.Base.Assoc.All.{lookup-All, All-lookup}
use crybaby.Base.Int.{bits}
use crybaby.Types.Node.{Node}
use crybaby.Base.Result.{ok}
use crybaby.Registry.{Storage, Registry, Nodes, save, new_registry}
use crybaby.Registry.Invariant.{IsBelow, mesh_of}
use crybaby.Registry.Invariant.Writes.{mesh_ip-Absent}
use crybaby.Base.Assoc.Fields.{field}
use crybaby.Registry.Mesh.{scan_octet, raised, raise_octet, next_octet, mesh_ip}

-- An octet that the sum after it does not take beyond 63 bits.
abbrev pub HasSmallOctet : String × Node → Type 0
HasSmallOctet e = IsBelow (2 ^ 63 - 1) e

abbrev IsSmall : Option ℤ → Type 0
IsSmall o = (octet : ℕ) → o ≡ some (pos octet) → octet < 2 ^ 63 - 1

raised-le : (next : ℕ) (o : Option ℤ) → next < 2 ^ 63 → IsSmall o → next ≤ raised next o
unfolding next_octet bits
raised-le next none h small = omega arith
raised-le next (some (negsuc n)) h small = ground (arith, h)
raised-le next (some (pos n)) h small = ground (arith, h, small n refl)

raised_small : (next : ℕ) (o : Option ℤ) → next < 2 ^ 63 → IsSmall o → raised next o < 2 ^ 63
unfolding next_octet bits
raised_small next none h small = h
raised_small next (some (negsuc n)) h small = ground (arith, h)
raised_small next (some (pos n)) h small = ground (arith, h, small n refl)

raised_above :
    (next octet : ℕ) (o : Option ℤ)
    → octet < 2 ^ 63 - 1
    → o ≡ some (pos octet)
    → octet < raised next o
unfolding next_octet bits
raised_above next octet o h e = rw e (ground (arith, h))

raise_octet_keeps :
    (next : ℕ) (m : Nodes)
    → next < 2 ^ 63
    → All HasSmallOctet m
    → (next ≤ raise_octet next m) × (raise_octet next m < 2 ^ 63)
unfolding raise_octet
raise_octet_keeps next [] h small = (omega arith, h)
raise_octet_keeps next (e ∷ m) h small =
    let o = scan_octet e.1.mesh_ip in
    let rest = raise_octet_keeps (raised next o) m (raised_small next o h small.0) small.1 in
    let up = raised-le next o h small.0 in (omega (arith, up, rest.0), rest.1)

raise_octet-IsBelow :
    (next : ℕ) (m : Nodes)
    → next < 2 ^ 63
    → All HasSmallOctet m
    → All (IsBelow (raise_octet next m)) m
unfolding raise_octet
raise_octet-IsBelow next [] h small = tt
raise_octet-IsBelow next (e ∷ m) h small =
    let o = scan_octet e.1.mesh_ip in
    let kept = raised_small next o h small.0 in
    (
      (λ octet scanned. omega (
        arith,
        raised_above next octet o (small.0 octet scanned) scanned,
        (raise_octet_keeps (raised next o) m kept small.1).0,
      )),
      raise_octet-IsBelow (raised next o) m kept small.1,
    )

-- What a registry needs of its storage: the file holds what was written, and JSON reads back what
-- it printed, as a map.
pub record IsFaithful (st : Storage) : Type 0 where
  pub written :
      (old : Option String) (text : String)
      → (st.write old text).1 ≡ true
      → (st.write old text).0 ≡ some text
  pub read_back :
      (m : Nodes) (text : String)
      → st.marshal m ≡ some text
      → ((st.unmarshal text []).1 ≡ true)
        × Distinct (keys (st.unmarshal text []).0)
        × ((k : String) → lookup k (st.unmarshal text []).0 ≡ lookup k m)

new_registry_loaded :
    (st : Storage) (token path text : String) (nodes : Nodes)
    → path ≢ ""
    → st.unmarshal text [] ≡ (nodes, true)
    → new_registry st token path (some text) ≡ record {
      nodes = nodes;
      cluster_token = token;
      next_mesh_octet = raise_octet 2 nodes;
      storage_path = path;
      file = some text;
    }
unfolding new_registry
new_registry_loaded st token path text nodes path_given e = ground arith

save_file :
    (st : Storage) (r : Registry)
    → r.storage_path ≢ ""
    → (save st r).1 ≡ ok tt
    → IsFaithful st
    → (text : String) × (st.marshal r.nodes ≡ some text) × ((save st r).0.file ≡ some text)
unfolding save
save_file st r path success f = elim (Option-cases (st.marshal r.nodes)) [
  | inl bad ↦ absurd (ground arith)
  | inr (text, e) ↦ elim (Bool-cases (st.write r.file text).1) [
    | inl fine ↦ (text, e, ground (arith, f.written r.file text))
    | inr bad ↦ absurd (ground arith)
  ]
]

-- With a storage that reads back what it wrote, a controller that starts on the file of one that
-- saved its state without an error has the same nodes, and an octet to hand out that is above those
-- of all nodes, so that the mesh address with it is none of theirs. This is for nodes whose octets are below 2^63 - 1, as else the sum wraps; then the next
-- octet is below 2^63.
pub save-new_registry :
    (st : Storage) (r : Registry) (token : String)
    → IsFaithful st
    → r.storage_path ≢ ""
    → All HasSmallOctet r.nodes
    → (save st r).1 ≡ ok tt
    → let q = new_registry st token r.storage_path (save st r).0.file in
      ((k : String) → lookup k q.nodes ≡ lookup k r.nodes)
      × All (IsBelow q.next_mesh_octet) q.nodes
      × Absent (mesh_ip q.next_mesh_octet) (field mesh_of q.nodes)
      × (q.next_mesh_octet < 2 ^ 63)
save-new_registry st r token f path small success =
    let (text, printed, file) = save_file st r path success f in
    let (fine, distinct, same) = f.read_back r.nodes text printed in
    let nodes = (st.unmarshal text []).0 in
    let pair : st.unmarshal text [] ≡ (nodes, true) = ground arith in
    let still : All HasSmallOctet nodes =
      All-lookup HasSmallOctet nodes distinct
        (λ k n found. lookup-All HasSmallOctet k r.nodes small (sym (same k) ∙ found)) in
    let below = raise_octet-IsBelow 2 nodes (omega arith) still in
    let kept = raise_octet_keeps 2 nodes (omega arith) still in
    rw (file, new_registry_loaded st token r.storage_path text nodes path pair)
      (same, below, mesh_ip-Absent (raise_octet 2 nodes) nodes kept.1 below, kept.1)
