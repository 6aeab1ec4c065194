-- ===== src/Provision/Files.antt =====
-- The files that the controller finds and packs (cmd/controller/main.go).
use crybaby.Base.{
  ◌≡◌, refl, ap, subst, inl, inr, String, true, false, List, [], ◌∷◌, ◌++◌, All, Option, none, some,
  Bool-cases, Option-cases, arith,
}
use crybaby.Provision.{FileInfo, first_file, find_binary_path, binary_candidates}

-- A path at which no file is.
abbrev pub IsNoFile : (String → Option FileInfo) → String → Type 0
IsNoFile stat p = (info : FileInfo) → stat p ≡ some info → info.is_dir ≡ true

-- The first path of a list at which a file is.
abbrev pub IsFirstFile : (String → Option FileInfo) → List String → String → FileInfo → Type 0
IsFirstFile stat ps p info =
    (before : List String) × (behind : List String) × (ps ≡ before ++ p ∷ behind)
    × (stat p ≡ some info)
    × (info.is_dir ≡ false)
    × All (IsNoFile stat) before

first_file-IsFirstFile :
    (stat : String → Option FileInfo) (ps : List String) (p : String) (info : FileInfo)
    → first_file stat ps ≡ some (p, info)
    → IsFirstFile stat ps p info
unfolding first_file
first_file-IsFirstFile stat [] p info e = absurd (ground (arith, e))
first_file-IsFirstFile stat (q ∷ qs) p info e = elim (Option-cases (stat q)) [
  | inl absent ↦
      let (before, behind, whole, found, file, others) =
        first_file-IsFirstFile stat qs p info (ground (arith, e, absent)) in
      (
        q ∷ before,
        behind,
        ap (λ l. q ∷ l) whole,
        found,
        file,
        ((λ i there. absurd (ground (arith, there, absent))), others),
      )
  | inr (i, there) ↦ elim (Bool-cases i.is_dir) [
    | inl folder ↦
        let (before, behind, whole, found, file, others) =
          first_file-IsFirstFile stat qs p info (ground (arith, e, there, folder)) in
        (
          q ∷ before,
          behind,
          ap (λ l. q ∷ l) whole,
          found,
          file,
          (
            (λ j again.
                let same : i ≡ j = ground (arith, there, again) in
                subst (λ x. x.is_dir ≡ true) same folder),
            others,
          ),
        )
    | inr file ↦
        let same_path : q ≡ p = ground (arith, e, there, file) in
        let same_info : i ≡ info = ground (arith, e, there, file) in
        subst (λ x. IsFirstFile stat (q ∷ qs) x info) same_path
          (subst (λ x. IsFirstFile stat (q ∷ qs) q x) same_info ([], qs, refl, there, file, tt))
  ]
]

none_found :
    (stat : String → Option FileInfo) (ps : List String)
    → first_file stat ps ≡ none
    → All (IsNoFile stat) ps
unfolding first_file
none_found stat [] e = tt
none_found stat (q ∷ qs) e = elim (Option-cases (stat q)) [
  | inl absent ↦ (
    (λ i there. absurd (ground (arith, there, absent))),
    none_found stat qs (ground (arith, e, absent)),
  )
  | inr (i, there) ↦ elim (Bool-cases i.is_dir) [
    | inl folder ↦ (
      (λ j again.
          let same : i ≡ j = ground (arith, there, again) in
          subst (λ x. x.is_dir ≡ true) same folder),
      none_found stat qs (ground (arith, e, there, folder)),
    )
    | inr file ↦ absurd (ground (arith, e, there, file))
  ]
]

-- A binary is served from the first of the three directories bin, ../../bin and ../bin that has a
-- file of its name, whatever directories of that name stand before; it is an error only if none of
-- the three has one.
pub find_binary_path_lem :
    (stat : String → Option FileInfo) (name : String)
    → ((p : String) (info : FileInfo)
        → find_binary_path stat name ≡ some (p, info)
        → IsFirstFile stat (binary_candidates name) p info)
      × (find_binary_path stat name ≡ none → All (IsNoFile stat) (binary_candidates name))
unfolding find_binary_path
find_binary_path_lem stat name = (
  (λ p info e. first_file-IsFirstFile stat (binary_candidates name) p info e),
  (λ e. none_found stat (binary_candidates name) e),
)
