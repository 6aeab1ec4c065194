-- ===== src/Updater/Replacement.antt =====
-- A binary is replaced by a valid one or not at all (pkg/updater/updater.go).
use crybaby.Base.{
  String, ◌≡◌, ◌≢◌, refl, true, false, Option, none, some, ◌==◌, nat_eq, text_eq, arith,
  Option-cases, ◌⊎◌, inl, inr, ◌∙◌, if-cases, ==_eq, ap,
}
use crybaby.Base.Result.{ok, err}
use crybaby.Updater.Writes.{put_self, put_ne, removed_ne}
use crybaby.Updater.{
  Bytes, Files, System, put, validate_binary, update_at, new_path, removed, renamed, replace,
  staged, install, launched, scripted, script, downloaded, Download,
}

-- `os.WriteFile` without an error leaves the data in the file.
abbrev pub IsWriting : System → Type 0
IsWriting sys =
    (path : String) (old : Option Bytes) (bytes : Bytes)
    → (sys.write path old bytes).1 ≡ none
    → (sys.write path old bytes).0 ≡ some bytes

module _ (sys : System) (exe : String) where
  -- What the outcome of an update says of the binary at the path: an error leaves it as it was; so
  -- does success on Windows, where the new binary is staged, and elsewhere it is the new binary.
  abbrev pub IsReplaced : Files → Bytes → Files × Option String → Type 0
  IsReplaced files bytes o =
      ((o.1 ≢ none → o.0 exe ≡ files exe)
        × (o.1 ≡ none → sys.is_windows ≡ false → o.0 exe ≡ some bytes)
        × (o.1 ≡ none
            → sys.is_windows ≡ true
            → (o.0 exe ≡ files exe) × (o.0 (new_path sys exe) ≡ some bytes)))

  -- The new binary is staged and the old one is in its place.
  abbrev IsReady : Files → Bytes → Files → Type 0
  IsReady files bytes now = (now exe ≡ files exe) × (now (new_path sys exe) ≡ some bytes)

  renamed-IsReplaced :
      (files now : Files) (bytes : Bytes)
      → IsReady files bytes now
      → new_path sys exe ≢ exe
      → sys.is_windows ≡ false
      → IsReplaced files bytes (renamed sys (new_path sys exe) exe now)
  renamed-IsReplaced files now bytes ready ne unix =
      elim (Option-cases (sys.rename (new_path sys exe) exe)) [
        | inl e ↦
            rw (e, renamed)
              (
                (λ h. absurd (h refl)),
                (λ _ _.
                    (put_ne (put now exe (now (new_path sys exe))) (new_path sys exe) exe none ne
                      ∙ put_self now exe (now (new_path sys exe)))
                    ∙ ready.1),
                (λ _ w. absurd (ground (arith, w, unix))),
              )
        | inr (m, e) ↦
            rw (e, renamed)
              (
                (λ _. removed_ne sys now (new_path sys exe) exe ne ∙ ready.0),
                (λ h _. absurd (ground arith)),
                (λ h _. absurd (ground arith)),
              )
      ]

  launched-IsReplaced :
      (files now : Files) (bytes : Bytes) (script_path : String)
      → IsReady files bytes now
      → new_path sys exe ≢ exe
      → script_path ≢ exe
      → sys.is_windows ≡ true
      → IsReplaced files bytes (launched sys (new_path sys exe) script_path now)
  launched-IsReplaced files now bytes script_path ready ne ne' windows =
      elim (Option-cases (sys.start script_path)) [
        | inl e ↦
            rw (e, launched)
              ((λ h. absurd (h refl)), (λ _ u. absurd (ground (arith, u, windows))), (λ _ _. ready))
        | inr (m, e) ↦
            rw (e, launched)
              (
                (λ _.
                    removed_ne sys (removed sys now (new_path sys exe)) script_path exe ne'
                    ∙ (removed_ne sys now (new_path sys exe) exe ne ∙ ready.0)),
                (λ h _. absurd (ground arith)),
                (λ h _. absurd (ground arith)),
              )
      ]

  -- A write elsewhere leaves both.
  put-IsReady :
      (files now : Files) (bytes : Bytes) (p : String) (c : Option Bytes)
      → IsReady files bytes now
      → p ≢ exe
      → p ≢ new_path sys exe
      → IsReady files bytes (put now p c)
  put-IsReady files now bytes p c ready ne ne' =
      (put_ne now p exe c ne ∙ ready.0, put_ne now p (new_path sys exe) c ne' ∙ ready.1)

  scripted-IsReplaced :
      (files now : Files) (bytes : Bytes) (script_path : String) (e : Option String)
      → IsReady files bytes now
      → new_path sys exe ≢ exe
      → script_path ≢ exe
      → sys.is_windows ≡ true
      → IsReplaced files bytes (scripted sys (new_path sys exe) script_path (now, e))
  scripted-IsReplaced files now bytes script_path none ready ne ne' windows =
      launched-IsReplaced files now bytes script_path ready ne ne' windows
  scripted-IsReplaced files now bytes script_path (some m) ready ne ne' windows = (
    (λ _. removed_ne sys now (new_path sys exe) exe ne ∙ ready.0),
    (λ h _. absurd (ground arith)),
    (λ h _. absurd (ground arith)),
  )

  abbrev script_path : String
  script_path = sys.join (sys.dir exe) "apply-update.bat"

  replace-IsReplaced :
      (files now : Files) (bytes : Bytes)
      → IsReady files bytes now
      → new_path sys exe ≢ exe
      → script_path ≢ exe
      → script_path ≢ new_path sys exe
      → IsReplaced files bytes (replace sys exe (sys.base exe) (new_path sys exe) now)
  replace-IsReplaced files now bytes ready ne ne' ne'' =
      let w = sys.write script_path (now script_path) (sys.encode (script sys (sys.base exe))) in
      if-cases (IsReplaced files bytes) sys.is_windows _ _
        (λ windows.
          scripted-IsReplaced files (put now script_path w.0) bytes script_path w.1
            (put-IsReady files now bytes script_path w.0 ready ne' ne'') ne ne' windows)
        (λ unix. renamed-IsReplaced files now bytes ready ne unix)

  -- An outcome that fails and leaves the binary.
  failed-IsReplaced :
      (files now : Files) (bytes : Bytes) (e : String)
      → now exe ≡ files exe
      → IsReplaced files bytes (now, some e)
  failed-IsReplaced files now bytes e kept =
      ((λ _. kept), (λ h _. absurd (ground arith)), (λ h _. absurd (ground arith)))

  staged-IsReplaced :
      (files now : Files) (bytes : Bytes) (e : Option String)
      → now exe ≡ files exe
      → (e ≡ none → IsReady files bytes now)
      → new_path sys exe ≢ exe
      → script_path ≢ exe
      → script_path ≢ new_path sys exe
      → IsReplaced files bytes (staged sys exe (sys.base exe) (new_path sys exe) (now, e))
  staged-IsReplaced files now bytes none kept ready ne ne' ne'' =
      replace-IsReplaced files now bytes (ready refl) ne ne' ne''
  staged-IsReplaced files now bytes (some m) kept ready ne ne' ne'' =
      failed-IsReplaced files now bytes _ kept

  install-IsReplaced :
      (files : Files) (bytes : Bytes)
      → IsWriting sys
      → new_path sys exe ≢ exe
      → script_path ≢ exe
      → script_path ≢ new_path sys exe
      → validate_binary bytes ≡ none
      → IsReplaced files bytes (install sys exe (sys.base exe) (new_path sys exe) files bytes)
  install-IsReplaced files bytes writes ne ne' ne'' valid =
      let path = new_path sys exe in
      let w = sys.write path (files path) bytes in
      let kept = put_ne files path exe w.0 ne in
      rw (valid, install)
        (staged-IsReplaced files (put files path w.0) bytes w.1 kept
          (λ fine. (kept, put_self files path w.0 ∙ writes path (files path) bytes fine)) ne ne'
          ne'')

  -- Nothing is installed, or a valid binary that the server has sent.
  abbrev pub IsSound : Files → Download → Files × Option String → Type 0
  IsSound files d o =
      ((o.1 ≢ none) × (o.0 exe ≡ files exe))
      ⊎ ((bytes : Bytes) × (d ≡ ok (200, bytes, none))
          × (validate_binary bytes ≡ none)
          × IsReplaced files bytes o)

  downloaded-IsSound :
      (files : Files) (url : String) (d : Download)
      → IsWriting sys
      → new_path sys exe ≢ exe
      → script_path ≢ exe
      → script_path ≢ new_path sys exe
      → IsSound files d (downloaded sys exe (sys.base exe) (new_path sys exe) files url d)
  downloaded-IsSound files url (err e) writes ne ne' ne'' = inl ((λ h. absurd (ground arith)), refl)
  downloaded-IsSound files url (ok (code, bytes, some e)) writes ne ne' ne'' =
      if-cases (IsSound files (ok (code, bytes, some e))) (code == 200) _ _
        (λ _. inl ((λ h. absurd (ground arith)), refl))
        (λ _. inl ((λ h. absurd (ground arith)), refl))
  downloaded-IsSound files url (ok (code, bytes, none)) writes ne ne' ne'' =
      if-cases (IsSound files (ok (code, bytes, none))) (code == 200) _ _
        (λ good. elim (Option-cases (validate_binary bytes)) [
          | inl valid ↦ inr (
            bytes,
            ap (λ c. ok (c, bytes, none)) (==_eq code 200 good),
            valid,
            install-IsReplaced files bytes writes ne ne' ne'' valid,
          )
          | inr (e, bad) ↦ rw (bad, install) (inl ((λ h. absurd (ground arith)), refl))
        ])
        (λ _. inl ((λ h. absurd (ground arith)), refl))

  -- An update of the binary at the path either ends with an error and leaves the binary as it was,
  -- or it has fetched, with code 200, a binary that is large enough and has a known header. Then
  -- the binary is that one, or, on Windows, stands beside the old one for the script that copies
  -- it. This is for a path that differs from those of the staged binary and of the script, and a
  -- write that leaves the data if it has no error.
  pub update_at-IsReplaced :
      (files : Files) (url : String)
      → IsWriting sys
      → new_path sys exe ≢ exe
      → script_path ≢ exe
      → script_path ≢ new_path sys exe
      → IsSound files (sys.get url) (update_at sys exe files url)
  unfolding update_at
  update_at-IsReplaced files url writes ne ne' ne'' =
      downloaded-IsSound files url (sys.get url) writes ne ne' ne''
