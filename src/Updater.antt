-- ===== src/Updater.antt =====
-- pkg/updater/updater.go: the replacement of an agent's binary. The file system, net/http, os/exec
-- and path/filepath are arguments; a file's content is a list of bytes.
pub mod Writes
pub mod Replacement
use crybaby.Base.{
  ℕ, ◌≤◌, String, Bool, true, false, not, ◌&&◌, List, [], ◌∷◌, Option, none, some, ◌==◌, nat_eq,
  text_eq, if◌then◌else◌, ltb, length,
}
use crybaby.Base.Decimal.{show}
use crybaby.Base.Result.{Result, ok, err}
use crybaby.Base.Text.{◌<>◌}

abbrev pub Bytes : Type 0
Bytes = List ℕ

abbrev pub Files : Type 0
Files = String → Option Bytes

abbrev pub put : Files → String → Option Bytes → Files
put files path content q = if path == q then content else files q

-- A request to the server: no answer, or a code, the body read, and the error of reading it.
abbrev pub Download : Type 0
Download = Result String (ℕ × Bytes × Option String)

pub record System : Type 0 where
  -- `os.Executable`
  pub executable : Result String String
  pub clean : String → String
  pub dir : String → String
  pub base : String → String
  pub join : String → String → String
  pub get : String → Download
  -- `os.WriteFile`: a file's content before and the data, to the content afterwards and the error
  pub write : String → Option Bytes → Bytes → Option Bytes × Option String
  -- the errors of `os.Rename`, `os.Remove` and `cmd.Start`
  pub rename : String → String → Option String
  pub remove : String → Option String
  pub start : String → Option String
  pub is_windows : Bool
  -- the bytes of a text
  pub encode : String → Bytes

abbrev pub min_binary_size_bytes : ℕ
min_binary_size_bytes = 1048576

abbrev pub too_small : ℕ → String
too_small n =
    "downloaded binary too small ("
    <> show n
    <> " bytes, minimum "
    <> show min_binary_size_bytes
    <> " bytes expected)"

-- the two headers: MZ, and 0x7F ELF
abbrev pub is_pe : Bytes → Bool
is_pe (a ∷ b ∷ rest) = a == 77 && b == 90
is_pe _ = false

abbrev pub is_elf : Bytes → Bool
is_elf (a ∷ b ∷ c ∷ d ∷ rest) = a == 127 && (b == 69 && (c == 76 && d == 70))
is_elf _ = false

unfoldable pub validate_binary : Bytes → Option String
validate_binary bytes =
    if ltb (length bytes) min_binary_size_bytes
    then some (too_small (length bytes))
    else if is_pe bytes
    then none
    else if is_elf bytes
    then none
    else some "downloaded payload is not a valid executable binary (unrecognized header)"

module _ (sys : System) where
  -- `_ = os.Remove(path)`
  abbrev pub removed : Files → String → Files
  removed files path = elim (sys.remove path) [ none ↦ put files path none | some _ ↦ files ]

  -- `os.WriteFile(path, data, 0755)`
  abbrev pub write_file : Files → String → Bytes → Files × Option String
  write_file files path bytes =
      let (content, e) = sys.write path (files path) bytes in (put files path content, e)

  abbrev pub script : String → String
  script exe_name =
      "@echo off\ntimeout /t 2 /nobreak >nul\nnet stop CrybabyAgent >nul 2>&1\ncopy /y \"%~dp0"
      <> exe_name <> ".new\" \"%~dp0" <> exe_name <> "\" >nul 2>&1\ndel /f /q \"%~dp0" <> exe_name
      <> ".new\" >nul 2>&1\nnet start CrybabyAgent >nul 2>&1\ndel \"%~f0\" >nul 2>&1\n"

  -- the script's start
  abbrev pub launched : String → String → Files → Files × Option String
  launched new_exe_path script_path files = elim (sys.start script_path) [
    | none ↦ (files, none)
    | some e ↦ (
      removed (removed files new_exe_path) script_path,
      some ("failed to spawn updater script: " <> e),
    )
  ]

  abbrev pub scripted : String → String → Files × Option String → Files × Option String
  scripted new_exe_path script_path (files, none) = launched new_exe_path script_path files
  scripted new_exe_path script_path (files, some e) =
      (removed files new_exe_path, some ("failed to write updater batch script: " <> e))

  -- the rename, which moves the file if it does not fail
  abbrev pub renamed : String → String → Files → Files × Option String
  renamed new_exe_path exe_path files = elim (sys.rename new_exe_path exe_path) [
    | none ↦ (put (put files exe_path (files new_exe_path)) new_exe_path none, none)
    | some e ↦ (removed files new_exe_path, some ("failed to replace binary: " <> e))
  ]

  -- the part behind the staging
  abbrev pub replace : String → String → String → Files → Files × Option String
  replace exe_path exe_name new_exe_path files =
      if sys.is_windows
      then (let script_path = sys.join (sys.dir exe_path) "apply-update.bat" in
          scripted new_exe_path script_path
            (write_file files script_path (sys.encode (script exe_name))))
      else renamed new_exe_path exe_path files

  abbrev pub staged : String → String → String → Files × Option String → Files × Option String
  staged exe_path exe_name new_exe_path (files, none) = replace exe_path exe_name new_exe_path files
  staged exe_path exe_name new_exe_path (files, some e) =
      (files, some ("failed to write staging binary to " <> new_exe_path <> ": " <> e))

  abbrev pub install : String → String → String → Files → Bytes → Files × Option String
  install exe_path exe_name new_exe_path files bytes = elim (validate_binary bytes) [
    | some e ↦ (files, some ("binary validation failed: " <> e))
    | none ↦ staged exe_path exe_name new_exe_path (write_file files new_exe_path bytes)
  ]

  abbrev pub downloaded :
      String → String → String → Files → String → Download → Files × Option String
  downloaded exe_path exe_name new_exe_path files url (err e) =
      (files, some ("failed to download update from " <> url <> ": " <> e))
  downloaded exe_path exe_name new_exe_path files url (ok (code, bytes, e)) =
      if code == 200
      then elim e [
        | some e' ↦ (files, some ("failed to read binary payload: " <> e'))
        | none ↦ install exe_path exe_name new_exe_path files bytes
      ]
      else (files, some ("download server returned HTTP " <> show code))

  -- the path of the binary that is staged
  abbrev pub new_path : String → String
  new_path exe_path = sys.join (sys.dir exe_path) (sys.base exe_path <> ".new")

  unfoldable pub update_at : String → Files → String → Files × Option String
  unfolding validate_binary
  update_at exe_path files url =
      downloaded exe_path (sys.base exe_path) (new_path exe_path) files url (sys.get url)

  unfoldable pub apply_update : Files → String → String → Files × Option String
  unfolding update_at
  apply_update files url current_exe_path =
      if current_exe_path == ""
      then elim sys.executable [
        | err e ↦ (files, some ("failed to determine current executable path: " <> e))
        | ok exe ↦ update_at (sys.clean exe) files url
      ]
      else update_at (sys.clean current_exe_path) files url
