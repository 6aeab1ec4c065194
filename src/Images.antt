-- ===== src/Images.antt =====
-- The handlers of the images in cmd/controller/main.go, over pkg/iso/catalog.go.
pub mod Requests
use crybaby.Base.{
  ℕ, String, ℤ, Bool, true, false, List, [], ◌∷◌, Option, none, some, ◌==◌, if◌then◌else◌,
}
use crybaby.Base.Result.{Result, ok, err}
use crybaby.Base.Unicode.{Unicode}
use crybaby.Http.{post, method_eq, Request}
use crybaby.Iso.{Jobs, DownloadJob, start_download, list_jobs}
use crybaby.Iso.Catalog.{IsoFile, Directory, list_isos}
use crybaby.Types.Node.{Time}

pub data Answer : Type 0 where
  files : List IsoFile → Answer
  job : DownloadJob → Answer
  jobs : List DownloadJob → Answer
  error : String → Answer

-- What the handlers use besides the jobs.
pub record Library : Type 0 where
  pub unicode : Unicode
  -- `filepath.Base`; `url.ParseRequestURI`, for the scheme and the path
  pub base : String → String
  pub parse : String → Option (String × String)
  -- a new identifier, and the clock
  pub id : String
  pub now : Time
  -- the decoder of a URL and a file name
  pub decode : String → (String × String) × Bool

unfoldable pub handle_list_isos : Unicode → (ℕ → ℕ → String) → Directory → ℕ × Answer
unfolding list_isos
handle_list_isos u fixed dir = elim (list_isos u fixed dir) [
  | err e ↦ (500, error e)
  | ok list ↦ (200, files list)
]

abbrev pub started : Jobs × Result String DownloadJob → Jobs × ℕ × Answer
started (js, ok j) = (js, 202, job j)
started (js, err e) = (js, 400, error e)

abbrev pub downloading : Library → Jobs → (String × String) × Bool → Jobs × ℕ × Answer
downloading l js ((url, filename), true) =
    started (start_download l.unicode l.base l.parse l.id l.now js url filename)
downloading l js (req, false) = (js, 400, error "Invalid request JSON")

unfoldable pub handle_download_iso : Library → Jobs → Request → Jobs × ℕ × Answer
handle_download_iso l js r =
    if r.method == post
    then downloading l js (l.decode r.body)
    else (js, 405, error "Method not allowed")

unfoldable pub handle_list_iso_downloads : Jobs → ℕ × Answer
unfolding list_jobs
handle_list_iso_downloads js = (200, jobs (list_jobs js))
