-- ===== src/Iso.antt =====
-- pkg/iso/catalog.go: the jobs that download images. The network, the file system, url.Parse and
-- the random identifier are arguments; a body is the sequence of reads that it gives.
pub mod Download
pub mod Catalog
pub mod Sizes
use crybaby.Base.{
  ℕ, ◌+◌, String, ℤ, pos, negsuc, Bool, true, false, not, ◌&&◌, ◌||◌, List, [], ◌∷◌, ◌++◌, map,
  Option, none, some, ◌==◌, nat_eq, text_eq, if◌then◌else◌, length,
}
use crybaby.Base.Assoc.{lookup, insert}
use crybaby.Base.Decimal.{show}
use crybaby.Base.Int.{◌+ℤ◌, nonpositive}
use crybaby.Base.Result.{Result, ok, err}
use crybaby.Base.Text.{◌<>◌}
use crybaby.Base.Unicode.{Unicode}
use crybaby.Types.Node.{Time, Float64}

pub record DownloadJob : Type 0 where
  pub id : String
  pub url : String
  pub filename : String
  pub total_bytes : ℤ
  pub downloaded : ℤ
  pub progress_pct : Float64
  pub status : String
  pub error : String
  pub started_at : Time

abbrev pub Jobs : Type 0
Jobs = List (String × DownloadJob)

abbrev pub Chunk : Type 0
Chunk = List ℕ

-- The reads of a body: the last one brings io.EOF or an error, perhaps with some bytes.
pub data Body : Type 0 where
  more : Chunk → Body → Body
  last : Chunk → Option String → Body

-- The contents of the part file and of the file that is downloaded.
pub record Disk : Type 0 where
  pub part : Option Chunk
  pub dest : Option Chunk

pub record Transfer : Type 0 where
  pub get : String → Result String (ℕ × ℤ × Body)
  -- the errors of `os.Create`, of the write of a chunk behind what is written, of `os.Rename` and
  -- of `os.Remove`
  pub create : Option String
  pub write : Chunk → Chunk → Option String
  pub rename : Option String
  pub remove : Option String
  -- `float64(downloaded) / float64(total) * 100.0`, and `100.0`
  pub progress : ℤ → ℤ → Float64
  pub hundred : Float64

abbrev pub fail_job : DownloadJob → String → DownloadJob
fail_job job message = record job { status = "failed"; error = message }

module _ (t : Transfer) where
  -- `_ = os.Remove(partPath)`
  abbrev pub without_part : Disk → Disk
  without_part disk = elim t.remove [ none ↦ record disk { part = none } | some _ ↦ disk ]

  abbrev pub advanced : ℤ → ℤ → DownloadJob → DownloadJob
  advanced total downloaded job = record job {
    downloaded = downloaded;
    progress_pct = if nonpositive total then job.progress_pct else t.progress downloaded total;
  }

  -- the part of the loop under `n > 0`: the job, the bytes counted and those written
  unfoldable pub receive :
      ℤ → Chunk → DownloadJob × ℤ × Chunk → Result String (DownloadJob × ℤ × Chunk)
  receive total chunk (job, downloaded, part) =
      if length chunk == 0 then ok (job, downloaded, part) else elim (t.write part chunk) [
        | some e ↦ err ("write error: " <> e)
        | none ↦
            let downloaded' = downloaded +ℤ pos (length chunk) in
            ok (advanced total downloaded' job, downloaded', part ++ chunk)
      ]

  abbrev pub aborted : DownloadJob → Disk → String → DownloadJob × Disk
  aborted job disk message = (fail_job job message, without_part disk)

  -- the part behind the loop
  abbrev pub finalize : DownloadJob → Disk → Chunk → DownloadJob × Disk
  finalize job disk part = elim t.rename [
    | some e ↦ aborted job (record disk { part = some part }) ("failed to finalize file: " <> e)
    | none ↦ (
      record job { status = "completed"; progress_pct = t.hundred },
      record disk { part = none; dest = some part },
    )
  ]

  -- the loop over the reads
  unfoldable pub stream : ℤ → Body → DownloadJob × ℤ × Chunk → Disk → DownloadJob × Disk
  unfolding receive
  stream total (more chunk body) s disk = elim (receive total chunk s) [
    | err message ↦ aborted s.0 disk message
    | ok s' ↦ stream total body s' disk
  ]
  stream total (last chunk e) s disk = elim (receive total chunk s) [
    | err message ↦ aborted s.0 disk message
    | ok (job, downloaded, part) ↦ elim e [
      | none ↦ finalize job disk part
      | some m ↦ aborted job disk ("read error: " <> m)
    ]
  ]

  -- the answer with code 200
  abbrev pub transfer : DownloadJob → Disk → ℤ → Body → DownloadJob × Disk
  transfer job disk total body =
      let job' = record job { total_bytes = total } in
      elim t.create [
        | some e ↦ (fail_job job' ("failed to create destination file: " <> e), disk)
        | none ↦ stream total body (job', pos 0, []) (record disk { part = some [] })
      ]

  unfoldable pub execute_download : DownloadJob → Disk → DownloadJob × Disk
  unfolding stream
  execute_download job disk = elim (t.get job.url) [
    | err e ↦ (fail_job job ("HTTP connection failed: " <> e), disk)
    | ok (code, total, body) ↦
        if code == 200
        then transfer job disk total body
        else (fail_job job ("server returned HTTP " <> show code), disk)
  ]

-- `strings.HasSuffix(s, suffix)`
unfoldable pub has_suffix : String → String → Bool
has_suffix suffix String.[] = suffix == ""
has_suffix suffix (String.◌∷◌ c s) =
    let rest = has_suffix suffix s in if String.◌∷◌ c s == suffix then true else rest

-- The name of the file for a request's name and the path of its URL; `base` is filepath.Base.
unfoldable pub file_name : Unicode → (String → String) → String → String → String
unfolding has_suffix
file_name u base path filename =
    let asked = if filename == "" then base path else filename in
    let named =
      if asked == "" || (asked == "." || asked == "/") then "downloaded-image.iso" else asked in
    let is_image = has_suffix ".iso" (u.lower named) || has_suffix ".img" (u.lower named) in
    base (if is_image then named else named <> ".iso")

-- `StartDownload`, without the goroutine that executes the job: `parse` gives the scheme and the
-- path of a URL, `id` and `now` are the new identifier and the clock's reading.
unfoldable pub start_download :
    Unicode
    → (String → String)
    → (String → Option (String × String))
    → String
    → Time
    → Jobs
    → String
    → String
    → Jobs × Result String DownloadJob
unfolding file_name
start_download u base parse id now jobs raw_url filename = elim (parse raw_url) [
  | none ↦ (jobs, err "invalid HTTP/HTTPS download URL")
  | some (scheme, path) ↦
      if scheme == "http" || scheme == "https"
      then (let job : DownloadJob = record {
        id = id;
        url = raw_url;
        filename = file_name u base path filename;
        total_bytes = pos 0;
        downloaded = pos 0;
        progress_pct = 0;
        status = "downloading";
        error = "";
        started_at = now;
      } in
          (insert id job jobs, ok job))
      else (jobs, err "invalid HTTP/HTTPS download URL")
]

unfoldable pub get_job : Jobs → String → Option DownloadJob
get_job jobs id = lookup id jobs

unfoldable pub list_jobs : Jobs → List DownloadJob
list_jobs jobs = map (λ e. e.1) jobs
