-- ===== src/Images/Requests.antt =====
-- What a request to download an image does (cmd/controller/main.go with pkg/iso/catalog.go).
use crybaby.Base.{
  ℕ, ◌≡◌, refl, ap, ◌∙◌, pos, if-cases, ◌⊎◌, inl, inr, String, Bool, true, false, ◌||◌, none, some,
  Option-cases, Bool-cases, arith, ◌==◌, text_eq, ==_eq,
}
use crybaby.Base.Assoc.{insert}
use crybaby.Http.{post, method_eq, Request}
use crybaby.Images.{Answer, Library, started, downloading, handle_download_iso}
use crybaby.Images
use crybaby.Iso.{Jobs, DownloadJob, start_download, file_name}

-- The job that a request begins.
abbrev pub begun : Library → String → String → String → DownloadJob
begun l url path filename = record {
  id = l.id;
  url = url;
  filename = file_name l.unicode l.base path filename;
  total_bytes = pos 0;
  downloaded = pos 0;
  progress_pct = 0;
  status = "downloading";
  error = "";
  started_at = l.now;
}

-- The job of a decoded body was stored and answered with 202.
abbrev pub IsBegun : Library → Jobs → (String × String) × Bool → Jobs × ℕ × Answer → Type 0
IsBegun l js body t =
    (url : String) × (filename : String) × (path : String) × (body ≡ ((url, filename), true))
    × ((l.parse url ≡ some ("http", path)) ⊎ (l.parse url ≡ some ("https", path)))
    × (t
        ≡ (insert l.id (begun l url path filename) js, 202, Images.job (begun l url path filename)))

abbrev pub IsRefused : Jobs → Jobs × ℕ × Answer → Type 0
IsRefused js t = ((t.1 ≡ 400) ⊎ (t.1 ≡ 405)) × (t.0 ≡ js)

start_http :
    (l : Library) (js : Jobs) (url filename scheme path : String)
    → l.parse url ≡ some (scheme, path)
    → (scheme == "http" || scheme == "https") ≡ true
    → started (start_download l.unicode l.base l.parse l.id l.now js url filename)
      ≡ (insert l.id (begun l url path filename) js, 202, Images.job (begun l url path filename))
unfolding start_download
start_http l js url filename scheme path parsed web = rw (start_download, parsed, web) refl

start_other :
    (l : Library) (js : Jobs) (url filename scheme path : String)
    → l.parse url ≡ some (scheme, path)
    → (scheme == "http" || scheme == "https") ≡ false
    → IsRefused js (started (start_download l.unicode l.base l.parse l.id l.now js url filename))
unfolding start_download
start_other l js url filename scheme path parsed other =
    rw (start_download, parsed, other) (inl refl, refl)

start_unparsed :
    (l : Library) (js : Jobs) (url filename : String)
    → l.parse url ≡ none
    → IsRefused js (started (start_download l.unicode l.base l.parse l.id l.now js url filename))
unfolding start_download
start_unparsed l js url filename unparsed = rw (start_download, unparsed) (inl refl, refl)

downloading_lem :
    (l : Library) (js : Jobs) (body : (String × String) × Bool)
    → IsBegun l js body (downloading l js body) ⊎ IsRefused js (downloading l js body)
downloading_lem l js (req, false) = inr (inl refl, refl)
downloading_lem l js ((url, filename), true) = elim (Option-cases (l.parse url)) [
  | inl unparsed ↦ inr (start_unparsed l js url filename unparsed)
  | inr ((scheme, path), parsed) ↦ elim (Bool-cases (scheme == "http")) [
    | inl http ↦ inl (
      url,
      filename,
      path,
      refl,
      inl (parsed ∙ ap (λ x. some (x, path)) (==_eq scheme "http" http)),
      start_http l js url filename scheme path parsed (ground (arith, http)),
    )
    | inr not_http ↦ elim (Bool-cases (scheme == "https")) [
      | inl https ↦ inl (
        url,
        filename,
        path,
        refl,
        inr (parsed ∙ ap (λ x. some (x, path)) (==_eq scheme "https" https)),
        start_http l js url filename scheme path parsed (ground (arith, not_http, https)),
      )
      | inr other ↦
          inr (start_other l js url filename scheme path parsed (ground (arith, not_http, other)))
    ]
  ]
]

-- A request begins a download only if it is a POST whose body is decoded and whose URL is parsed
-- with the scheme http or https: then the job is stored under its new identifier and answered with
-- 202. Every other request is answered with 400 or 405 and leaves the jobs as they were.
pub handle_download_iso_lem :
    (l : Library) (js : Jobs) (r : Request)
    → let t = handle_download_iso l js r in
      ((r.method ≡ post) × IsBegun l js (l.decode r.body) t) ⊎ IsRefused js t
unfolding handle_download_iso
handle_download_iso_lem l js r =
    if-cases (λ t. ((r.method ≡ post) × IsBegun l js (l.decode r.body) t) ⊎ IsRefused js t)
      (r.method == post) _ _
      (λ posted. elim (downloading_lem l js (l.decode r.body)) [
        | inl job ↦ inl (==_eq r.method post posted, job)
        | inr refused ↦ inr refused
      ])
      (λ other. inr (inr refl, refl))
