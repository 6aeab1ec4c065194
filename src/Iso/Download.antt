-- ===== src/Iso/Download.antt =====
-- A download is complete or leaves the image as it was (pkg/iso/catalog.go).
use crybaby.Base.{◌^◌, ◌<◌, String, ◌≡◌, ℤ, pos, ◌++◌, Option, none, some, length, nat_eq, ◌⊎◌}
use crybaby.Base.Text.{◌<>◌}
use crybaby.Iso.{DownloadJob, Chunk, Body, more, last, Disk, Transfer, finalize, aborted}

-- The bytes of a body, one read after the other.
abbrev pub content : Body → Chunk
content (more chunk body) = chunk ++ content body
content (last chunk e) = chunk

-- An outcome: the image is complete and counted, or as it was.
abbrev pub IsOutcome : Disk → Chunk → DownloadJob × Disk → Type 0
IsOutcome disk whole (job, after) =
    ((job.status ≡ "completed")
      × (after.dest ≡ some whole)
      × (after.part ≡ none)
      × (length whole < 2 ^ 63 → job.downloaded ≡ pos (length whole)))
    ⊎ ((job.status ≡ "failed") × (after.dest ≡ disk.dest))

module _ (t : Transfer) where
  -- What is counted is what is written, and what the job says.
  abbrev IsCounted : DownloadJob × ℤ × Chunk → Type 0
  IsCounted s = (length s.2 < 2 ^ 63 → s.1 ≡ pos (length s.2)) × (s.0.downloaded ≡ s.1)

  abbrev ended : DownloadJob × ℤ × Chunk → Disk → Option String → DownloadJob × Disk
  ended s now none = finalize t s.0 now s.2
  ended s now (some m) = aborted t s.0 now ("read error: " <> m)
