-- ===== src/Disk/Volume.antt =====
-- engine/disk/disk.go: what the garbage collector uses of the tier. The volume's files are a map
-- from a path to the file's bytes. `path_for` is `pathFor`, which hashes the key, and `stuck` says
-- which paths the file system refuses to remove.
pub mod Evict
use ci_cache.Base.{Bool, Bytes, List, Text, [], add64, delete, if◌then◌else◌, ℕ, ◌∷◌}
use ci_cache.Disk.Index.{Entry, FrontendUse, Index, take_lru, used_by}

pub record Disk : Type 0 where
  pub idx : Index
  pub files : List (Text × Bytes)

-- `Used`, `Entries` and `UsedBy`.
unfoldable pub used : Disk → ℕ
used d = d.idx.used

unfoldable pub entries : Disk → ℕ
entries d = d.idx.n

unfoldable pub disk_used_by : Text → Disk → FrontendUse
disk_used_by f d = used_by f d.idx

-- The sum that the loop of `evict` returns.
freed_by : (ℕ → Entry) → ℕ → List ℕ → ℕ
freed_by nodes freed [] = freed
freed_by nodes freed (p ∷ ps) = freed_by nodes (add64 freed (nodes p).on_disk) ps

module _ (path_for : Text → Text) (stuck : Text → Bool) where
  -- `os.Remove`, whose error `evict` ignores.
  remove_file : Text → List (Text × Bytes) → List (Text × Bytes)
  remove_file key files = if stuck (path_for key) then files else delete (path_for key) files

  remove_files : (ℕ → Entry) → List ℕ → List (Text × Bytes) → List (Text × Bytes)
  remove_files nodes [] files = files
  remove_files nodes (p ∷ ps) files = remove_files nodes ps (remove_file (nodes p).key files)

  -- `evict`: the disk, and the bytes accounted for.
  unfoldable pub evict : (n : ℕ) → Text → Disk → Disk × ℕ
  unfolding freed_by remove_file remove_files
  evict n frontend d =
      let (ix, victims) = take_lru n frontend d.idx in
      (
        record { idx = ix; files = remove_files d.idx.nodes victims d.files },
        freed_by d.idx.nodes 0 victims,
      )
