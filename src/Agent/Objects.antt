-- ===== src/Agent/Objects.antt =====
-- agent/objects.go: the directory of objects that the toolchain is handed paths of. A file is its
-- bytes; permissions and modification times are not modelled, nor is `prune`. The root is an
-- absolute path.
pub mod Places
use ci_cache.Base.{
  Bool, Bytes, List, Option, Text, [], codes, eqb, if◌then◌else◌, insert, length, lookup, none, not,
  slt, some, ℕ, ◌&&◌, ◌||◌, ◌++◌, ◌==◌, ◌∷◌,
}
use ci_cache.Gomod.Names.Strings.{split}
use ci_cache.Tier.{Error, Reader, other, wrap}

abbrev pub Files : Type 0
Files = List (Text × Bytes)

-- The directory of an object below the root.
abbrev pub shard : Text → Text
shard (a ∷ b ∷ s) = a ∷ b ∷ []
shard _ = codes "__"

abbrev pub pop : List Text → List Text
pop [] = []
pop (s ∷ ss) = ss

-- `filepath.Clean` of a rooted path, by its pieces: the directories passed so far, innermost first.
unfoldable pub cleaned : List Text → List Text → List Text
cleaned above [] = above
cleaned above (s ∷ ss) =
    if eqb s [] || eqb s (codes ".")
    then cleaned above ss
    else if eqb s (codes "..")
    then cleaned (pop above) ss
    else cleaned (s ∷ above) ss

abbrev pub rooted : List Text → Text → Text
rooted [] tail = tail
rooted (s ∷ ss) tail = rooted ss (47 ∷ (s ++ tail))

unfoldable pub clean : Text → Text
unfolding cleaned
clean p = let s = rooted (cleaned [] (split 47 p)) [] in if eqb s [] then 47 ∷ [] else s

-- `path`, which `filepath.Join` cleans.
unfoldable pub path : (root id : Text) → Text
unfolding clean
path root id = clean (root ++ 47 ∷ (shard id ++ 47 ∷ id))

-- Whether a size was given and is not that of the file.
abbrev pub other_size : (size n : ℕ) → Bool
other_size size n = slt 0 size && not (n == size)

abbrev pub found_file : (place : Text) → (size : ℕ) → Option Bytes → Option Text
found_file place size none = none
found_file place size (some b) = if other_size size (length b) then none else some place

-- `have`.
unfoldable pub have : (root id : Text) → (size : ℕ) → Files → Option Text
unfolding path
have root id size files =
    if eqb id [] then none else found_file (path root id) size (lookup (path root id) files)

-- What fails in `write`, in its order: to make the directory or the temporary file; to copy or
-- close it; to make it readable or to rename it.
pub record Faults : Type 0 where
  pub opening : Option Error
  pub copying : Option Error
  pub renaming : Option Error

pub data Written : Type 0 where
  written : (place : Text) → (size : ℕ) → Written
  unwritten : Error → Written

abbrev pub first_error : Option Error → Option Error → Option Error
first_error none d = d
first_error (some e) d = some e

abbrev pub renamed : (place : Text) → Bytes → Files → Option Error → Files × Written
renamed place b files (some e) = (files, unwritten (wrap [] e))
renamed place b files none = (insert place b files, written place (length b))

abbrev pub copied :
    Faults → (place : Text) → (size : ℕ) → Bytes → Files → Option Error → Files × Written
copied f place size b files (some e) = (files, unwritten (wrap [] e))
copied f place size b files none =
    if other_size size (length b)
    then (files, unwritten (other (codes "agent: object size")))
    else renamed place b files f.renaming

-- `write`, once the object is not there.
abbrev pub write_new : Faults → (place : Text) → (size : ℕ) → Reader → Files → Files × Written
write_new f place size r files =
    copied f place size r.content files (first_error f.opening (first_error r.broken f.copying))

-- `write`, when the object is there: the body, of `n` bytes, is drained.
abbrev pub drained : (place : Text) → (size n : ℕ) → Option Error → Written
drained place size n (some e) = unwritten (wrap [] e)
drained place size n none = written place (if slt 0 size then size else n)

abbrev pub write_if :
    Faults → (place : Text) → (size : ℕ) → Reader → Files → Option Text → Files × Written
write_if f place size r files (some p) = (files, drained p size (length r.content) r.broken)
write_if f place size r files none = write_new f place size r files

unfoldable pub write : Faults → (root id : Text) → (size : ℕ) → Reader → Files → Files × Written
unfolding have
write f root id size r files = write_if f (path root id) size r files (have root id size files)
