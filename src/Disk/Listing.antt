-- ===== src/Disk/Listing.antt =====
-- `List` of engine/disk/disk.go and `snapshot` of engine/disk/index.go: the entries under a prefix,
-- in pages in the order of their keys. Go compares strings by their bytes.
pub mod Order
pub mod Sorting
pub mod Pages
pub mod Complete
mod Tests
use ci_cache.Base.{
  Bool, List, Option, Text, [], eqb, false, if◌then◌else◌, length, ltb, none, sle, slt, some,
  starts_with, suc, take, true, zero, ℕ, ◌&&◌, ◌++◌, ◌==◌, ◌||◌, ◌∷◌,
}
use ci_cache.Tier.{Error, Listed, Page, not_listed, page}
use ci_cache.Disk.Index.{Entry, Index}

-- `s < t` of strings.
unfoldable pub text_lt : Text → Text → Bool
text_lt s [] = false
text_lt [] (y ∷ t) = true
text_lt (x ∷ s) (y ∷ t) = ltb x y || ((x == y) && text_lt s t)

abbrev pub listed_of : Entry → Listed
listed_of e = record {
  key = e.key;
  size = e.size;
  last_access = e.last_access;
  immutable = e.immutable;
}

-- The loop of `snapshot` over the map, in any order.
abbrev pub copies : (ℕ → Entry) → List (Text × ℕ) → List Listed
copies nodes [] = []
copies nodes ((k, p) ∷ m) = listed_of (nodes p) ∷ copies nodes m

-- `snapshot`.
unfoldable pub snapshot : Index → List Listed
snapshot ix = copies ix.nodes ix.m

unfoldable pub filter : (Listed → Bool) → List Listed → List Listed
filter p [] = []
filter p (e ∷ es) = let rest = filter p es in if p e then e ∷ rest else rest

abbrev pub under : Text → Text → Bool
under prefix key = eqb prefix [] || starts_with key prefix

abbrev pub past : Text → Text → Bool
past token key = eqb token [] || text_lt token key

-- What the loop of `List` keeps.
abbrev pub kept : (prefix token : Text) → Listed → Bool
kept prefix token e = under prefix e.key && past token e.key

-- Sorting by the key, which no two entries of a snapshot share.
unfoldable pub insert_sorted : Listed → List Listed → List Listed
insert_sorted e [] = e ∷ []
insert_sorted e (f ∷ es) =
    let rest = insert_sorted e es in if text_lt e.key f.key then e ∷ f ∷ es else f ∷ rest

unfoldable pub sort : List Listed → List Listed
unfolding insert_sorted
sort [] = []
sort (e ∷ es) = insert_sorted e (sort es)

abbrev pub default_page_size : ℕ
default_page_size = 1000

abbrev pub max_page_size : ℕ
max_page_size = 10000

unfoldable pub page_size : ℕ → ℕ
page_size n =
    if sle n 0 then default_page_size else if slt max_page_size n then max_page_size else n

unfoldable pub last_key : List Listed → Text
last_key [] = []
last_key (e ∷ []) = e.key
last_key (e ∷ f ∷ es) = last_key (f ∷ es)

unfoldable pub first_page : ℕ → List Listed → Page
unfolding last_key
first_page n es = if ltb n (length es) then page (take n es) (last_key (take n es)) else page es []

-- `List`, of a context that may be cancelled by an error.
unfoldable pub list : Option Error → (prefix token : Text) → (size : ℕ) → Index → Page
unfolding snapshot filter sort page_size first_page
list (some e) prefix token size ix = not_listed e
list none prefix token size ix =
    first_page (page_size size) (sort (filter (kept prefix token) (snapshot ix)))

-- What a client reads that asks for page after page, up to so many.
abbrev pub and_next : (Text → List Listed) → Page → List Listed
and_next next (not_listed e) = []
and_next next (page es []) = es
and_next next (page es (c ∷ token)) = es ++ next (c ∷ token)

unfoldable pub pages : ℕ → (prefix token : Text) → (size : ℕ) → Index → List Listed
unfolding list
pages zero prefix token size ix = []
pages (suc n) prefix token size ix =
    and_next (λ next. pages n prefix next size ix) (list none prefix token size ix)
