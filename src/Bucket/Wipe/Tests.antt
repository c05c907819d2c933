-- ===== src/Bucket/Wipe/Tests.antt =====
-- A deletion over two pages.
use ci_cache.Base.{
  List, Option, Text, [], add64, arith, codes, eqb, none, refl, some, true, ℕ, ◌++◌, ◌∷◌, ◌≡◌,
}
use ci_cache.Bucket.{Bucket, object_key}
use ci_cache.Bucket.Requests.{ApiError, Listed, Page, S3, deleted, get_failed, head_failed, page}
use ci_cache.Bucket.Wipe.{
  add_all, delete_prefix, flush, flush_full, next_token, note, page_done, pages, refused_keys,
}
use ci_cache.Bucket.Wipe.Batches.{Listing, Obeys, last, mem, more}
use ci_cache.Bucket.Wipe.Complete.{delete_prefix_lem}

abbrev store : Bucket
store = record { bucket = codes "ci"; prefix = [] }

abbrev listed : Text → ℕ → Listed
listed key size = record { key = key; size = some size }

abbrev first_page : Page
first_page = record {
  contents = listed (codes "go/a") 3 ∷ listed (codes "go/b") 4 ∷ [];
  truncated = some true;
  next = some (codes "t");
}

abbrev last_page : Page
last_page = record { contents = listed (codes "go/c") 5 ∷ []; truncated = none; next = none }

abbrev answer : Option Text → Page
answer none = first_page
answer (some t) = last_page

abbrev refusal : ApiError
refusal = record { typed_missing = true; code = []; status = 404; cause = refused_keys }

-- A store whose state is the keys deleted.
abbrev two_pages : S3 (List Text)
two_pages = record {
  put_object = λ i w. (w, none);
  get_object = λ bucket key w. (w, get_failed refusal);
  head_object = λ bucket key w. (w, head_failed refusal);
  delete_object = λ bucket key w. (w ++ key ∷ [], none);
  delete_objects = λ bucket keys w. (w ++ keys, deleted []);
  list_objects = λ bucket prefix token max w. (w, page (answer token));
}

abbrev two_pages-Obeys : Obeys two_pages store (codes "go") answer
two_pages-Obeys = record {
  gone = λ w. w;
  lists = λ t ps w l apart. refl;
  lists_keep = λ t w. refl;
  deletes = λ ks w h. (refl, refl);
}

abbrev all_keys : List Text
all_keys = codes "go/a" ∷ codes "go/b" ∷ codes "go/c" ∷ []

two_pages-Listing : Listing answer none (first_page ∷ last_page ∷ [])
unfolding next_token
two_pages-Listing = more none (codes "t") (last_page ∷ []) refl (last (some (codes "t")) refl)

delete_prefix_lem_example :
    (v : List Text) × (delete_prefix two_pages store 2 (codes "go") [] ≡ some (v, 3, 12, none))
    × (v ≡ all_keys)
delete_prefix_lem_example =
    delete_prefix_lem two_pages store (codes "go") answer two_pages-Obeys 2
      (first_page ∷ last_page ∷ []) [] two_pages-Listing (omega arith) (omega arith) (omega arith)
      (unfold mem eqb in (refl, (refl, (refl, tt))))

three_deleted : delete_prefix two_pages store 2 (codes "go") [] ≡ some (all_keys, 3, 12, none)
unfolding add64 delete_prefix pages page_done add_all note next_token flush flush_full object_key
three_deleted = refl
