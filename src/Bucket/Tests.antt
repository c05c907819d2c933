-- ===== src/Bucket/Tests.antt =====
-- Requests of the bucket tier, and what a store gives back, at a concrete format of the time.
use ci_cache.Base.{
  Option, Text, [], ap, arith, codes, eqb, false, if◌then◌else◌, length, none, refl, some, suc,
  true, zero, ℕ, ◌∷◌, ◌≡◌,
}
use ci_cache.Tier.{Meta, Reader, exists, failed, found, not_found, other, sentinel}
use ci_cache.Bucket.{Bucket, get, object_key, put, put_request, stage}
use ci_cache.Bucket.Metadata.{IsTimeFormat, TimeFormat, metadata_for}
use ci_cache.Bucket.Requests.{
  ApiError, GetOutput, PutInput, S3, deleted, get_failed, head_failed, is_not_found,
  is_precondition_failed, list_failed, object,
}
use ci_cache.Bucket.Roundtrip.{Serves, get-put_stored, head_of, returned}

ticks : ℕ → Text
ticks zero = []
ticks (suc n) = 49 ∷ ticks n

length-ticks : (n : ℕ) → length (ticks n) ≡ n
unfolding ticks
length-ticks zero = refl
length-ticks (suc n) = ap suc (length-ticks n)

abbrev read_ticks : Text → Option ℕ
read_ticks [] = none
read_ticks (c ∷ cs) = some (length cs)

-- An instant as a dot and as many strokes.
abbrev tally_format : TimeFormat
tally_format = record { format = λ at. 46 ∷ ticks at; parse = read_ticks }

tally_format-IsTimeFormat : IsTimeFormat tally_format
tally_format-IsTimeFormat = record {
  prints = λ at. refl;
  reads_back = λ at early. ap some (length-ticks at);
}

abbrev store : Bucket
store = record { bucket = codes "ci"; prefix = codes "p" }

abbrev meta : Meta
meta = record { size = 0; mod_time = 3; content_type = []; immutable = true }

abbrev sent : PutInput
sent = put_request tally_format store (codes "go/a") (1 ∷ 2 ∷ []) [] meta

run : Unit {0}
unfolding put get stage eqb put_request object_key metadata_for is_precondition_failed is_not_found
    ticks
run = tt

abbrev api_error : Text → ℕ → ApiError
api_error code status = record {
  typed_missing = false;
  code = code;
  status = status;
  cause = other (codes "api");
}

-- A store of one object.
abbrev answer_last : Option PutInput → GetOutput
answer_last none = get_failed (api_error (codes "NoSuchKey") 404)
answer_last (some i) =
    object (record { content = i.body; broken = none }) (head_of i (some (codes "binary")) (some 9))

abbrev one_object : S3 (Option PutInput)
one_object = record {
  put_object = λ i w. (some i, none);
  get_object = λ bucket key w. (w, answer_last w);
  head_object = λ bucket key w. (w, head_failed (api_error [] 500));
  delete_object = λ bucket key w. (none, none);
  delete_objects = λ bucket keys w. (none, deleted []);
  list_objects = λ bucket prefix token max w. (w, list_failed (api_error [] 503));
}

abbrev one_object-Serves : Serves one_object
one_object-Serves = record {
  type = λ i. some (codes "binary");
  stored = λ i w. some 9;
  serves = λ i w h. refl;
}

abbrev body : Reader
body = record { content = 1 ∷ 2 ∷ []; broken = none }

get-put_stored_example :
    (get tally_format one_object store
      (codes "go/a")
      (put tally_format one_object store (λ b. []) (λ b. none) (codes "go/a") body meta none).0).1
    ≡ found
        (record { content = 1 ∷ 2 ∷ []; broken = none })
        (returned meta 2 (some (codes "binary")) (some 9))
get-put_stored_example =
    get-put_stored (λ b. []) (λ b. none) tally_format one_object store (codes "go/a") body meta none
      one_object-Serves tally_format-IsTimeFormat (omega arith) (unfold run in refl)

prefixed : sent.key ≡ codes "p/go/a"
unfolding run
prefixed = refl

-- A store that holds every key and has no object to read.
abbrev full_store : S3 ℕ
full_store = record {
  put_object = λ i w. (suc w, if i.only_if_absent then some (api_error [] 412) else none);
  get_object = λ bucket key w. (w, get_failed (api_error (codes "NoSuchKey") 404));
  head_object = λ bucket key w. (w, head_failed (api_error [] 500));
  delete_object = λ bucket key w. (w, none);
  delete_objects = λ bucket keys w. (w, deleted []);
  list_objects = λ bucket prefix token max w. (w, list_failed (api_error [] 503));
}

written_once :
    put tally_format full_store store
      (λ body. [])
      (λ body. none)
      (codes "go/a")
      (record { content = 1 ∷ []; broken = none })
      meta
      0
    ≡ (1, some (sentinel exists))
unfolding run
written_once = refl

missed : get tally_format full_store store (codes "go/a") 0 ≡ (0, failed (sentinel not_found))
unfolding run
missed = refl
