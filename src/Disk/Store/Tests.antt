-- ===== src/Disk/Store/Tests.antt =====
-- Runs of the disk tier, and its theorems at concrete inputs.
use ci_cache.Base.{
  Bool, Bytes, Text, [], arith, codes, delete, false, length, none, refl, some, starts_with, ◌++◌,
  ◌∷◌, ◌≡◌,
}
use ci_cache.Tier.{exists, found, sentinel}
use ci_cache.Disk.Header.{decode_header, drop, encode_header, header_size, newline_at, spaces}
use ci_cache.Disk.Header.Roundtrip.{decode-encode_header}
use ci_cache.Disk.Index.Sample.{program, two}
use ci_cache.Disk.Volume.{Disk, entries, used}
use ci_cache.Disk.Store.{
  Faults, Host, commit, delete_each, delete_prefix, discard, encode_error, entry_of, first_of,
  first_segment, frontend_dir, get, meta_of, observe, open_object, path_for, put, readable, stat,
  write,
}
use ci_cache.Disk.Store.Roundtrip.{IsHost, get-put_object}
use ci_cache.Disk.Store.Sample.{
  final_header, json, json-IsJson, json-ReadsBack, name, object, read_json, same, write_json,
}

abbrev quiet : Faults
quiet = record {
  cancelled = none;
  open_fails = none;
  unreadable = false;
  before_copy = [];
  after_copy = [];
}

abbrev path : Text → Text
path = path_for (codes "/v") (λ key. codes "00" ++ key)

abbrev stuck : Text → Bool
stuck p = false

-- A disk without a collector.
abbrev alone : Host Disk
alone = record { disk = λ d. d; with_disk = λ d e. d; admit = λ n d. (d, none); notify = λ d. d }

alone-IsHost : IsHost alone
alone-IsHost = record { with_is = λ d s. refl; notify_keeps = λ s. refl }

abbrev volume : Disk
volume = record { idx = two; files = [] }

abbrev body : Bytes
body = 1 ∷ 2 ∷ 3 ∷ []

all : Unit {0}
unfolding program get put write commit delete stat open_object readable decode_header encode_header
    newline_at drop spaces first_of observe discard entry_of frontend_dir first_segment path_for
    meta_of delete_prefix delete_each encode_error same write_json read_json starts_with used
    entries
all = tt

escaped : path (codes "../etc") ≡ codes "/v/_/00/00../etc"
unfolding all
escaped = refl

putting :
    (put json path stuck alone quiet name
      (record { content = body; broken = none })
      object
      5
      3
      volume).1
    ≡ none
unfolding all
putting = refl

put_counts :
    used
      (put json path stuck alone quiet name
        (record { content = body; broken = none })
        object
        5
        3
        volume).0
    ≡ 3081
unfolding all
put_counts = refl

-- An immutable object is not written again.
abbrev written : Disk
written =
    (put json path stuck alone quiet name (record { content = body; broken = none }) object 5 3
      volume).0

again :
    (put json path stuck alone quiet name
      (record { content = []; broken = none })
      object
      6
      4
      written).1
    ≡ some (sentinel exists)
unfolding all
again = refl

wiped : (delete_prefix json path stuck none (codes "go/") written).2 ≡ 3081
unfolding all
wiped = refl

-- A file that is no object is a miss, and goes.
abbrev rotten : Disk
rotten = record volume { files = (path name, body) ∷ [] }

discarded : (get json path stuck quiet name 5 3 rotten).0.files ≡ []
unfolding all
discarded = refl

decode-encode_header_example :
    let b = 1 ∷ 10 ∷ spaces 1022 in
    (length b ≡ header_size) × (decode_header json (b ++ body) ≡ some (final_header, body))
decode-encode_header_example =
    decode-encode_header json final_header (1 ∷ 10 ∷ spaces 1022) body json-IsJson
      (json-ReadsBack final_header) (omega arith) (unfold all in refl)

get-put_object_example :
    (get json path stuck quiet name 6 4 written).1
    ≡ found (record { content = body; broken = none }) (record object { size = 3 })
get-put_object_example =
    get-put_object json path stuck alone quiet quiet name (record { content = body; broken = none })
      object 5 3 6 4 volume json-IsJson (json-ReadsBack final_header) alone-IsHost
      (record { runs = refl; opens = refl; reads = refl }) (omega arith) putting
