-- ===== src/Gobuild/Tests.antt =====
-- Runs of the Go build cache over a map in memory, and its theorems at concrete inputs.
use ci_cache.Base.{
  Bytes, Text, [], arith, codes, delete, digits, eqb, fields, format_int, insert, lookup, none,
  parse_int, read_digits, refl, some, ℕ, ◌+◌, ◌-◌, ◌∷◌, ◌≡◌,
}
use ci_cache.Base
use ci_cache.Tier.{errors_is}
use ci_cache.Tier.Laws.{stream}
use ci_cache.Tier.Sample.{Objects, memory, memory_laws}
use ci_cache.Gobuild.{
  Cache, delete_quietly, drop_dangling, drop_slashes, get, get_if, hit, init, key, meta_for, miss,
  no_meta, others, prefixes, prefixes_from, put, read_in, resolve, resolve_in, trim_slashes,
}
use ci_cache.Gobuild.Record.{
  epoch, format_action, from_unix_nano, parse-format_action, parse_action, unix_nano, valid_id,
}
use ci_cache.Gobuild.Writes.{get-put_action, output_meta}

abbrev cache : Cache
cache = record { legacy = codes "gocache" }

trimmed : init (codes "//gocache/") ≡ cache
unfolding init trim_slashes drop_slashes
trimmed = refl

-- The second after the Unix epoch, and the instant a nanosecond before it.
abbrev at : ℕ
at = epoch + 1_000_000_000

abbrev before_epoch : ℕ
before_epoch = epoch - 1

abbrev id : Text
id = codes "ab12"

abbrev output : Text
output = codes "cd34"

all : Unit {0}
unfolding format_action parse_action unix_nano from_unix_nano format_int digits parse_int
    read_digits fields valid_id key put get get_if resolve resolve_in read_in prefixes prefixes_from
    others eqb lookup insert Base.delete errors_is meta_for drop_dangling delete_quietly
all = tt

printed : format_action output at ≡ codes "cd34 1000000000"
unfolding all
printed = refl

printed_negative : format_action output before_epoch ≡ codes "cd34 -1"
unfolding all
printed_negative = refl

read_back :
    parse_action (codes " cd34  -1\n") ≡ some (record { output = output; mod_time = before_epoch })
unfolding all
read_back = refl

too_many : parse_action (codes "cd34 1 2") ≡ none
unfolding all
too_many = refl

abbrev content : Bytes
content = 7 ∷ 8 ∷ 9 ∷ []

stored : (put memory 0 id output 3 at (stream content) []).1 ≡ none
unfolding all
stored = refl

-- A record in the natural layout whose output is nowhere.
abbrev dangling : Objects
dangling =
    (codes "go/build/action/ab/ab12", record { bytes = codes "cd34 1000000000"; meta = no_meta })
    ∷ []

dangling_run : get memory cache id dangling ≡ ([], miss)
unfolding all
dangling_run = refl

parse-format_action_example :
    parse_action (format_action output at) ≡ some (record { output = output; mod_time = at })
parse-format_action_example =
    parse-format_action output at (unfold valid_id in refl) (omega arith, omega arith)

get-put_action_example :
    (get memory cache id (put memory 0 id output 3 at (stream content) []).0).1
    ≡ hit output (some (stream content)) (output_meta 3 at)
get-put_action_example =
    get-put_action memory cache memory_laws 0 id output 3 at content [] (omega arith)
      (omega arith, omega arith) (tt, tt) (unfold lookup in refl) stored (unfold all in refl)
