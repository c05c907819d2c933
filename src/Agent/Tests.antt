-- ===== src/Agent/Tests.antt =====
-- A write and a read of the agent over a tier in memory, and its theorems at them.
use ci_cache.Agent
use ci_cache.Gobuild
use ci_cache.Base.{
  Bytes, Text, [], add64, codes, digits, eqb, fields, format_int, insert, lookup, none, parse_int,
  read_digits, refl, sle, slt, ◌∷◌, ◌≡◌,
}
use ci_cache.Tier.{errors_is, other}
use ci_cache.Tier.Laws.{stream}
use ci_cache.Tier.Sample.{Objects, memory}
use ci_cache.Gobuild.{
  Cache, delete_quietly, drop_dangling, get, get_if, key, meta_for, others, prefixes, prefixes_from,
  put, read_in, resolve, resolve_in,
}
use ci_cache.Gomod.Names.Strings.{split}
use ci_cache.Gobuild.Record.{format_action, from_unix_nano, parse_action, unix_nano, valid_id}
use ci_cache.Agent.{Agent, Reply, answer, needs, record_object}
use ci_cache.Agent.Objects.{Faults, have, path, unwritten, write}
use ci_cache.Agent.Objects.Places.{IsFile}
use ci_cache.Agent.Paths.{get-IsFile, put-IsFile}

abbrev cache : Cache
cache = record { legacy = [] }

abbrev fine : Faults
fine = record { opening = none; copying = none; renaming = none }

abbrev fresh_agent : Agent
fresh_agent = record { files = []; gets = 0; hits = 0; reused = 0; drops = 0; lost_records = 0 }

abbrev dir : Text
dir = codes "/o"

abbrev action : Text
action = codes "ab12"

abbrev output : Text
output = codes "cd34"

abbrev place : Text
place = codes "/o/cd/cd34"

abbrev body : Bytes
body = 1 ∷ 2 ∷ 3 ∷ []

abbrev after_put : Objects × Agent × Reply
after_put = Agent.put memory cache fine dir 7 action output 3 7 (stream body) [] fresh_agent

-- The same record, in an agent with no object.
abbrev after_get : Objects × Agent × Reply
after_get = Agent.get memory cache fine dir action after_put.0 fresh_agent

all : Unit {0}
unfolding format_action parse_action unix_nano from_unix_nano format_int digits parse_int
    read_digits fields valid_id Gobuild.key get_if resolve resolve_in read_in prefixes prefixes_from
    others eqb lookup insert errors_is meta_for drop_dangling delete_quietly Gobuild.put Agent.put
    Agent.get Agent.answer needs have write path Agent.record_object add64 slt sle
all = tt

put-IsFile_example : IsFile place 3 after_put.1.files
unfolding all split
put-IsFile_example =
    put-IsFile memory cache fine dir 7 action output 3 7 (stream body) [] fresh_agent output place
      refl

get-IsFile_example : IsFile place 0 after_get.1.files
unfolding all split
get-IsFile_example =
    get-IsFile memory cache fine dir action after_put.0 fresh_agent output place refl

fetched : after_get.1.files ≡ (place, body) ∷ []
unfolding all split
fetched = refl

reused_once : (Agent.get memory cache fine dir action after_put.0 after_put.1).1.reused ≡ 1
unfolding all split
reused_once = refl

wrong_size :
    (write fine dir output 4 (stream body) []).1 ≡ unwritten (other (codes "agent: object size"))
unfolding all split
wrong_size = refl

cleans : path dir (codes "../../etc/x") ≡ codes "/etc/x"
unfolding all split
cleans = refl
