-- ===== src/Agent.antt =====
-- agent/agent.go: how the agent answers the toolchain's `get` and `put`, from the directory of
-- objects and from the build cache over the chain of tiers. What the upload behind a `put` does is
-- not modelled, and of the counters those that the two operations keep.
pub mod Objects
pub mod Paths
mod Tests
use ci_cache.Base.{
  Bool, Bytes, Option, Text, [], add64, if◌then◌else◌, is_some, lookup, none, not, some, ℕ, ◌==◌,
}
use ci_cache.Tier.{Error, Reader, Tier, errors_is, exists}
use ci_cache.Gobuild
use ci_cache.Gobuild.{Answer, Cache, get_if, hit, miss, refused}
use ci_cache.Agent.Objects.{Faults, Files, Written, have, unwritten, write, written}

pub record Agent : Type 0 where
  pub files : Files
  pub gets : ℕ
  pub hits : ℕ
  pub reused : ℕ
  pub drops : ℕ
  pub lost_records : ℕ

-- What the toolchain is told: an output and the path of its file, a miss, or an error.
pub data Reply : Type 0 where
  reply : (output place : Text) → Reply
  no_reply : Reply
  failure : Error → Reply

abbrev pub one_more : ℕ → ℕ
one_more n = add64 n 1

-- The path of an object that is there, or the empty one.
abbrev pub place_of : Option Text → Text
place_of none = []
place_of (some p) = p

-- What `get` asks `GetIf` to decline: an output that is in the directory.
unfoldable pub needs : (dir : Text) → Files → Text → ℕ → Bool
unfolding have
needs dir files output at = not (is_some (have dir output 0 files))

abbrev pub landed : (output : Text) → Agent → Files × Written → Agent × Reply
landed output a (files, written place n) =
    (record a { files = files; hits = one_more a.hits }, reply output place)
landed output a (files, unwritten e) = (record a { files = files }, failure e)

-- `get`, once `GetIf` has answered.
unfoldable pub answer : Faults → (dir : Text) → Agent → Answer → Agent × Reply
unfolding have write
answer f dir a (refused e) = (a, no_reply)
answer f dir a miss = (a, no_reply)
answer f dir a (hit output none m) = (
  record a { hits = one_more a.hits; reused = one_more a.reused },
  reply output (place_of (have dir output 0 a.files)),
)
answer f dir a (hit output (some r) m) = landed output a (write f dir output m.size r a.files)

-- The drop that `record` counts, unless the error is that the object exists.
abbrev pub count_drop : Option Error → Agent → Agent
count_drop none a = a
count_drop (some e) a = if errors_is e exists then a else record a { drops = one_more a.drops }

module _ {W : Type 0} (t : Tier W) (c : Cache) (f : Faults) (dir : Text) where
  abbrev pub get_answered : Agent → W × Answer → W × Agent × Reply
  get_answered a (w, got) = let (a', r) = answer f dir a got in (w, a', r)

  -- `get`.
  unfoldable pub get : (action : Text) → W → Agent → W × Agent × Reply
  unfolding answer needs
  get action w a =
      get_answered (record a { gets = one_more a.gets })
        (get_if t c action (some (needs dir a.files)) w)

  abbrev pub recorded : Agent → W × Option Error → W × Agent
  recorded a (w, err) = (w, count_drop err a)

  abbrev pub record_read :
      (now : ℕ) → (action output : Text) → (size at : ℕ) → W → Agent → Option Bytes → W × Agent
  record_read now action output size at w a none =
      (w, record a { lost_records = one_more a.lost_records })
  record_read now action output size at w a (some b) =
      recorded a (Gobuild.put t now action output size at (record { content = b; broken = none }) w)

  -- `record`: the object is read back from the directory.
  unfoldable pub record_object :
      (now : ℕ) → (action output : Text) → (size at : ℕ) → (place : Text) → W → Agent → W × Agent
  record_object now action output size at place w a =
      record_read now action output size at w a (lookup place a.files)

  abbrev pub put_landed :
      (now : ℕ)
      → (action output : Text) → (at : ℕ) → W
      → Agent
      → Files × Written
      → W × Agent × Reply
  put_landed now action output at w a (files, unwritten e) =
      (w, record a { files = files }, failure e)
  put_landed now action output at w a (files, written place n) =
      let (w', a') = record_object now action output n at place w (record a { files = files }) in
      (w', a', reply output place)

  -- `put`, without the upload that follows it.
  unfoldable pub put :
      (now : ℕ)
      → (action output : Text) → (size mod_time : ℕ) → Reader
      → W
      → Agent
      → W × Agent × Reply
  unfolding record_object write
  put now action output size mod_time r w a =
      put_landed now action output (if mod_time == 0 then now else mod_time) w a
        (write f dir output size r a.files)
