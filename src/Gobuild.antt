-- ===== src/Gobuild.antt =====
-- frontend/gobuild/gobuild.go: actions and outputs of the Go build cache as keys of a tier. Of an
-- error only what it wraps is modelled, and logging is not. An instant is a number of nanoseconds
-- since Go's zero time.
pub mod Record
pub mod Reads
pub mod Writes
mod Tests
use ci_cache.Base.{
  Bool, List, Option, Text, [], codes, delete, eqb, false, if◌then◌else◌, length, none, not,
  reverse, some, take, true, ℕ, ◌++◌, ◌==◌, ◌∷◌,
}
use ci_cache.Tier.{
  Error, Meta, Reader, Tier, errors_is, exists, failed, found, has, lacks, not_found, other, wrap,
}
use ci_cache.Gobuild.Record.{Action, format_action, parse_action, valid_id}

-- `Cache`, over the tier that its operations take.
pub record Cache : Type 0 where
  pub legacy : Text

unfoldable pub drop_slashes : Text → Text
drop_slashes [] = []
drop_slashes (c ∷ s) = if c == 47 then drop_slashes s else c ∷ s

-- `strings.Trim(s, "/")`.
unfoldable pub trim_slashes : Text → Text
trim_slashes s = reverse (drop_slashes (reverse (drop_slashes s)))

-- `New`, from the legacy prefix of the configuration.
unfoldable pub init : Text → Cache
init legacy_prefix = record { legacy = trim_slashes legacy_prefix }

-- `Prefix`.
abbrev pub root : Text
root = codes "go/build"

unfoldable pub prefixes : Cache → List Text
prefixes c = if eqb c.legacy [] then root ∷ [] else root ∷ c.legacy ∷ []

unfoldable pub others : Text → List Text → List Text
others first [] = []
others first (p ∷ ps) = let rest = others first ps in if not (eqb p first) then p ∷ rest else rest

unfoldable pub prefixes_from : Cache → Text → List Text
prefixes_from c first = first ∷ others first (prefixes c)

-- `key`, of an id that `validID` has accepted.
unfoldable pub key : (place kind id : Text) → Text
key place kind id = place ++ 47 ∷ (kind ++ 47 ∷ (take 2 id ++ 47 ∷ id))

abbrev pub action_key : (place id : Text) → Text
action_key place id = key place (codes "action") id

abbrev pub output_key : (place id : Text) → Text
output_key place id = key place (codes "output") id

abbrev pub invalid_id : Error
invalid_id = wrap [] (other (codes "gobuild: invalid cache id"))

-- The answer to a read of a record: it and the layout that it is from, none, or an error.
pub data Resolved : Type 0 where
  resolved : Action → (from : Text) → Resolved
  unresolved : Resolved
  broken_record : Error → Resolved

pub data OutputRead : Type 0 where
  bytes : Reader → Meta → OutputRead
  no_bytes : OutputRead
  broken_output : Error → OutputRead

pub data OutputStat : Type 0 where
  present : Meta → OutputStat
  absent : OutputStat
  broken_stat : Error → OutputStat

-- The answer to `Get` and `Stat`; a body is nil where it was declined or not asked for.
pub data Answer : Type 0 where
  hit : (output : Text) → Option Reader → Meta → Answer
  miss : Answer
  refused : Error → Answer

-- `meta`.
unfoldable pub meta_for : Meta → Action → Meta
meta_for stored a = record {
  size = stored.size;
  mod_time = a.mod_time;
  content_type = [];
  immutable = true;
}

abbrev pub no_meta : Meta
no_meta = record { size = 0; mod_time = 0; content_type = []; immutable = false }

abbrev pub declines : Option (Text → ℕ → Bool) → Action → Bool
declines none a = false
declines (some need) a = not (need a.output a.mod_time)

abbrev pub refuses : Option Error → Bool
refuses none = false
refuses (some e) = not (errors_is e exists)

abbrev pub wrapped : Option Error → Option Error
wrapped none = none
wrapped (some e) = some (wrap [] e)

module _ {W : Type 0} (t : Tier W) where
  unfoldable pub delete_quietly : Text → W → W
  delete_quietly k w = (t.delete k w).0

  -- The loop of `action` over the layouts.
  unfoldable pub resolve_in : Text → List Text → W → W × Resolved
  resolve_in id [] w = (w, unresolved)
  resolve_in id (p ∷ ps) w =
      let (w', got) = t.get (action_key p id) w in
      let next = resolve_in id ps w' in
      let next_without = resolve_in id ps (delete_quietly (action_key p id) w') in
      elim got [
        | failed e ↦ if errors_is e not_found then next else (w', broken_record (wrap [] e))
        | found r m ↦ elim r.broken [
          | some e ↦ (w', broken_record (wrap [] e))
          | none ↦ elim (parse_action r.content) [
            | none ↦ next_without
            | some a ↦ if valid_id a.output then (w', resolved a p) else next_without
          ]
        ]
      ]

  module _ (c : Cache) where
    -- `action`.
    unfoldable pub resolve : Text → W → W × Resolved
    unfolding resolve_in
    resolve id w =
        if valid_id id then resolve_in id (prefixes c) w else (w, broken_record invalid_id)

    unfoldable pub read_in : Text → List Text → W → W × OutputRead
    read_in id [] w = (w, no_bytes)
    read_in id (p ∷ ps) w =
        let (w', got) = t.get (output_key p id) w in
        let next = read_in id ps w' in
        elim got [
          | failed e ↦ if errors_is e not_found then next else (w', broken_output (wrap [] e))
          | found r m ↦ (w', bytes r m)
        ]

    unfoldable pub stat_in : Text → List Text → W → W × OutputStat
    stat_in id [] w = (w, absent)
    stat_in id (p ∷ ps) w =
        let (w', got) = t.stat (output_key p id) w in
        let next = stat_in id ps w' in
        elim got [
          | lacks e ↦ if errors_is e not_found then next else (w', broken_stat (wrap [] e))
          | has m ↦ (w', present m)
        ]

    -- `dropDangling`.
    unfoldable pub drop_dangling : (id from : Text) → W → W
    drop_dangling id from w = delete_quietly (action_key from id) w

    -- The rest of `Get` once the output was looked for.
    unfoldable pub answer_read : Text → Action → (from : Text) → W × OutputRead → W × Answer
    answer_read id a from (w, bytes r m) = (w, hit a.output (some r) (meta_for m a))
    answer_read id a from (w, no_bytes) = (drop_dangling id from w, miss)
    answer_read id a from (w, broken_output e) = (w, refused e)

    -- The rest of `GetIf` once the record was looked for.
    unfoldable pub answer_get : Text → (need : Option (Text → ℕ → Bool)) → W × Resolved → W × Answer
    answer_get id need (w, broken_record e) = (w, refused e)
    answer_get id need (w, unresolved) = (w, miss)
    answer_get id need (w, resolved a from) =
        if declines need a
        then (w, hit a.output none (meta_for no_meta a))
        else answer_read id a from (read_in a.output (prefixes_from c from) w)

    -- `GetIf`.
    unfoldable pub get_if : Text → (need : Option (Text → ℕ → Bool)) → W → W × Answer
    unfolding answer_get answer_read
    get_if id need w = answer_get id need (resolve id w)

    unfoldable pub get : Text → W → W × Answer
    get id w = get_if id none w

    unfoldable pub answer_stat : Text → Action → (from : Text) → W × OutputStat → W × Answer
    answer_stat id a from (w, present m) = (w, hit a.output none (meta_for m a))
    answer_stat id a from (w, absent) = (drop_dangling id from w, miss)
    answer_stat id a from (w, broken_stat e) = (w, refused e)

    unfoldable pub stat_resolved : Text → W × Resolved → W × Answer
    stat_resolved id (w, broken_record e) = (w, refused e)
    stat_resolved id (w, unresolved) = (w, miss)
    stat_resolved id (w, resolved a from) =
        answer_stat id a from (stat_in a.output (prefixes_from c from) w)

    unfoldable pub stat : Text → W → W × Answer
    unfolding stat_resolved answer_stat
    stat id w = stat_resolved id (resolve id w)

  -- `Put`, with the clock at `now`.
  unfoldable pub put :
      (now : ℕ) → (id output : Text) → (size mod_time : ℕ) → Reader → W → W × Option Error
  put now id output size mod_time r w =
      let at = if mod_time == 0 then now else mod_time in
      let (w1, e1) =
        t.put (output_key root output) r
          (record { size = size; mod_time = at; content_type = []; immutable = true }) w in
      let rec = format_action output at in
      let (w2, e2) =
        t.put (action_key root id) (record { content = rec; broken = none })
          (record {
            size = length rec;
            mod_time = at;
            content_type = codes "text/plain; charset=utf-8";
            immutable = false;
          })
          w1 in
      if not (valid_id id)
      then (w, some invalid_id)
      else if not (valid_id output)
      then (w, some invalid_id)
      else if refuses e1
      then (w1, wrapped e1)
      else if refuses e2
      then (w2, wrapped e2)
      else (w2, none)
