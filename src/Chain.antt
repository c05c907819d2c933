-- ===== src/Chain.antt =====
-- engine/chain/chain.go: tiers composed into one, read in order and written through. A callback is
-- a function on the state of the tiers. The temporary files are a map from paths to bytes.
-- A miss that singleflight shares is one call of `fault_in`, and one `deliver` for each caller.
pub mod Put
pub mod Reads
pub mod Stat
pub mod Delete
pub mod Writes
pub mod Outcome
mod Tests
use ci_cache.Base.{
  Bool, Bytes, List, Option, Text, [], codes, false, if◌then◌else◌, inl, inr, insert, length,
  lookup, ltb, none, not, sle, slt, some, take, ℕ, ◌&&◌, ◌*◌, ◌+◌, ◌^◌, ◌∷◌, ◌⊎◌,
}
use ci_cache.Base
use ci_cache.Tier.{
  Error, Got, Meta, Reader, Sentinel, Stated, Tier, errors_is, failed, found, has, join, lacks,
  not_found, other, sentinel, wrap,
}

pub record Chain (W : Type 0) : Type 0 where
  pub tiers : List (Tier W)
  pub on_fault : Option (Text → Tier W → W → W)
  pub write_behind : Option (Tier W → Text → Meta → Bytes → W → W × Bool)
  pub on_tier_error : Option (Tier W → Text → Error → W → W)

-- What the operating system does with temporary files: whether one can be created, the name that
-- it gets, whether bytes can be written to it, whether it can be opened, and the error for a file
-- that is not there.
pub record System : Type 0 where
  pub no_temp : Option Error
  pub temp_name : List (Text × Bytes) → Text
  pub no_write : Bytes → Option Error
  pub no_open : Text → Option Error
  pub no_file : Error

-- The state of the tiers, and the temporary files.
pub record World (W : Type 0) : Type 0 where
  pub store : W
  pub temps : List (Text × Bytes)

-- A body that was read whole: in memory, or in a temporary file.
pub data Body : Type 0 where
  in_memory : Bytes → Meta → Body
  spilled : Text → Meta → Body

pub data Buffered : Type 0 where
  held : Body → Buffered
  refused : Error → Buffered

abbrev pub meta_of : Body → Meta
meta_of (in_memory b m) = m
meta_of (spilled p m) = m

-- `io.NopCloser(bytesReader(b))`, and an open file.
abbrev pub whole : Bytes → Reader
whole b = record { content = b; broken = none }

-- `faultThreshold`.
abbrev pub fault_threshold : ℕ
fault_threshold = 8 * 2 ^ 20

abbrev pub is_small : Meta → Bool
is_small m = slt 0 m.size && sle m.size fault_threshold

abbrev pub or_else : Option Error → Option Error → Option Error
or_else none e = e
or_else (some d) e = some d

-- The error of a fault whose bytes cannot be read; of its text only the wrapped error is modelled.
abbrev pub read_error : Error → Error
read_error e = wrap (codes "chain: read") e

abbrev pub no_tiers : Error
no_tiers = other (codes "chain: no tiers")

-- Whether a tier's answer is an error other than `s`.
unfoldable pub fails_but : Sentinel → Option Error → Bool
fails_but s none = false
fails_but s (some e) = not (errors_is e s)

-- `errors.Join` of the errors in order, with nil for none.
unfoldable pub join_all : List Error → Option Error
join_all [] = none
join_all (e ∷ es) = elim (join_all es) [ none ↦ some e | some d ↦ some (join e d) ]

module _ (sys : System) where
  -- `os.Open` of a temporary file, or a reader of the bytes in memory.
  unfoldable pub open_body : Body → List (Text × Bytes) → Reader ⊎ Error
  open_body (in_memory b m) temps = inl (whole b)
  open_body (spilled p m) temps = elim (lookup p temps) [
    | none ↦ inr sys.no_file
    | some b ↦ elim (sys.no_open p) [ none ↦ inl (whole b) | some e ↦ inr e ]
  ]

module _ {W : Type 0} (sys : System) where
  -- The copy into a temporary file, which is removed again if the copy fails.
  unfoldable pub spill : (Error → Error) → Reader → Meta → World W → World W × Buffered
  spill label r m w = elim sys.no_temp [
    | some e ↦ (w, refused e)
    | none ↦ elim (or_else r.broken (sys.no_write r.content)) [
      | some e ↦ (w, refused (label e))
      | none ↦
          let p = sys.temp_name w.temps in
          (
            record w { temps = insert p r.content w.temps },
            held (spilled p (record m { size = length r.content })),
          )
    ]
  ]

  -- How `Get` reads the object that a tier behind has.
  unfoldable pub hold : Reader → Meta → World W → World W × Buffered
  hold r m w =
      if is_small m
      then elim r.broken [
        | some e ↦ (w, refused (read_error e))
        | none ↦ (w, held (in_memory r.content m))
      ]
      else spill read_error r m w

  -- How `Put` reads the object: at most one byte more than the size that it is said to have.
  unfoldable pub buffer : Reader → Meta → World W → World W × Buffered
  buffer r m w =
      let b = take (m.size + 1) r.content in
      let ok : Buffered = held (in_memory b (record m { size = length b })) in
      if is_small m
      then (if ltb m.size (length r.content)
          then (w, ok)
          else elim r.broken [ some e ↦ (w, refused e) | none ↦ (w, ok) ])
      else spill (λ e. e) r m w

  abbrev pub put_in : Text → Reader → Meta → Tier W → World W → World W
  put_in key r m t w = record w { store = (t.put key r m w.store).0 }

  -- Fault forward: the tiers in front of the one that answered, nearest first.
  unfoldable pub forward : Text → Body → List (Tier W) → World W → World W
  forward key f [] w = w
  forward key f (t ∷ ts) w = elim (open_body sys f w.temps) [
    | inr e ↦ w
    | inl r ↦ forward key f ts (put_in key r (meta_of f) t w)
  ]

  -- What one caller is given of a fault: a temporary file is opened and removed.
  unfoldable pub deliver : Body → World W → World W × Got
  deliver (in_memory b m) w = (w, found (whole b) m)
  deliver (spilled p m) w = elim (open_body sys (spilled p m) w.temps) [
    | inr e ↦ (w, failed e)
    | inl r ↦ (record w { temps = Base.delete p w.temps }, found r m)
  ]

  module _ (c : Chain W) where
    unfoldable pub report : Tier W → Text → Error → World W → World W
    report t op e w = elim c.on_tier_error [
      | none ↦ w
      | some f ↦ if errors_is e not_found then w else record w { store = f t op e w.store }
    ]

    unfoldable pub tell_fault : Text → Tier W → World W → World W
    tell_fault key t w = elim c.on_fault [
      | none ↦ w
      | some f ↦ record w { store = f key t w.store }
    ]

    -- What `Get` does with the object that the tier `t` has behind `front`.
    unfoldable pub found_behind :
        Text → Tier W → (front : List (Tier W)) → World W × Buffered → World W × Buffered
    found_behind key t front (w, refused e) = (w, refused e)
    found_behind key t front (w, held f) = (forward key f front (tell_fault key t w), held f)

    -- The function that `Get` gives to singleflight; `front` are the tiers before `ts`, nearest
    -- first.
    unfoldable pub fault_in : Text → (front ts : List (Tier W)) → World W → World W × Buffered
    unfolding found_behind tell_fault
    fault_in key front [] w = (w, refused (sentinel not_found))
    fault_in key front (t ∷ ts) w =
        let (s, got) = t.get key w.store in
        let w' = record w { store = s } in
        let rest = fault_in key (t ∷ front) ts w' in
        elim got [
          | failed e ↦ if errors_is e not_found then rest else (w', refused e)
          | found r m ↦ found_behind key t front (hold r m w')
        ]

    unfoldable pub answer : World W × Buffered → World W × Got
    answer (w, refused e) = (w, failed e)
    answer (w, held f) = deliver f w

    unfoldable pub get : Text → World W → World W × Got
    unfolding answer report
    get key w = elim c.tiers [
      | [] ↦ (w, failed (sentinel not_found))
      | t ∷ ts ↦
          let (s, got) = t.get key w.store in
          let w' = record w { store = s } in
          elim got [
            | found r m ↦ (w', found r m)
            | failed e ↦ answer (fault_in key (t ∷ []) ts (report t (codes "get") e w'))
          ]
    ]

    unfoldable pub stat_loop : Text → List (Tier W) → World W → World W × Stated
    unfolding report
    stat_loop key [] w = (w, lacks (sentinel not_found))
    stat_loop key (t ∷ ts) w =
        let (s, r) = t.stat key w.store in
        let w' = record w { store = s } in
        elim r [ has m ↦ (w', has m) | lacks e ↦ stat_loop key ts (report t (codes "stat") e w') ]

    unfoldable pub stat : Text → World W → World W × Stated
    unfolding stat_loop
    stat key w = stat_loop key c.tiers w

    -- The loop of `Delete`: the state, and the errors in order.
    unfoldable pub delete_loop : Text → List (Tier W) → World W → World W × List Error
    delete_loop key [] w = (w, [])
    delete_loop key (t ∷ ts) w =
        let (s, err) = t.delete key w.store in
        let (w', errs) = delete_loop key ts (record w { store = s }) in
        elim err [
          | none ↦ (w', errs)
          | some e ↦ if errors_is e not_found then (w', errs) else (w', wrap t.name e ∷ errs)
        ]

    unfoldable pub delete : Text → World W → World W × Option Error
    delete key w = let (w', errs) = delete_loop key c.tiers w in (w', join_all errs)
