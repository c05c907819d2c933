-- ===== src/Tier.antt =====
-- engine/tier/tier.go: what every tier speaks. A reader is the bytes that it yields, and the error
-- with which it ends if it does not end by EOF. A method is a function on the state `W` of
-- everything that it reads and writes; a context's cancellation is one of the errors.
pub mod Laws
pub mod Sample
use ci_cache.Base.{Bool, Bytes, List, Option, Text, false, none, some, true, ℕ, ◌||◌}

pub record Meta : Type 0 where
  pub size : ℕ
  pub mod_time : ℕ
  pub content_type : Text
  pub immutable : Bool

-- The sentinel errors, and what wraps them.
pub data Sentinel : Type 0 where
  not_found exists no_space : Sentinel

pub data Error : Type 0 where
  sentinel : Sentinel → Error
  other : Text → Error
  wrap : Text → Error → Error
  join : Error → Error → Error

abbrev pub same_sentinel : Sentinel → Sentinel → Bool
same_sentinel not_found not_found = true
same_sentinel exists exists = true
same_sentinel no_space no_space = true
same_sentinel _ _ = false

-- `errors.Is`.
unfoldable pub errors_is : Error → Sentinel → Bool
errors_is (sentinel s) t = same_sentinel s t
errors_is (other _) t = false
errors_is (wrap _ e) t = errors_is e t
errors_is (join d e) t = errors_is d t || errors_is e t

-- `errors.Is` of an error value that may be nil.
abbrev pub fails_with : Option Error → Sentinel → Bool
fails_with none t = false
fails_with (some e) t = errors_is e t

pub record Reader : Type 0 where
  pub content : Bytes
  pub broken : Option Error

pub data Got : Type 0 where
  found : Reader → Meta → Got
  failed : Error → Got

pub data Stated : Type 0 where
  has : Meta → Stated
  lacks : Error → Stated

pub record Tier (W : Type 0) : Type 0 where
  pub name : Text
  pub get : Text → W → W × Got
  pub put : Text → Reader → Meta → W → W × Option Error
  pub stat : Text → W → W × Stated
  pub delete : Text → W → W × Option Error

-- `tier.Entry`.
pub record Listed : Type 0 where
  pub key : Text
  pub size : ℕ
  pub last_access : ℕ
  pub immutable : Bool

-- A page of a listing, with the token of the next one, or an error.
pub data Page : Type 0 where
  page : List Listed → (next : Text) → Page
  not_listed : Error → Page
