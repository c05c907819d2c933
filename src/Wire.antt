-- ===== src/Wire.antt =====
-- proto/cache/v1/cache.proto: the messages between an agent and a server, and what the two sides
-- take from Connect and from Go's errors package. Protobuf's timestamps and the kinds of an error
-- are parameters.
pub mod Sample
use ci_cache.Base.{
  All, Bool, Bytes, List, Option, Text, [], length, ℕ, ◌*◌, ◌++◌, ◌<◌, ◌^◌, ◌∷◌, ◌≡◌, ◌≤◌,
}
use ci_cache.Tier.{Error}

-- The codes that the two sides name, and one for each other code.
pub data Code : Type 0 where
  canceled deadline_exceeded invalid_argument absent already_exists resource_exhausted internal :
      Code
  code_other : ℕ → Code

pub record RpcError : Type 0 where
  pub code : Code
  pub message : Text

-- `timestamppb.New` and `AsTime`, on the bytes of a timestamp.
pub record Stamps : Type 0 where
  pub stamp : ℕ → Text
  pub time : Text → ℕ

-- The first instant after the year 9999.
abbrev pub stamp_limit : ℕ
stamp_limit = 315_537_897_600 * 1_000_000_000

pub record IsStamps (c : Stamps) : Type 0 where
  pub reads_back : (at : ℕ) → at < stamp_limit → c.time (c.stamp at) ≡ at

-- What `errors.Is` and `errors.As` say of an error of a context or of Connect, and its text.
pub record Kinds : Type 0 where
  pub is_canceled : Error → Bool
  pub is_deadline : Error → Bool
  pub rpc_of : Error → Option RpcError
  pub text : Error → Text

pub record WireMeta : Type 0 where
  pub size : ℕ
  pub mod_time : Option Text
  pub content_type : Text
  pub immutable : Bool

pub record StatResponse : Type 0 where
  pub exists : Bool
  pub meta : Option WireMeta

-- The parts of a message, or none of them.
pub data GetResponse : Type 0 where
  got_meta : WireMeta → GetResponse
  got_chunk : Bytes → GetResponse
  got_nothing : GetResponse

pub data PutRequest : Type 0 where
  put_header : (key : Text) → Option WireMeta → PutRequest
  put_chunk : Bytes → PutRequest
  put_nothing : PutRequest

abbrev pub chunk_size : ℕ
chunk_size = 2 ^ 20

abbrev pub joined_bytes : List Bytes → Bytes
joined_bytes [] = []
joined_bytes (b ∷ bs) = b ++ joined_bytes bs

-- How a stream of bytes is cut by reads into a buffer of `chunk_size`.
pub record IsReads (reads : Bytes → List Bytes) : Type 0 where
  pub whole : (b : Bytes) → joined_bytes (reads b) ≡ b
  pub small : (b : Bytes) → All (λ c. length c ≤ chunk_size) (reads b)
