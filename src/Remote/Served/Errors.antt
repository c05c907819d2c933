-- ===== src/Remote/Served/Errors.antt =====
-- The sentinel errors cross the wire as codes.
use ci_cache.Base.{
  Bool-cases, Option, Text, if◌then◌else◌, inl, inr, none, refl, some, true, ◌∙◌, ◌≡◌,
}
use ci_cache.Tier.{Error, Sentinel, errors_is, exists, no_space, not_found}
use ci_cache.Wire.{
  Code, Kinds, RpcError, absent, already_exists, canceled, code_other, deadline_exceeded, internal,
  invalid_argument, resource_exhausted,
}
use ci_cache.CacheService.{rpc_error, rpc_or, to_connect_error}
use ci_cache.Remote.{from_connect_error, rpc}

-- The first sentinel, in the order of the server's tests, that an error is.
abbrev pub known : Error → Option Sentinel
known e =
    if errors_is e not_found
    then some not_found
    else if errors_is e exists
    then some exists
    else if errors_is e no_space
    then some no_space
    else none

abbrev pub code_known : Code → Option Sentinel
code_known absent = some not_found
code_known already_exists = some exists
code_known resource_exhausted = some no_space
code_known _ = none

-- An error that a tier has from Connect has a code of a sentinel only if it is that sentinel.
pub record IsKinds (k : Kinds) : Type 0 where
  pub told :
      (e : Error) (r : RpcError) → k.rpc_of e ≡ some r → known e ≡ none → code_known r.code ≡ none

pub known-from :
    (code : Code) (message : Text)
    → known (from_connect_error (rpc (rpc_error code message))) ≡ code_known code
unfolding from_connect_error errors_is
known-from canceled message = refl
known-from deadline_exceeded message = refl
known-from invalid_argument message = refl
known-from absent message = refl
known-from already_exists message = refl
known-from resource_exhausted message = refl
known-from internal message = refl
known-from (code_other n) message = refl

code_known-or :
    (o : Option RpcError) (message : Text)
    → ((r : RpcError) → o ≡ some r → code_known r.code ≡ none)
    → code_known (rpc_or o (rpc_error internal message)).code ≡ none
code_known-or none message h = refl
code_known-or (some r) message h = h r refl

pub known_absent : (e : Error) → errors_is e not_found ≡ true → known e ≡ some not_found
known_absent e p = rw p refl

-- The codes after those of the sentinels.
code_known-rest :
    (k : Kinds) (e : Error)
    → IsKinds k
    → known e ≡ none
    → code_known
        (if k.is_canceled e
          then rpc_error canceled (k.text e)
          else if k.is_deadline e
          then rpc_error deadline_exceeded (k.text e)
          else rpc_or (k.rpc_of e) (rpc_error internal (k.text e))).code
      ≡ none
code_known-rest k e law h = elim (Bool-cases (k.is_canceled e)) [
  | inl p ↦ rw p refl
  | inr p ↦ elim (Bool-cases (k.is_deadline e)) [
    | inl q ↦ rw (p, q) refl
    | inr q ↦ rw (p, q) (code_known-or (k.rpc_of e) (k.text e) (λ r o. law.told e r o h))
  ]
]

code_known-to :
    (k : Kinds) → IsKinds k → (e : Error) → code_known (to_connect_error k e).code ≡ known e
unfolding to_connect_error
code_known-to k law e = elim (Bool-cases (errors_is e not_found)) [
  | inl p ↦ rw p refl
  | inr p ↦ elim (Bool-cases (errors_is e exists)) [
    | inl q ↦ rw (p, q) refl
    | inr q ↦ elim (Bool-cases (errors_is e no_space)) [
      | inl r ↦ rw (p, q, r) refl
      | inr r ↦
          let unknown : known e ≡ none = rw (p, q, r) refl in
          rw (p, q, r) (code_known-rest k e law unknown)
    ]
  ]
]

pub known-over :
    (k : Kinds)
    → IsKinds k
    → (e : Error) → known (from_connect_error (rpc (to_connect_error k e))) ≡ known e
known-over k law e =
    let r = to_connect_error k e in known-from r.code r.message ∙ code_known-to k law e
