-- ===== src/Disk/Store/Sample.antt =====
-- A small encoding of two headers that meets what is asked of encoding/json, for tests.
use ci_cache.Base.{
  Bool, Bool-cases, Bytes, Option, Text, [], arith, codes, eqb, eqb_iff, false, if◌then◌else◌, inl,
  inr, none, not, refl, some, suc, true, zero, ◌&&◌, ◌==◌, ◌∷◌, ◌≡◌, ◌⊎◌,
}
use ci_cache.Tier.{Meta}
use ci_cache.Disk.Header.{Header, Json}
use ci_cache.Disk.Header.Roundtrip.{IsJson, ReadsBack}
use ci_cache.Disk.Store.{header_for, no_meta}

abbrev pub name : Text
name = codes "go/c"

abbrev pub object : Meta
object = record { size = 3; mod_time = 7; content_type = []; immutable = true }

abbrev pub final_header : Header
final_header = header_for name 3 object

abbrev pub blank_header : Header
blank_header = header_for name 0 no_meta

abbrev both : Bool → Bool → Bool
both true b = b
both false b = not b

unfoldable pub same : Header → Header → Bool
same h g =
    eqb h.key g.key
    && (h.size == g.size
        && (h.mod_time == g.mod_time
            && (eqb h.content_type g.content_type && both h.immutable g.immutable)))

same_eq : (h g : Header) → same h g ≡ true → h ≡ g
unfolding same
same_eq h g e = ground (arith, eqb_iff h.key g.key, eqb_iff h.content_type g.content_type)

unfoldable pub write_json : Header → Option Bytes
unfolding same
write_json h =
    if same h final_header
    then some (1 ∷ [])
    else if same h blank_header
    then some (2 ∷ [])
    else none

unfoldable pub read_json : Bytes → Option Header
read_json (suc zero ∷ []) = some final_header
read_json (suc (suc zero) ∷ []) = some blank_header
read_json _ = none

abbrev pub json : Json
json = record { marshal = write_json; unmarshal = read_json }

write_json-cases :
    (h : Header) (b : Bytes)
    → write_json h ≡ some b
    → ((h ≡ final_header) × (b ≡ 1 ∷ [])) ⊎ ((h ≡ blank_header) × (b ≡ 2 ∷ []))
unfolding write_json
write_json-cases h b e = elim (Bool-cases (same h final_header)) [
  | inl s ↦ inl (same_eq h final_header s, ground (arith, s, e))
  | inr n ↦ elim (Bool-cases (same h blank_header)) [
    | inl s ↦ inr (same_eq h blank_header s, ground (arith, n, s, e))
    | inr k ↦ absurd (ground (arith, n, k, e))
  ]
]

pub json-IsJson : IsJson json
unfolding read_json
json-IsJson = record {
  one_line = λ h b e. elim (write_json-cases h b e) [
    | inl (p, q) ↦ rw q (refl, tt)
    | inr (p, q) ↦ rw q (refl, tt)
  ];
  not_empty = λ h b e. elim (write_json-cases h b e) [
    | inl (p, q) ↦ rw q (omega arith)
    | inr (p, q) ↦ rw q (omega arith)
  ];
}

pub json-ReadsBack : (h : Header) → ReadsBack json h
unfolding read_json
json-ReadsBack h b e = elim (write_json-cases h b e) [
  | inl (p, q) ↦ rw (p, q) refl
  | inr (p, q) ↦ rw (p, q) refl
]
