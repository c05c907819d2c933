-- ===== src/Tier/Laws.antt =====
-- What a client may ask of a tier: that it behaves as a map from keys to objects.
use ci_cache.Base.{Bytes, Option, Text, eqb, if◌then◌else◌, is_some, length, none, some, true, ◌≡◌}
use ci_cache.Tier.{
  Error, Meta, Reader, Tier, errors_is, exists, failed, found, has, lacks, not_found, sentinel,
}

-- A stream of bytes that ends well.
abbrev pub stream : Bytes → Reader
stream b = record { content = b; broken = none }

-- The metadata that a tier records, with the size that it received.
abbrev pub measured : Bytes → Meta → Meta
measured b m = record m { size = length b }

-- `view` is what the tier holds in a state. A read drops nothing.
pub record IsMap {W : Type 0} (t : Tier W) : Type 1 where
  pub view : W → Text → Option (Bytes × Meta)
  pub got :
      (k : Text) (w : W) (b : Bytes) (m : Meta)
      → view w k ≡ some (b, m)
      → (t.get k w).1 ≡ found (stream b) m
  pub missed : (k : Text) (w : W) → view w k ≡ none → (t.get k w).1 ≡ failed (sentinel not_found)
  pub got_keeps : (k j : Text) (w : W) → view (t.get k w).0 j ≡ view w j
  pub stated :
      (k : Text) (w : W) (b : Bytes) (m : Meta) → view w k ≡ some (b, m) → (t.stat k w).1 ≡ has m
  pub not_stated :
      (k : Text) (w : W) → view w k ≡ none → (t.stat k w).1 ≡ lacks (sentinel not_found)
  pub stat_keeps : (k j : Text) (w : W) → view (t.stat k w).0 j ≡ view w j
  -- What the tier can record: an entry's name and type have to survive its own format. The size
  -- is the one that was stored, whatever was given. What becomes of other keys is left
  -- open, since a write may evict.
  pub recordable : Text → Bytes → Meta → Type 0
  pub written :
      (k : Text) (b : Bytes) (m : Meta) (w : W)
      → recordable k b m
      → (t.put k (stream b) m w).1 ≡ none
      → view (t.put k (stream b) m w).0 k ≡ some (b, measured b m)
  -- `ErrExists` is for an immutable object whose key is taken.
  pub taken :
      (k : Text) (b : Bytes) (m : Meta) (w : W) (e : Error)
      → (t.put k (stream b) m w).1 ≡ some e
      → errors_is e exists ≡ true
      → (m.immutable ≡ true) × (is_some (view w k) ≡ true)
  pub removed :
      (k j : Text) (w : W) → view (t.delete k w).0 j ≡ (if eqb k j then none else view w j)
