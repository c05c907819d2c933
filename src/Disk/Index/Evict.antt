-- ===== src/Disk/Index/Evict.antt =====
-- What `takeLRU` should take: a walk over the entries from the least recently used on.
use ci_cache.Base.{
  Bool, Bool-cases, List, Text, [], arith, eqb, if◌then◌else◌, inl, inr, ltb, ltb→lt, refl, ℕ, ◌++◌,
  ◌+◌, ◌<◌, ◌||◌, ◌∷◌, ◌≡◌, ◌≤◌, ◌⊎◌,
}
use ci_cache.Disk.Index.{Entry}
use ci_cache.Disk.Index.Counts.{total}

-- The empty front-end stands for all of them.
abbrev pub eligible : Text → Entry → Bool
eligible f e = eqb f [] || eqb e.frontend f

-- The victims among `old`, oldest first, with `freed` bytes freed already, and the entries that stay.
unfoldable pub chosen : (n : ℕ) → Text → (freed : ℕ) → List Entry → List Entry
chosen n f freed [] = []
chosen n f freed (e ∷ old) =
    let rest = chosen n f (if eligible f e then freed + e.on_disk else freed) old in
    if ltb freed n then (if eligible f e then e ∷ rest else rest) else []

unfoldable pub kept : (n : ℕ) → Text → (freed : ℕ) → List Entry → List Entry
kept n f freed [] = []
kept n f freed (e ∷ old) =
    let rest = kept n f (if eligible f e then freed + e.on_disk else freed) old in
    if ltb freed n then (if eligible f e then rest else e ∷ rest) else e ∷ old

abbrev pub only_eligible : Text → List Entry → List Entry
only_eligible f [] = []
only_eligible f (e ∷ es) = if eligible f e then e ∷ only_eligible f es else only_eligible f es

-- The entries that may not go.
abbrev pub only_others : Text → List Entry → List Entry
only_others f [] = []
only_others f (e ∷ es) = if eligible f e then only_others f es else e ∷ only_others f es

abbrev pub but_last : List Entry → List Entry
but_last [] = []
but_last (e ∷ []) = []
but_last (e ∷ d ∷ es) = e ∷ but_last (d ∷ es)

-- Nothing but eligible entries is taken, and of these the oldest.
chosen-prefix :
    (n : ℕ) (f : Text) (freed : ℕ) (old : List Entry)
    → only_eligible f old ≡ chosen n f freed old ++ only_eligible f (kept n f freed old)
unfolding chosen kept
chosen-prefix n f freed [] = refl
chosen-prefix n f freed (e ∷ old) =
    ground (arith, chosen-prefix n f (freed + e.on_disk) old, chosen-prefix n f freed old)

-- What may not go stays.
pub chosen-others :
    (n : ℕ) (f : Text) (freed : ℕ) (old : List Entry)
    → only_others f old ≡ only_others f (kept n f freed old)
unfolding kept
chosen-others n f freed [] = refl
chosen-others n f freed (e ∷ old) =
    ground (arith, chosen-others n f (freed + e.on_disk) old, chosen-others n f freed old)

-- Enough is freed, unless nothing eligible is left.
chosen-enough :
    (n : ℕ) (f : Text) (freed : ℕ) (old : List Entry)
    → (n ≤ freed + total (chosen n f freed old)) ⊎ (only_eligible f (kept n f freed old) ≡ [])
unfolding chosen kept
chosen-enough n f freed [] = inr refl
chosen-enough n f freed (e ∷ old) =
    ground (arith, chosen-enough n f (freed + e.on_disk) old, chosen-enough n f freed old)

total-but_last :
    (e : Entry) (es : List Entry)
    → (total (but_last (e ∷ es)) ≤ e.on_disk + total (but_last es))
      × (es ≡ [] → total (but_last (e ∷ es)) ≡ 0)
total-but_last e [] = omega arith
total-but_last e (d ∷ es) = (omega arith, λ h. absurd (cc))

-- Without the last victim it would not have been enough.
chosen-needed :
    (n : ℕ) (f : Text) (freed : ℕ) (old : List Entry)
    → (chosen n f freed old ≡ []) ⊎ (freed + total (but_last (chosen n f freed old)) < n)
unfolding chosen
chosen-needed n f freed [] = inl refl
chosen-needed n f freed (e ∷ old) = elim (Bool-cases (ltb freed n)) [
  | inl more ↦ elim (Bool-cases (eligible f e)) [
    | inl taken ↦
        rw (more, taken)
          (inr (
            needed (chosen n f (freed + e.on_disk) old) (ltb→lt freed n more)
              (chosen-needed n f (freed + e.on_disk) old)))
    | inr left ↦ rw (more, left) (chosen-needed n f freed old)
  ]
  | inr enough ↦ rw enough (inl refl)
]
  where
    needed :
        (rest : List Entry)
        → freed < n
        → (rest ≡ []) ⊎ (freed + e.on_disk + total (but_last rest) < n)
        → freed + total (but_last (e ∷ rest)) < n
    needed rest h (inl none_left) = omega (arith, (total-but_last e rest).1 none_left)
    needed rest h (inr more) = omega (arith, (total-but_last e rest).0)

pub chosen_lem :
    (n : ℕ) (f : Text) (old : List Entry)
    → (only_eligible f old ≡ chosen n f 0 old ++ only_eligible f (kept n f 0 old))
      × ((n ≤ total (chosen n f 0 old)) ⊎ (only_eligible f (kept n f 0 old) ≡ []))
      × ((chosen n f 0 old ≡ []) ⊎ (total (but_last (chosen n f 0 old)) < n))
chosen_lem n f old =
    (chosen-prefix n f 0 old, enough (chosen-enough n f 0 old), needed (chosen-needed n f 0 old))
  where
    enough :
        (n ≤ 0 + total (chosen n f 0 old)) ⊎ (only_eligible f (kept n f 0 old) ≡ [])
        → (n ≤ total (chosen n f 0 old)) ⊎ (only_eligible f (kept n f 0 old) ≡ [])
    enough (inl h) = inl (omega arith)
    enough (inr h) = inr h

    needed :
        (chosen n f 0 old ≡ []) ⊎ (0 + total (but_last (chosen n f 0 old)) < n)
        → (chosen n f 0 old ≡ []) ⊎ (total (but_last (chosen n f 0 old)) < n)
    needed (inl h) = inl h
    needed (inr h) = inr (omega arith)

pub total-chosen :
    (n : ℕ) (f : Text) (freed : ℕ) (old : List Entry)
    → total (chosen n f freed old) + total (kept n f freed old) ≡ total old
unfolding chosen kept
total-chosen n f freed [] = refl
total-chosen n f freed (e ∷ old) =
    ground (arith, total-chosen n f (freed + e.on_disk) old, total-chosen n f freed old)
