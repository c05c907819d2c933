-- ===== src/Agent/Objects/Places.antt =====
-- What `have` and `write` of agent/objects.go answer is a file that is there.
use ci_cache.Base.{
  Bool-cases, Bytes, Option, Text, [], ap, arith, codes, eqb, eqb_refl, false, if◌then◌else◌, inl,
  inr, insert, length, lookup, lookup-insert, none, refl, slt, some, subst, sym, ℕ, ◌∙◌, ◌≡◌,
}
use ci_cache.Tier.{Error, Reader, other}
use ci_cache.Agent.Objects.{
  Faults, Files, copied, drained, first_error, found_file, have, other_size, path, renamed,
  unwritten, write, write_if, write_new, written,
}

-- A file, of the size that was asked for if one was.
pub record IsFile (place : Text) (size : ℕ) (files : Files) : Type 0 where
  pub content : Bytes
  pub there : lookup place files ≡ some content
  pub sized : other_size size (length content) ≡ false

found_file_lem :
    (place : Text) (size : ℕ) (o : Option Bytes) (p : Text)
    → found_file place size o ≡ some p
    → (p ≡ place) × (b : Bytes) × (o ≡ some b) × (other_size size (length b) ≡ false)
found_file_lem place size none p h = absurd (cc)
found_file_lem place size (some b) p h = elim (Bool-cases (other_size size (length b))) [
  | inl differs ↦ absurd (ground (arith, h, differs))
  | inr same ↦ let e : some place ≡ some p = ground (arith, h, same) in (cc, b, refl, same)
]

pub have-IsFile :
    (dir id : Text) (size : ℕ) (files : Files) (p : Text)
    → have dir id size files ≡ some p
    → IsFile p size files
unfolding have
have-IsFile dir id size files p h = elim (Bool-cases (eqb id [])) [
  | inl none_given ↦ absurd (ground (arith, h, none_given))
  | inr given ↦
      let place = path dir id in
      let k : found_file place size (lookup place files) ≡ some p = ground (arith, h, given) in
      let (e, b, there, sized) = found_file_lem place size (lookup place files) p k in
      subst (λ p. IsFile p size files) (sym e)
        (record { content = b; there = there; sized = sized })
]

drained_lem :
    (q : Text) (size k : ℕ) (e : Option Error) (p : Text) (n : ℕ)
    → drained q size k e ≡ written p n
    → q ≡ p
drained_lem q size k (some e) p n h = absurd (cc)
drained_lem q size k none p n h = cc

renamed_lem :
    (place : Text) (b : Bytes) (files : Files) (e : Option Error) (p : Text) (n : ℕ)
    → (renamed place b files e).1 ≡ written p n
    → (place ≡ p) × ((renamed place b files e).0 ≡ insert place b files)
renamed_lem place b files (some e) p n h = absurd (cc)
renamed_lem place b files none p n h = (cc, refl)

copied_lem :
    (f : Faults) (place : Text) (size : ℕ) (b : Bytes) (files : Files) (e : Option Error) (p : Text)
    (n : ℕ)
    → (copied f place size b files e).1 ≡ written p n
    → (place ≡ p)
      × (other_size size (length b) ≡ false)
      × ((copied f place size b files e).0 ≡ insert place b files)
copied_lem f place size b files (some e) p n h = absurd (cc)
copied_lem f place size b files none p n h = elim (Bool-cases (other_size size (length b))) [
  | inl differs ↦ absurd (ground (arith, h, differs))
  | inr same ↦
      let done : copied f place size b files none ≡ renamed place b files f.renaming =
        ap
          (λ t.
            if t
            then (files, unwritten (other (codes "agent: object size")))
            else renamed place b files f.renaming)
          same in
      let (e, after) = renamed_lem place b files f.renaming p n (sym (ap (λ t. t.1) done) ∙ h) in
      (e, same, ap (λ t. t.0) done ∙ after)
]

write_if-IsFile :
    (f : Faults) (place : Text) (size : ℕ) (r : Reader) (files : Files) (o : Option Text) (p : Text)
    (n : ℕ)
    → ((q : Text) → o ≡ some q → IsFile q size files)
    → (write_if f place size r files o).1 ≡ written p n
    → IsFile p size (write_if f place size r files o).0
write_if-IsFile f place size r files (some q) p n i h =
    subst (λ p. IsFile p size files) (drained_lem q size (length r.content) r.broken p n h)
      (i q refl)
write_if-IsFile f place size r files none p n i h =
    let (e, sized, after) =
      copied_lem f place size r.content files
        (first_error f.opening (first_error r.broken f.copying)) p n h in
    let there : lookup place (insert place r.content files) ≡ some r.content =
      lookup-insert place place r.content files
      ∙ ap (λ t. if t then some r.content else lookup place files) (eqb_refl place) in
    let i : IsFile place size (insert place r.content files) = record {
      content = r.content;
      there = there;
      sized = sized;
    } in
    subst (λ p. IsFile p size (write_new f place size r files).0) e
      (subst (IsFile place size) (sym after) i)

pub write-IsFile :
    (f : Faults) (dir id : Text) (size : ℕ) (r : Reader) (files : Files) (p : Text) (n : ℕ)
    → (write f dir id size r files).1 ≡ written p n
    → IsFile p size (write f dir id size r files).0
unfolding write
write-IsFile f dir id size r files p n h =
    write_if-IsFile f (path dir id) size r files (have dir id size files) p n
      (have-IsFile dir id size files) h

pub any_size :
    (place : Text) (size : ℕ) (files : Files) → IsFile place size files → IsFile place 0 files
unfolding slt
any_size place size files i = record { content = i.content; there = i.there; sized = refl }
