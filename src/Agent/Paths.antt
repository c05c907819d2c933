-- ===== src/Agent/Paths.antt =====
-- The paths that the toolchain is handed.
use ci_cache.Agent
use ci_cache.Gobuild
use ci_cache.Base.{
  Bool, Bool-cases, Bytes, Option, Text, ap, arith, false, if◌then◌else◌, inl, inr, is_some, lookup,
  none, refl, some, subst, sym, true, ℕ, ◌==◌, ◌∙◌, ◌≡◌, ◌≢◌,
}
use ci_cache.Tier.{Error, Meta, Reader, Tier, errors_is, exists}
use ci_cache.Gobuild.{
  Answer, Cache, OutputRead, Resolved, answer_get, answer_read, broken_output, broken_record, bytes,
  declines, get, get_if, hit, meta_for, miss, no_bytes, no_meta, prefixes_from, put, read_in,
  refused, resolve, resolved, unresolved,
}
use ci_cache.Gobuild.Record.{Action}
use ci_cache.Agent.{
  Agent, answer, count_drop, landed, needs, one_more, place_of, put_landed, record_object,
  record_read, reply,
}
use ci_cache.Agent.Objects.{Faults, Files, Written, have, unwritten, write, written}
use ci_cache.Agent.Objects.Places.{IsFile, any_size, have-IsFile, write-IsFile}

answer_read_body :
    {W : Type 0} (t : Tier W) (c : Cache) (id : Text) (a : Action) (from : Text)
    (p : W × OutputRead) (o : Text) (m : Meta)
    → (answer_read t c id a from p).1 ≢ hit o none m
unfolding answer_read
answer_read_body t c id a from (w, bytes r n) o m = λ e. absurd (cc)
answer_read_body t c id a from (w, no_bytes) o m = λ e. absurd (cc)
answer_read_body t c id a from (w, broken_output d) o m = λ e. absurd (cc)

declines_lem :
    (need : Text → ℕ → Bool) (a : Action)
    → declines (some need) a ≡ true
    → need a.output a.mod_time ≡ false
declines_lem need a h = ground (arith, h)

-- What is answered without a body was declined.
declined_from :
    {W : Type 0} (t : Tier W) (c : Cache) (id : Text) (need : Text → ℕ → Bool) (p : W × Resolved)
    (o : Text) (m : Meta)
    → (answer_get t c id (some need) p).1 ≡ hit o none m
    → (at : ℕ) × (need o at ≡ false)
unfolding answer_get
declined_from t c id need (w, broken_record e) o m h = absurd (cc)
declined_from t c id need (w, unresolved) o m h = absurd (cc)
declined_from t c id need (w, resolved a from) o m h =
    let read = read_in t c a.output (prefixes_from c from) w in
    let branch : Bool → Answer = λ b.
      (if b
        then (w, hit a.output none (meta_for no_meta a))
        else answer_read t c id a from read).1 in
    elim (Bool-cases (declines (some need) a)) [
      | inl kept ↦
          let without : Answer = hit a.output none (meta_for no_meta a) in
          let same : without ≡ hit o none m = sym (ap branch kept) ∙ h in
          let e : a.output ≡ o = cc in
          (a.mod_time, subst (λ o. need o a.mod_time ≡ false) e (declines_lem need a kept))
      | inr needed ↦ absurd (answer_read_body t c id a from read o m (sym (ap branch needed) ∙ h))
    ]

some_lem : {A : Type 0} (o : Option A) → is_some o ≡ true → (p : A) × (o ≡ some p)
some_lem none h = absurd (cc)
some_lem (some p) h = (p, refl)

landed-IsFile :
    (output o : Text) (a : Agent) (size : ℕ) (p : Files × Written) (place : Text)
    → ((q : Text) (n : ℕ) → p.1 ≡ written q n → IsFile q size p.0)
    → (landed output a p).1 ≡ reply o place
    → IsFile place size (landed output a p).0.files
landed-IsFile output o a size (files, written q n) place i h =
    let e : q ≡ place = cc in subst (λ q. IsFile q size files) e (i q n refl)
landed-IsFile output o a size (files, unwritten d) place i h = absurd (cc)

needs_lem :
    (dir : Text) (files : Files) (o : Text) (at : ℕ)
    → needs dir files o at ≡ false
    → (p : Text) × (have dir o 0 files ≡ some p)
needs_lem dir files o at h = some_lem (have dir o 0 files) (unfold needs in ground (arith, h))

answer-IsFile :
    (f : Faults) (dir : Text) (a : Agent) (got : Answer) (output place : Text)
    → ((o : Text) (m : Meta) → got ≡ hit o none m → (at : ℕ) × (needs dir a.files o at ≡ false))
    → (answer f dir a got).1 ≡ reply output place
    → IsFile place 0 (answer f dir a got).0.files
unfolding answer
answer-IsFile f dir a (refused e) output place d h = absurd (cc)
answer-IsFile f dir a miss output place d h = absurd (cc)
answer-IsFile f dir a (hit o none m) output place d h =
    let (at, kept) = d o m refl in
    let (p, there) = needs_lem dir a.files o at kept in
    let k : reply o (place_of (have dir o 0 a.files)) ≡ reply output place = h in
    let e : place_of (have dir o 0 a.files) ≡ place = cc in
    let q : p ≡ place = sym (ap place_of there) ∙ e in
    subst (λ p. IsFile p 0 a.files) q (have-IsFile dir o 0 a.files p there)
answer-IsFile f dir a (hit o (some r) m) output place d h =
    any_size place m.size (landed o a (write f dir o m.size r a.files)).0.files (
      landed-IsFile o output a m.size (write f dir o m.size r a.files) place
        (λ q n. write-IsFile f dir o m.size r a.files q n) h)

module _ {W : Type 0} (t : Tier W) (c : Cache) (f : Faults) (dir : Text) where
  -- Whatever the tiers hold and answer, and whatever fails, the path with which `get` replies is that of a file that is there.
  pub get-IsFile :
      (action : Text) (w : W) (a : Agent) (output place : Text)
      → (Agent.get t c f dir action w a).2 ≡ reply output place
      → IsFile place 0 (Agent.get t c f dir action w a).1.files
  unfolding Agent.get get_if
  get-IsFile action w a output place h =
      let b : Agent = record a { gets = one_more a.gets } in
      let need = needs dir a.files in
      answer-IsFile f dir b (get_if t c action (some need) w).1 output place
        (λ o m. declined_from t c action need (resolve t c action w) o m) h

  count_drop_keeps : (e : Option Error) (a : Agent) → (count_drop e a).files ≡ a.files
  count_drop_keeps none a = refl
  count_drop_keeps (some e) a = elim (Bool-cases (errors_is e exists)) [
    | inl old ↦ rw old refl
    | inr drop ↦ rw drop refl
  ]

  record_read_keeps :
      (now : ℕ) (action output : Text) (size at : ℕ) (w : W) (a : Agent) (o : Option Bytes)
      → (record_read t c f dir now action output size at w a o).1.files ≡ a.files
  record_read_keeps now action output size at w a none = refl
  record_read_keeps now action output size at w a (some b) =
      count_drop_keeps
        (Gobuild.put t now action output size at (record { content = b; broken = none }) w).1 a

  put_landed-IsFile :
      (now : ℕ) (action output : Text) (at : ℕ) (w : W) (a : Agent) (size : ℕ) (p : Files × Written)
      (o place : Text)
      → ((q : Text) (n : ℕ) → p.1 ≡ written q n → IsFile q size p.0)
      → (put_landed t c f dir now action output at w a p).2 ≡ reply o place
      → IsFile place size (put_landed t c f dir now action output at w a p).1.files
  unfolding Agent.record_object
  put_landed-IsFile now action output at w a size (files, unwritten e) o place i h = absurd (cc)
  put_landed-IsFile now action output at w a size (files, written q n) o place i h =
      let e : q ≡ place = cc in
      let b : Agent = record a { files = files } in
      let kept = record_read_keeps now action output n at w b (lookup q files) in
      subst (IsFile place size) (sym kept) (subst (λ q. IsFile q size files) e (i q n refl))

  -- Whatever the tiers do, and whatever fails, the path with which `put` replies is that of a file that is there, of the size that was given if that is positive as an int64.
  pub put-IsFile :
      (now : ℕ) (action output : Text) (size mod_time : ℕ) (r : Reader) (w : W) (a : Agent)
      (o place : Text)
      → (Agent.put t c f dir now action output size mod_time r w a).2 ≡ reply o place
      → IsFile place size (Agent.put t c f dir now action output size mod_time r w a).1.files
  unfolding Agent.put
  put-IsFile now action output size mod_time r w a o place h =
      put_landed-IsFile now action output (if mod_time == 0 then now else mod_time) w a size
        (write f dir output size r a.files) o place
        (λ q n. write-IsFile f dir output size r a.files q n) h
