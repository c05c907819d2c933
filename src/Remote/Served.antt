-- ===== src/Remote/Served.antt =====
-- A tier behind the wire is the tier.
pub mod Errors
pub mod Cut
pub mod Broken
use ci_cache.Base.{
  ==_iff, Bool-cases, Bytes, List, Option, Text, [], ap, ap₂, eqb, false, if◌then◌else◌, inl, inr,
  is_some, none, refl, some, subst, sym, ℕ, ◌<◌, ◌==◌, ◌∙◌, ◌∷◌, ◌≡◌,
}
use ci_cache.Tier.{
  Error, Got, Meta, Reader, Stated, Tier, errors_is, failed, found, has, lacks, not_found,
}
use ci_cache.Tier
use ci_cache.Tier.Laws.{stream}
use ci_cache.Wire.{IsReads, IsStamps, Kinds, Stamps, joined_bytes, stamp_limit}
use ci_cache.CacheService.{
  Progress, before, chunks, end_status, get_answered, meta_from_proto, meta_to_proto, put_answer,
  put_answered, put_body, seen, serve_get, serve_put, serve_stat, stat_answered, stream_body,
  time_of,
}
use ci_cache.CacheService
use ci_cache.Remote.{
  Failure, all_sent, answer_of, ended_by, failure_of, get_body, got_over, put_chunks, put_messages,
  put_over, put_result, read_get, read_stat, served, stated_over,
}
use ci_cache.Remote
use ci_cache.Remote.Served.Errors.{IsKinds, known, known-over, known_absent}

-- The same answer to a read, up to the text of an error.
abbrev pub SameGot : Got → Got → Type 0
SameGot (found r m) (found q n) =
    (q.content ≡ r.content) × (is_some q.broken ≡ is_some r.broken) × (n ≡ m)
SameGot (failed e) (failed d) = known d ≡ known e
SameGot _ _ = ⊥

abbrev pub SameStated : Stated → Stated → Type 0
SameStated (has m) (has n) = n ≡ m
SameStated (lacks e) (lacks d) = known d ≡ known e
SameStated _ _ = ⊥

abbrev pub SameError : Option Error → Option Error → Type 0
SameError none none = Unit
SameError (some e) (some d) = known d ≡ known e
SameError _ _ = ⊥

-- The modification times that a protobuf timestamp holds.
abbrev pub TimelyGot : Got → Type 0
TimelyGot (found r m) = m.mod_time < stamp_limit
TimelyGot (failed e) = Unit

abbrev pub TimelyStated : Stated → Type 0
TimelyStated (has m) = m.mod_time < stamp_limit
TimelyStated (lacks e) = Unit

stamped :
    (c : Stamps) (law : IsStamps c) (at : ℕ)
    → at < stamp_limit
    → time_of c (if at == 0 then none else some (c.stamp at)) ≡ at
stamped c law at h = elim (Bool-cases (at == 0)) [
  | inl zero_time ↦ rw zero_time (sym ((==_iff at 0).0 zero_time))
  | inr set ↦ rw set (law.reads_back at h)
]

-- Metadata that the server sends is what the client reads, and the other way round.
pub received-meta :
    (c : Stamps) (law : IsStamps c) (m : Meta)
    → m.mod_time < stamp_limit
    → (Remote.meta_from_proto c (some (CacheService.meta_to_proto c m)) ≡ m)
      × (CacheService.meta_from_proto c (some (Remote.meta_to_proto c m)) ≡ m)
unfolding Remote.meta_from_proto Remote.meta_to_proto CacheService.meta_from_proto
    CacheService.meta_to_proto
received-meta c law m h =
    let e = stamped c law m.mod_time h in
    (ap (λ at. record m { mod_time = at }) e, ap (λ at. record m { mod_time = at }) e)

pub get_body-chunks :
    (bs : List Bytes) (end : Option Failure)
    → get_body (chunks bs) end ≡ record { content = joined_bytes bs; broken = ended_by end }
unfolding get_body chunks
get_body-chunks [] end = refl
get_body-chunks ([] ∷ bs) end = get_body-chunks bs end
get_body-chunks ((x ∷ b) ∷ bs) end = ap (before (x ∷ b)) (get_body-chunks bs end)

pub stream_body-put_chunks :
    (bs : List Bytes) (end : Option Error)
    → stream_body (put_chunks bs) end ≡ record { content = joined_bytes bs; broken = end }
unfolding stream_body put_chunks
stream_body-put_chunks [] end = refl
stream_body-put_chunks ([] ∷ bs) end = stream_body-put_chunks bs end
stream_body-put_chunks ((x ∷ b) ∷ bs) end = ap (before (x ∷ b)) (stream_body-put_chunks bs end)

module _ (k : Kinds) (c : Stamps) (reads : Bytes → List Bytes) (progress : Reader → Progress)
    {W : Type 0} (t : Tier W) (label : Text) (kinds : IsKinds k) (stamps : IsStamps c)
    (cuts : IsReads reads) where
  ends_alike :
      (key : Text) (e : Option Error)
      → is_some (ended_by (failure_of (end_status k c t key e))) ≡ is_some e
  ends_alike key none = refl
  ends_alike key (some e) = refl

  got_alike :
      (key : Text) (p : W × Got)
      → TimelyGot p.1
      → ((got_over k c reads progress t label (get_answered k c t reads key p)).0 ≡ p.0)
        × SameGot p.1 (got_over k c reads progress t label (get_answered k c t reads key p)).1
  unfolding read_get
  got_alike key (w, failed e) h = (refl, known-over k kinds e)
  got_alike key (w, found r m) h =
      let body = get_body-chunks (reads r.content) (failure_of (end_status k c t key r.broken)) in
      (
        refl,
        (
          ap (λ q. q.content) body ∙ cuts.whole r.content,
          ap (λ q. is_some q.broken) body ∙ ends_alike key r.broken,
          (received-meta c stamps m h).0,
        ),
      )

  stated_alike :
      (key : Text) (p : W × Stated)
      → TimelyStated p.1
      → ((stated_over k c reads progress t label key (stat_answered k c t p)).0 ≡ p.0)
        × SameStated p.1 (stated_over k c reads progress t label key (stat_answered k c t p)).1
  unfolding read_stat errors_is
  stated_alike key (w, has m) h = (refl, (received-meta c stamps m h).0)
  stated_alike key (w, lacks e) h = (
    refl,
    elim (Bool-cases (errors_is e not_found)) [
      | inl p ↦ rw p (sym (known_absent e p))
      | inr p ↦ rw p (known-over k kinds e)
    ],
  )

  seen-none : (b : Bytes) (p : Progress) → seen k c t (stream b) p ≡ none
  seen-none b p = elim (Bool-cases p.ended) [ inl e ↦ rw e refl | inr e ↦ rw e refl ]

  put_alike :
      (key : Text) (b : Bytes) (n : Progress) (p : W × Option Error)
      → ((put_over k c reads progress t label key (stream b) (put_answered k c t (stream b) n p)).0
          ≡ p.0)
        × SameError p.1
            (put_over k c reads progress t label key
              (stream b)
              (put_answered k c t (stream b) n p)).1
  unfolding put_result
  put_alike key b n (w, some e) = (refl, known-over k kinds e)
  put_alike key b n (w, none) =
      let answered : Option Error → Type 0 = λ o.
        SameError none (put_result key (stream b) all_sent (answer_of (put_answer k c t n o))) in
      (refl, subst answered (sym (seen-none b n)) tt)

  -- What arrives of a `Put` is what was sent.
  pub put_arrives :
      (key : Text) (b : Bytes) (m : Meta) (w : W)
      → eqb key [] ≡ false
      → m.mod_time < stamp_limit
      → serve_put k c t progress (put_messages c reads key (stream b) m) none w
        ≡ put_body k c t progress key m (stream b) w
  unfolding serve_put put_messages
  put_arrives key b m w named timely =
      let body : stream_body (put_chunks (reads b)) none ≡ stream b =
        stream_body-put_chunks (reads b) none ∙ ap stream (cuts.whole b) in
      rw named
        (ap₂ (λ n s. put_body k c t progress key n s w) (received-meta c stamps m timely).1 body)

  -- Over a wire that delivers what is sent, the remote tier in front of a server does under a key that is not empty what the tier behind the server does: `Get`, `Stat`, and `Put` of a body that reads to its end, leave the same state, and answer the same bytes, the same metadata and the same sentinel error, if it is one; a body ends by an error exactly if the tier's does. The modification times are those that protobuf holds; reads keep the bytes; and an error that the tier has from Connect has a sentinel's code only if it is that sentinel.
  pub served_lem :
      (key : Text) (b : Bytes) (m : Meta) (w : W)
      → eqb key [] ≡ false
      → m.mod_time < stamp_limit
      → TimelyGot (t.get key w).1
      → TimelyStated (t.stat key w).1
      → let s = served k c reads progress t label in
        (((s.get key w).0 ≡ (t.get key w).0) × SameGot (t.get key w).1 (s.get key w).1)
        × (((s.stat key w).0 ≡ (t.stat key w).0) × SameStated (t.stat key w).1 (s.stat key w).1)
        × (((s.put key (stream b) m w).0 ≡ (t.put key (stream b) m w).0)
            × SameError (t.put key (stream b) m w).1 (s.put key (stream b) m w).1)
  unfolding serve_get serve_stat
  served_lem key b m w named timely get_timely stat_timely =
      let put_same = put_alike key b (progress (stream b)) (t.put key (stream b) m w) in
      let arrives = put_arrives key b m w named timely in
      (
        rw (serve_get, named) (got_alike key (t.get key w) get_timely),
        rw (serve_stat, named) (stated_alike key (t.stat key w) stat_timely),
        rw arrives put_same,
      )
