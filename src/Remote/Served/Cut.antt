-- ===== src/Remote/Served/Cut.antt =====
-- A read over a wire that breaks.
use ci_cache.Base.{
  Bytes, List, Option, Text, [], ap, append_assoc, eqb, false, is_some, refl, some, suc, sym, take,
  true, zero, ℕ, ◌++◌, ◌∙◌, ◌∷◌, ◌≡◌,
}
use ci_cache.Tier.{Got, Meta, Reader, Tier, failed, found}
use ci_cache.Wire.{
  GetResponse, IsReads, IsStamps, Kinds, Stamps, got_chunk, got_meta, got_nothing, joined_bytes,
}
use ci_cache.CacheService.{
  chunks, get_answered, get_sent, meta_from_proto, meta_to_proto, serve_get,
}
use ci_cache.CacheService
use ci_cache.Remote.{Failure, from_connect_error, get_body, read_get, received}
use ci_cache.Remote
use ci_cache.Remote.Served.{TimelyGot, received-meta}

get_body-broken :
    (ms : List GetResponse) (f : Failure)
    → (get_body ms (some f)).broken ≡ some (from_connect_error f)
unfolding get_body
get_body-broken [] f = refl
get_body-broken (got_chunk b ∷ ms) f = get_body-broken ms f
get_body-broken (got_meta p ∷ ms) f = get_body-broken ms f
get_body-broken (got_nothing ∷ ms) f = get_body-broken ms f

-- The bytes of the first messages are a part of the whole.
get_body-take :
    (n : ℕ) (bs : List Bytes) (end : Option Failure)
    → (rest : Bytes) × (joined_bytes bs ≡ (get_body (take n (chunks bs)) end).content ++ rest)
unfolding get_body chunks
get_body-take zero bs end = (joined_bytes bs, refl)
get_body-take (suc n) [] end = ([], refl)
get_body-take (suc n) ([] ∷ bs) end = get_body-take (suc n) bs end
get_body-take (suc n) ((x ∷ b) ∷ bs) end =
    let (rest, e) = get_body-take n bs end in
    (rest, ap (λ s. (x ∷ b) ++ s) e ∙ sym (append_assoc (x ∷ b) _ rest))

module _ (k : Kinds) (c : Stamps) (reads : Bytes → List Bytes) {W : Type 0} (t : Tier W)
    (stamps : IsStamps c) (cuts : IsReads reads) where
  cut_found :
      (key : Text) (got : Got) (n : ℕ) (f : Failure) (q : Reader) (p : Meta)
      → TimelyGot got
      → read_get c (received (take n (get_sent k c t reads key got).messages) (some f)) ≡ found q p
      → (r : Reader) × (m : Meta) × (rest : Bytes) × (got ≡ found r m)
        × (p ≡ m)
        × (r.content ≡ q.content ++ rest)
        × (is_some q.broken ≡ true)
  unfolding read_get
  cut_found key (failed e) zero f q p timely h = absurd (cc)
  cut_found key (failed e) (suc n) f q p timely h = absurd (cc)
  cut_found key (found r m) zero f q p timely h = absurd (cc)
  cut_found key (found r m) (suc n) f q p timely h =
      let body = get_body (take n (chunks (reads r.content))) (some f) in
      let same : body ≡ q = cc in
      let meta_same : Remote.meta_from_proto c (some (CacheService.meta_to_proto c m)) ≡ p = cc in
      let (rest, e) = get_body-take n (reads r.content) (some f) in
      (
        r,
        m,
        rest,
        refl,
        sym meta_same ∙ (received-meta c stamps m timely).0,
        sym (cuts.whole r.content) ∙ e ∙ ap (λ s. s.content ++ rest) same,
        ap (λ s. is_some s.broken) (sym same)
            ∙ ap is_some (get_body-broken (take n (chunks (reads r.content))) f),
      )

  -- If the wire breaks after any number of the messages of a `Get`, what the client is handed is an error, or a body that ends by an error: the metadata is then that of the object, and the bytes are the first of its bytes. A broken wire never hands over a part of an object as the whole.
  pub cut_get :
      (key : Text) (w : W) (n : ℕ) (f : Failure) (q : Reader) (p : Meta)
      → eqb key [] ≡ false
      → TimelyGot (t.get key w).1
      → read_get c (received (take n (serve_get k c t reads key w).1.messages) (some f)) ≡ found q p
      → (r : Reader) × (m : Meta) × (rest : Bytes) × ((t.get key w).1 ≡ found r m)
        × (p ≡ m)
        × (r.content ≡ q.content ++ rest)
        × (is_some q.broken ≡ true)
  unfolding serve_get
  cut_get key w n f q p named timely h =
      let sent : serve_get k c t reads key w ≡ get_answered k c t reads key (t.get key w) =
        rw named refl in
      cut_found key (t.get key w).1 n f q p timely
        (sym (ap (λ s. read_get c (received (take n s.1.messages) (some f))) sent) ∙ h)
