-- ===== src/Remote/Served/Broken.antt =====
-- A write whose body breaks off.
use ci_cache.Base.{Bytes, List, Option, Text, [], ap, eqb, false, none, refl, some, ◌<◌, ◌∙◌, ◌≡◌}
use ci_cache.Tier.{Error, Meta, Reader, Tier, wrap}
use ci_cache.Tier.Laws.{IsMap, measured, stream}
use ci_cache.Wire.{IsReads, IsStamps, Kinds, Stamps, stamp_limit}
use ci_cache.CacheService.{Progress, put_answered, put_body, serve_put}
use ci_cache.Remote.{Failure, all_sent, answer_of, put_messages, put_over, put_result, served}
use ci_cache.Remote.Served.Errors.{IsKinds}
use ci_cache.Remote.Served.{put_arrives}

module _ (k : Kinds) (c : Stamps) (reads : Bytes → List Bytes) (progress : Reader → Progress)
    {W : Type 0} (t : Tier W) (label : Text) (kinds : IsKinds k) (stamps : IsStamps c)
    (cuts : IsReads reads) (l : IsMap t) where
  put_answered_state :
      (body : Reader) (n : Progress) (p : W × Option Error) → (put_answered k c t body n p).0 ≡ p.0
  put_answered_state body n (w, none) = refl
  put_answered_state body n (w, some e) = refl

  put_broken_result :
      (key : Text) (r : Reader) (e : Error) (a : Option Failure)
      → r.broken ≡ some e
      → put_result key r all_sent a ≡ some (wrap key e)
  unfolding put_result
  put_broken_result key r e a h = rw (put_result, h) refl

  -- Over a wire that delivers what is sent, a `Put` under a key that is not empty whose body breaks off reports the error of the body; but the server has stored what was read of it as the object, complete, with the size of what was read and the other metadata that was given, if the tier behind it can record that and takes it. The modification time is one that protobuf holds; reads keep the bytes; and an error that the tier has from Connect has a sentinel's code only if it is that sentinel.
  pub put_broken_stores :
      (key : Text) (r : Reader) (e : Error) (m : Meta) (w : W)
      → eqb key [] ≡ false
      → m.mod_time < stamp_limit
      → r.broken ≡ some e
      → l.recordable key r.content m
      → (t.put key (stream r.content) m w).1 ≡ none
      → let s = served k c reads progress t label in
        ((s.put key r m w).1 ≡ some (wrap key e))
        × (l.view (s.put key r m w).0 key ≡ some (r.content, measured r.content m))
  unfolding put_messages
  put_broken_stores key r e m w named timely broken fits taken =
      let b = r.content in
      let arrives =
        put_arrives k c reads progress t label kinds stamps cuts key b m w named timely in
      let state : (put_over k c reads progress t label key r
            (put_body k c t progress key m (stream b) w)).0
          ≡ (t.put key (stream b) m w).0 =
        put_answered_state (stream b) (progress (stream b)) (t.put key (stream b) m w) in
      let there = l.written key b m w fits taken in
      (
        put_broken_result key r e
            (answer_of (serve_put k c t progress (put_messages c reads key r m) none w).1) broken,
        ap (λ s. l.view (put_over k c reads progress t label key r s).0 key) arrives
            ∙ ap (λ w. l.view w key) state
            ∙ there,
      )
