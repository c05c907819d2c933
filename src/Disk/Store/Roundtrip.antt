-- ===== src/Disk/Store/Roundtrip.antt =====
-- An object that was put is read back.
use ci_cache.Base.{
  Bool, Bool-cases, Bytes, Option-cases, Text, [], add64, ap, eqb, eqb_refl, false, half_word,
  if◌then◌else◌, inl, inr, is_some, length, lookup, lookup-insert, none, refl, some, sym, take,
  true, ℕ, ◌&&◌, ◌++◌, ◌<◌, ◌∙◌, ◌∷◌, ◌≡◌,
}
use ci_cache.Tier.{Meta, Reader, exists, found, sentinel}
use ci_cache.Disk.Header.{Header, Json, decode_header, encode_header, header_size}
use ci_cache.Disk.Volume.{Disk}
use ci_cache.Disk.Store.{
  Faults, Host, admitted, answer_get, commit, empty_key, encode_error, first_of, get, header_error,
  header_for, meta_of, no_meta, observe, open_object, opened, put, readable, write,
}
use ci_cache.Disk.Header.Roundtrip.{IsJson, ReadsBack, decode-encode_header}

-- The disk of the shared state is what was put there, and `notify` leaves it alone.
pub record IsHost {S : Type 0} (host : Host S) : Type 0 where
  pub with_is : (d : Disk) (s : S) → host.disk (host.with_disk d s) ≡ d
  pub notify_keeps : (s : S) → host.disk (host.notify s) ≡ host.disk s

pub record NoFaults (f : Faults) : Type 0 where
  pub runs : f.cancelled ≡ none
  pub opens : f.open_fails ≡ none
  pub reads : f.unreadable ≡ false

take-length : (b : Bytes) → take (length b) b ≡ b
take-length [] = refl
take-length (x ∷ b) = ap (λ l. x ∷ l) (take-length b)

module _ (j : Json) (path : Text → Text) (stuck : Text → Bool) where
  get_file :
      (f : Faults) (key : Text) (at p : ℕ) (d : Disk) (file body : Bytes) (h : Header)
      → NoFaults f
      → lookup (path key) d.files ≡ some file
      → decode_header j file ≡ some (h, body)
      → eqb h.key key ≡ true
      → (get j path stuck f key at p d).1
        ≡ found (record { content = take h.size body; broken = none }) (meta_of h)
  unfolding get open_object first_of readable
  get_file f key at p d file body h ok there decodes same =
      let first : open_object j path stuck f key at p d
          ≡ (observe j path stuck key h at p d, opened h body) =
        rw (open_object, ok.runs, ok.opens, there, readable, ok.reads, decodes, same) refl in
      ap (λ x. (answer_get j path stuck x).1) first

  module _ {S : Type 0} (host : Host S) where
    -- A write that returns no error has committed the file.
    pub write_done :
        (f : Faults) (key : Text) (r : Reader) (m : Meta) (at p : ℕ) (s : S)
        → (write j path stuck host f key r m at p s).1 ≡ none
        → let h = header_for key (length r.content) m in
          (b : Bytes) × (encode_header j h ≡ some b)
          × ((write j path stuck host f key r m at p s).0
              ≡ host.notify (
                  host.with_disk (commit j path stuck key h (b ++ r.content) at p (host.disk s)) s))
    unfolding write
    write_done f key r m at p s ok =
        let h = header_for key (length r.content) m in
        let blank = encode_error (encode_header j (header_for key 0 no_meta)) in
        elim (Option-cases (first_of (first_of f.before_copy ∷ blank ∷ r.broken ∷ []))) [
          | inr (e, bad) ↦
              let fails : (write j path stuck host f key r m at p s).1 ≡ some e =
                rw (write, bad) refl in
              absurd (cc)
          | inl good ↦ elim (Option-cases (encode_header j h)) [
            | inl n ↦
                let fails : (write j path stuck host f key r m at p s).1 ≡ some header_error =
                  rw (write, good, n) refl in
                absurd (cc)
            | inr (b, e) ↦ elim (Option-cases (first_of f.after_copy)) [
              | inr (d, bad) ↦
                  let fails : (write j path stuck host f key r m at p s).1 ≡ some d =
                    rw (write, good, e, bad) refl in
                  absurd (cc)
              | inl k ↦ (b, e, rw (write, good, e, k) refl)
            ]
          ]
        ]

    -- A `Put` that returns no error was admitted, and its write returned none.
    pub put_done :
        (f : Faults) (key : Text) (r : Reader) (m : Meta) (at p : ℕ) (s : S)
        → (put j path stuck host f key r m at p s).1 ≡ none
        → let s1 = (host.admit (add64 header_size m.size) s).0 in
          ((host.admit (add64 header_size m.size) s).1 ≡ none)
          × ((write j path stuck host f key r m at p s1).1 ≡ none)
          × ((put j path stuck host f key r m at p s).0
              ≡ (write j path stuck host f key r m at p s1).0)
    unfolding put
    put_done f key r m at p s ok =
        let out = host.admit (add64 header_size m.size) s in
        let again = m.immutable && is_some (lookup (path key) (host.disk s).files) in
        elim (Option-cases (first_of (f.cancelled ∷ empty_key key ∷ []))) [
          | inr (e, bad) ↦
              let fails : (put j path stuck host f key r m at p s).1 ≡ some e =
                rw (put, bad) refl in
              absurd (cc)
          | inl good ↦ elim (Bool-cases again) [
            | inl old ↦
                let fails : (put j path stuck host f key r m at p s).1 ≡ some (sentinel exists) =
                  rw (put, good, old) refl in
                absurd (cc)
            | inr new ↦
                let is : put j path stuck host f key r m at p s
                    ≡ admitted j path stuck host f key r m at p out =
                  rw (put, good, new) refl in
                elim (Option-cases out.1) [
                  | inr (e, bad) ↦
                      let fails : (put j path stuck host f key r m at p s).1 ≡ some e =
                        ap (λ x. x.1)
                          (is
                            ∙ ap (λ o. admitted j path stuck host f key r m at p (out.0, o)) bad) in
                      absurd (cc)
                  | inl k ↦
                      let goes =
                        is ∙ ap (λ o. admitted j path stuck host f key r m at p (out.0, o)) k in
                      (k, sym (ap (λ x. x.1) goes) ∙ ok, ap (λ x. x.0) goes)
                ]
          ]
        ]

    -- An object that was put without error is what a read of its key gives, whatever was there, if no system call of the read fails, its length is an int64, and the JSON of its header reads back, as it does where the key and the content type are valid UTF-8: all its bytes, their number, and the other metadata as given. The JSON of a header is one line and not empty, and the collector leaves the disk alone when it is told of the write.
    pub get-put_object :
        (f g : Faults) (key : Text) (r : Reader) (m : Meta) (at p at' p' : ℕ) (s : S)
        → IsJson j
        → ReadsBack j (header_for key (length r.content) m)
        → IsHost host
        → NoFaults g
        → length r.content < half_word
        → (put j path stuck host f key r m at p s).1 ≡ none
        → (get j path stuck g key at' p' (host.disk (put j path stuck host f key r m at p s).0)).1
          ≡ found
              (record { content = r.content; broken = none })
              (record m { size = length r.content })
    unfolding commit meta_of
    get-put_object f g key r m at p at' p' s json reads hosts runs small ok =
        let (admits, writes, same) = put_done f key r m at p s ok in
        let s1 = (host.admit (add64 header_size m.size) s).0 in
        let (b, e, after) = write_done f key r m at p s1 writes in
        let h = header_for key (length r.content) m in
        let d = commit j path stuck key h (b ++ r.content) at p (host.disk s1) in
        let now_disk : host.disk (put j path stuck host f key r m at p s).0 ≡ d =
          ap host.disk (same ∙ after)
          ∙ hosts.notify_keeps (host.with_disk d s1)
          ∙ hosts.with_is d s1 in
        let there : lookup (path key) d.files ≡ some (b ++ r.content) =
          lookup-insert (path key) (path key) (b ++ r.content) (host.disk s1).files
          ∙ ap (λ t. if t then some (b ++ r.content) else lookup (path key) (host.disk s1).files)
              (eqb_refl (path key)) in
        let back = (decode-encode_header j h b r.content json reads small e).1 in
        ap (λ d. (get j path stuck g key at' p' d).1) now_disk
        ∙ get_file g key at' p' d (b ++ r.content) r.content h runs there back (eqb_refl key)
        ∙ ap (λ c. found (record { content = c; broken = none }) (meta_of h))
            (take-length r.content)
