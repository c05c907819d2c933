-- ===== src/Remote/Tests.antt =====
-- Runs of the remote tier over a server of a map in memory, and its theorems at them.
use ci_cache.Base.{
  Bytes, Text, [], arith, codes, eqb, insert, is_some, length, lookup, refl, some, true, ◌++◌, ◌∷◌,
  ◌≡◌,
}
use ci_cache.Tier.{
  Meta, Reader, Tier, errors_is, exists, failed, found, has, not_found, other, sentinel, wrap,
}
use ci_cache.Tier.Laws.{stream}
use ci_cache.Tier.Sample.{Objects, memory, memory_laws}
use ci_cache.Wire.Sample.{no_kinds, single, single-IsReads, strokes, strokes-IsStamps, ticks}
use ci_cache.CacheService.{
  Progress, chunks, meta_from_proto, meta_to_proto, serve_get, serve_put, serve_stat, stream_body,
  to_connect_error,
}
use ci_cache.CacheService
use ci_cache.Remote.{
  from_connect_error, get_body, plain, put_chunks, put_messages, put_result, read_get, read_stat,
  served,
}
use ci_cache.Remote
use ci_cache.Remote.Served.{SameError, SameGot, SameStated, served_lem}
use ci_cache.Remote.Served.Cut.{cut_get}
use ci_cache.Remote.Served.Broken.{put_broken_stores}
use ci_cache.Remote.Served.Errors.{IsKinds}

no_kinds-IsKinds : IsKinds no_kinds
no_kinds-IsKinds = record { told = λ e r h n. absurd (cc) }

abbrev progress : Reader → Progress
progress r = record { bytes = length r.content; ended = true }

abbrev meta : Meta
meta = record { size = 3; mod_time = 5; content_type = codes "a/b"; immutable = true }

abbrev body : Bytes
body = 1 ∷ 2 ∷ 3 ∷ []

abbrev key : Text
key = codes "go/a"

abbrev held : Objects
held = (key, record { bytes = body; meta = meta }) ∷ []

run : Unit {0}
unfolding serve_get serve_put serve_stat chunks stream_body put_chunks put_messages put_result
    read_get read_stat get_body errors_is from_connect_error to_connect_error eqb lookup insert
    Remote.meta_from_proto Remote.meta_to_proto CacheService.meta_from_proto
    CacheService.meta_to_proto ticks
run = tt

abbrev remote : Tier Objects
remote = served no_kinds strokes single progress memory (codes "remote")

read_back : (remote.get key held).1 ≡ found (stream body) meta
unfolding run
read_back = refl

absent_read :
    (remote.get (codes "go/b") held).1 ≡ failed (wrap (codes "error") (sentinel not_found))
unfolding run
absent_read = refl

served_lem_example :
    (((remote.get key held).0 ≡ held) × SameGot (found (stream body) meta) (remote.get key held).1)
    × (((remote.stat key held).0 ≡ held) × SameStated (has meta) (remote.stat key held).1)
    × (((remote.put key (stream body) meta held).0 ≡ held)
        × SameError (some (sentinel exists)) (remote.put key (stream body) meta held).1)
unfolding lookup eqb
served_lem_example =
    served_lem no_kinds strokes single progress memory (codes "remote") no_kinds-IsKinds
      strokes-IsStamps single-IsReads key body meta held refl (omega arith) (omega arith)
      (omega arith)

-- A wire that breaks after the metadata and one chunk.
abbrev q : Reader
q = record { content = 1 ∷ []; broken = some (other (codes "reset")) }

cut_get_example :
    (r : Reader) × (m : Meta) × (rest : Bytes) × ((memory.get key held).1 ≡ found r m)
    × (meta ≡ m)
    × (r.content ≡ q.content ++ rest)
    × (is_some q.broken ≡ true)
cut_get_example =
    cut_get no_kinds strokes single memory strokes-IsStamps single-IsReads key held 2
      (plain (other (codes "reset"))) q meta (unfold eqb in refl) (unfold lookup eqb in omega arith)
      (unfold run in refl)

abbrev torn : Reader
torn = record { content = 1 ∷ 2 ∷ []; broken = some (other (codes "disk")) }

put_broken_stores_example :
    ((remote.put key torn meta []).1 ≡ some (wrap key (other (codes "disk"))))
    × (memory_laws.view (remote.put key torn meta []).0 key
        ≡ some (1 ∷ 2 ∷ [], record meta { size = 2 }))
put_broken_stores_example =
    put_broken_stores no_kinds strokes single progress memory (codes "remote") no_kinds-IsKinds
      strokes-IsStamps single-IsReads memory_laws key torn (other (codes "disk")) meta []
      (unfold eqb in refl) (omega arith) refl tt (unfold lookup insert in refl)
