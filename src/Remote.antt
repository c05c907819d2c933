-- ===== src/Remote.antt =====
-- engine/remote/remote.go: the tier on the other side of the wire. What a call brings back is an
-- argument: the messages that arrived and what ended them. Timers cancel a call, which then ends
-- by an error.
pub mod Served
mod Tests
use ci_cache.Base.{
  Bool, Bytes, List, Option, Text, [], codes, delete, if◌then◌else◌, none, not, some, ◌==◌, ◌∷◌,
}
use ci_cache.Tier.{
  Error, Got, Meta, Reader, Stated, Tier, errors_is, exists, failed, found, has, lacks, no_space,
  not_found, other, sentinel, wrap,
}
use ci_cache.Wire.{
  GetResponse, Kinds, PutRequest, RpcError, Stamps, StatResponse, WireMeta, absent, already_exists,
  got_chunk, got_meta, got_nothing, put_chunk, put_header, resource_exhausted,
}
use ci_cache.CacheService.{
  Progress, PutAnswer, Sent, StatAnswer, before, rejected, serve_get, serve_put, serve_stat,
  stat_failed, stat_ok, stored, time_of, zero_meta,
}
use ci_cache.CacheService

-- What ends a call: an error of Connect, or another.
pub data Failure : Type 0 where
  rpc : RpcError → Failure
  plain : Error → Failure

-- `fromConnectError`, of an error that is not nil.
unfoldable pub from_connect_error : Failure → Error
from_connect_error (plain e) = e
from_connect_error (rpc r) = elim r.code [
  | absent ↦ wrap r.message (sentinel not_found)
  | already_exists ↦ wrap r.message (sentinel exists)
  | resource_exhausted ↦ wrap r.message (sentinel no_space)
  | _ ↦ other r.message
]

module _ (c : Stamps) where
  -- `metaToProto`.
  unfoldable pub meta_to_proto : Meta → WireMeta
  meta_to_proto m = record {
    size = m.size;
    mod_time = if m.mod_time == 0 then none else some (c.stamp m.mod_time);
    content_type = m.content_type;
    immutable = m.immutable;
  }

  -- `metaFromProto`.
  unfoldable pub meta_from_proto : Option WireMeta → Meta
  meta_from_proto none = zero_meta c
  meta_from_proto (some p) = record {
    size = p.size;
    mod_time = time_of c p.mod_time;
    content_type = p.content_type;
    immutable = p.immutable;
  }

-- What a `Get` brings back: the failure to open the stream, or what was received of it.
pub data Received : Type 0 where
  not_opened : Failure → Received
  received : List GetResponse → Option Failure → Received

abbrev pub ended_by : Option Failure → Option Error
ended_by none = none
ended_by (some f) = some (from_connect_error f)

-- `getStream`: what reads of the stream give. A message that is no chunk has no bytes.
unfoldable pub get_body : List GetResponse → Option Failure → Reader
get_body [] end = record { content = []; broken = ended_by end }
get_body (got_chunk b ∷ ms) end = before b (get_body ms end)
get_body (got_meta p ∷ ms) end = get_body ms end
get_body (got_nothing ∷ ms) end = get_body ms end

abbrev pub no_metadata : Error
no_metadata = other (codes "remote: stream ended before its metadata")

abbrev pub first_chunk : Error
first_chunk = other (codes "remote: first message was a chunk, expected metadata")

-- `Get`, of what the call brings back.
unfoldable pub read_get : Stamps → Received → Got
unfolding from_connect_error meta_from_proto get_body
read_get c (not_opened f) = failed (from_connect_error f)
read_get c (received [] none) = failed no_metadata
read_get c (received [] (some f)) = failed (from_connect_error f)
read_get c (received (got_meta p ∷ ms) end) = found (get_body ms end) (meta_from_proto c (some p))
read_get c (received (got_chunk b ∷ ms) end) = failed first_chunk
read_get c (received (got_nothing ∷ ms) end) = failed first_chunk

pub data StatReceived : Type 0 where
  stat_received : StatResponse → StatReceived
  stat_refused : Failure → StatReceived

-- `Stat`.
unfoldable pub read_stat : Stamps → Text → StatReceived → Stated
unfolding from_connect_error meta_from_proto
read_stat c key (stat_refused f) = lacks (from_connect_error f)
read_stat c key (stat_received s) =
    if s.exists then has (meta_from_proto c s.meta) else lacks (wrap key (sentinel not_found))

-- The chunks of a `Put`, by what each read of the body gave.
unfoldable pub put_chunks : List Bytes → List PutRequest
put_chunks [] = []
put_chunks ([] ∷ bs) = put_chunks bs
put_chunks ((x ∷ b) ∷ bs) = put_chunk (x ∷ b) ∷ put_chunks bs

-- What `Put` sends, if no send fails. The stream is then closed, also if the body broke off.
unfoldable pub put_messages :
    Stamps → (reads : Bytes → List Bytes) → Text → Reader → Meta → List PutRequest
unfolding meta_to_proto put_chunks
put_messages c reads key r m =
    put_header key (some (meta_to_proto c m)) ∷ put_chunks (reads r.content)

-- Whether all was sent; a send on a stream that the server has ended fails by EOF.
pub data Sends : Type 0 where
  all_sent : Sends
  send_failed : (by_eof : Bool) → Failure → Sends

-- `closePut`, of what the server answers.
unfoldable pub close_put : (by_eof : Bool) → Failure → Option Failure → Option Error
unfolding from_connect_error
close_put by_eof f (some g) = some (from_connect_error g)
close_put by_eof f none = if by_eof then none else some (from_connect_error f)

-- `Put`, of what became of its sends and of what the server answers.
unfoldable pub put_result : Text → Reader → Sends → Option Failure → Option Error
unfolding close_put from_connect_error
put_result key r (send_failed by_eof f) answer = close_put by_eof f answer
put_result key r all_sent answer = elim r.broken [
  | some e ↦ some (wrap key e)
  | none ↦ ended_by answer
]

abbrev pub delete_unsupported : Error
delete_unsupported = other (codes "remote: delete is not part of the wire protocol")

-- `Probe`, of what `Stat` of the sentinel key answers.
unfoldable pub probe_result : Stated → Option Error
probe_result (has m) = none
probe_result (lacks e) = if errors_is e not_found then none else some e

abbrev pub stat_of : StatAnswer → StatReceived
stat_of (stat_ok s) = stat_received s
stat_of (stat_failed r) = stat_refused (rpc r)

abbrev pub answer_of : PutAnswer → Option Failure
answer_of (stored n) = none
answer_of (rejected r) = some (rpc r)

abbrev pub failure_of : Option RpcError → Option Failure
failure_of none = none
failure_of (some r) = some (rpc r)

module _ (k : Kinds) (c : Stamps) (reads : Bytes → List Bytes) (progress : Reader → Progress)
    {W : Type 0} (t : Tier W) (label : Text) where
  abbrev pub got_over : W × Sent → W × Got
  got_over (w, s) = (w, read_get c (received s.messages (failure_of s.status)))

  abbrev pub stated_over : Text → W × StatAnswer → W × Stated
  stated_over key (w, s) = (w, read_stat c key (stat_of s))

  abbrev pub put_over : Text → Reader → W × PutAnswer → W × Option Error
  put_over key r (w, a) = (w, put_result key r all_sent (answer_of a))

  -- The remote tier in front of a server of `t`, over a wire that delivers what is sent.
  abbrev pub served : Tier W
  served = record {
    name = label;
    get = λ key w. got_over (serve_get k c t reads key w);
    put = λ key r m w.
        put_over key r (serve_put k c t progress (put_messages c reads key r m) none w);
    stat = λ key w. stated_over key (serve_stat k c t key w);
    delete = λ key w. (w, some (wrap key delete_unsupported));
  }
