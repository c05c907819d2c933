-- ===== src/CacheService.antt =====
-- server/cacheservice.go: a tier served over the wire. A stream that is sent is the list of its
-- messages with the status at its end; how the reads cut a body is the parameter `reads`. A send
-- that fails ends the handler, and what it then returns reaches nobody: it is not modelled.
use ci_cache.Base.{
  Bool, Bytes, List, Option, Text, [], codes, eqb, false, if◌then◌else◌, none, some, true, ℕ, ◌++◌,
  ◌==◌, ◌∷◌,
}
use ci_cache.Tier.{
  Error, Got, Meta, Reader, Stated, Tier, errors_is, exists, failed, found, has, lacks, no_space,
  not_found, other,
}
use ci_cache.Wire.{
  Code, GetResponse, Kinds, PutRequest, RpcError, Stamps, StatResponse, WireMeta, absent,
  already_exists, canceled, code_other, deadline_exceeded, got_chunk, got_meta, internal,
  invalid_argument, put_chunk, put_header, put_nothing, resource_exhausted,
}

module _ (c : Stamps) where
  -- `metaToProto`.
  unfoldable pub meta_to_proto : Meta → WireMeta
  meta_to_proto m = record {
    size = m.size;
    mod_time = if m.mod_time == 0 then none else some (c.stamp m.mod_time);
    content_type = m.content_type;
    immutable = m.immutable;
  }

  abbrev pub zero_meta : Meta
  zero_meta = record { size = 0; mod_time = 0; content_type = []; immutable = false }

  abbrev pub time_of : Option Text → ℕ
  time_of none = 0
  time_of (some s) = c.time s

  -- `metaFromProto`.
  unfoldable pub meta_from_proto : Option WireMeta → Meta
  meta_from_proto none = zero_meta
  meta_from_proto (some p) = record {
    size = p.size;
    mod_time = time_of p.mod_time;
    content_type = p.content_type;
    immutable = p.immutable;
  }

abbrev pub rpc_error : Code → Text → RpcError
rpc_error code message = record { code = code; message = message }

abbrev pub invalid : Text → RpcError
invalid message = rpc_error invalid_argument message

abbrev pub rpc_or : Option RpcError → RpcError → RpcError
rpc_or none r = r
rpc_or (some q) r = q

-- `toConnectError`, of an error that is not nil.
unfoldable pub to_connect_error : Kinds → Error → RpcError
to_connect_error k e =
    if errors_is e not_found
    then rpc_error absent (k.text e)
    else if errors_is e exists
    then rpc_error already_exists (k.text e)
    else if errors_is e no_space
    then rpc_error resource_exhausted (k.text e)
    else if k.is_canceled e
    then rpc_error canceled (k.text e)
    else if k.is_deadline e
    then rpc_error deadline_exceeded (k.text e)
    else rpc_or (k.rpc_of e) (rpc_error internal (k.text e))

-- A stream of the server, with none for the status OK.
pub record Sent : Type 0 where
  pub messages : List GetResponse
  pub status : Option RpcError

pub data StatAnswer : Type 0 where
  stat_ok : StatResponse → StatAnswer
  stat_failed : RpcError → StatAnswer

pub data PutAnswer : Type 0 where
  stored : (size : ℕ) → PutAnswer
  rejected : RpcError → PutAnswer

-- The chunks that are sent, by what each read of the body gave.
unfoldable pub chunks : List Bytes → List GetResponse
chunks [] = []
chunks ([] ∷ bs) = chunks bs
chunks ((x ∷ b) ∷ bs) = got_chunk (x ∷ b) ∷ chunks bs

-- `streamBody`: what reads of a body give, of the messages that are left and of the end of the
-- stream.
abbrev pub second_header : Error
second_header = other (codes "unexpected second header in body")

abbrev pub before : Bytes → Reader → Reader
before b r = record { content = b ++ r.content; broken = r.broken }

unfoldable pub stream_body : List PutRequest → Option Error → Reader
stream_body [] end = record { content = []; broken = end }
stream_body (put_header key m ∷ ms) end = record { content = []; broken = some second_header }
stream_body (put_chunk b ∷ ms) end = before b (stream_body ms end)
stream_body (put_nothing ∷ ms) end = stream_body ms end

-- How far a tier has read a body when its `Put` returns.
pub record Progress : Type 0 where
  pub bytes : ℕ
  pub ended : Bool

module _ (k : Kinds) (c : Stamps) {W : Type 0} (t : Tier W) where
  abbrev pub stat_answer : Stated → StatAnswer
  stat_answer (has m) = stat_ok (record { exists = true; meta = some (meta_to_proto c m) })
  stat_answer (lacks e) =
      if errors_is e not_found
      then stat_ok (record { exists = false; meta = none })
      else stat_failed (to_connect_error k e)

  abbrev pub stat_answered : W × Stated → W × StatAnswer
  stat_answered (w, s) = (w, stat_answer s)

  -- `Stat`.
  unfoldable pub serve_stat : Text → W → W × StatAnswer
  unfolding meta_to_proto to_connect_error
  serve_stat key w =
      if eqb key []
      then (w, stat_failed (invalid (codes "key is required")))
      else stat_answered (t.stat key w)

  abbrev pub end_status : Text → Option Error → Option RpcError
  end_status key none = none
  end_status key (some e) = some (rpc_error internal (codes "read " ++ (key ++ k.text e)))

  abbrev pub get_sent : (reads : Bytes → List Bytes) → Text → Got → Sent
  get_sent reads key (failed e) = record { messages = []; status = some (to_connect_error k e) }
  get_sent reads key (found r m) = record {
    messages = got_meta (meta_to_proto c m) ∷ chunks (reads r.content);
    status = end_status key r.broken;
  }

  abbrev pub get_answered : (reads : Bytes → List Bytes) → Text → W × Got → W × Sent
  get_answered reads key (w, got) = (w, get_sent reads key got)

  -- `Get`.
  unfoldable pub serve_get : (reads : Bytes → List Bytes) → Text → W → W × Sent
  unfolding meta_to_proto chunks to_connect_error
  serve_get reads key w =
      if eqb key []
      then (w, record { messages = []; status = some (invalid (codes "key is required")) })
      else get_answered reads key (t.get key w)

  -- The transport's error that the body reader saw.
  abbrev pub seen : Reader → Progress → Option Error
  seen body p = if p.ended then body.broken else none

  abbrev pub put_answer : Progress → Option Error → PutAnswer
  put_answer p none = stored p.bytes
  put_answer p (some e) = rejected (to_connect_error k e)

  abbrev pub put_answered : Reader → Progress → W × Option Error → W × PutAnswer
  put_answered body p (w, some e) = (w, rejected (to_connect_error k e))
  put_answered body p (w, none) = (w, put_answer p (seen body p))

  abbrev pub put_body : (progress : Reader → Progress) → Text → Meta → Reader → W → W × PutAnswer
  put_body progress key m body w = put_answered body (progress body) (t.put key body m w)

  -- The error of a stream that ended before its header.
  abbrev pub no_header : Option Error → RpcError
  no_header none = invalid (codes "empty stream: expected a header message")
  no_header (some e) = rpc_or (k.rpc_of e) (rpc_error (code_other 2) (k.text e))

  abbrev pub not_header : RpcError
  not_header = invalid (codes "first message must be the header, not a chunk")

  -- `Put`, of the messages that arrive and of the error that ends them if they do not end by EOF.
  unfoldable pub serve_put :
      (progress : Reader → Progress) → List PutRequest → Option Error → W → W × PutAnswer
  unfolding stream_body meta_from_proto to_connect_error
  serve_put progress [] end w = (w, rejected (no_header end))
  serve_put progress (put_chunk b ∷ ms) end w = (w, rejected not_header)
  serve_put progress (put_nothing ∷ ms) end w = (w, rejected not_header)
  serve_put progress (put_header key m ∷ ms) end w =
      if eqb key []
      then (w, rejected (invalid (codes "key is required")))
      else put_body progress key (meta_from_proto c m) (stream_body ms end) w
