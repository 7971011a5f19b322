-- ===== src/Dns64.antt =====
-- src/dns64_daemon.c: the DNS forwarder with its cache, the queries that wait for an answer, and the
-- synthetic addresses whose map the NAT46 translator reads. Sockets and the clock are inputs, and
-- the datagrams that are sent are recorded. The answers of `calloc` and `socket` are left out.
pub mod Question
pub mod Pool
pub mod Runs
pub mod Cache
pub mod Pending
use flux_wan.Base.{
  put_at, ℕ, zero, suc, ◌+◌, ◌*◌, ◌/◌, ◌%◌, ◌-◌, List, [], ◌∷◌, ◌++◌, Bool, true, false, not, ◌&&◌,
  ◌||◌, Option, none, some, u32, u64, ltb, leb, ◌==◌, if◌then◌else◌, length, get_or, set, take,
  drop,
}
use flux_wan.Dhcp.Leases.{htonl}
use flux_wan.Dhcp.Server.{word_bytes}
use flux_wan.Nat46
use flux_wan.Nat46.{put_reverse}
use flux_wan.Dns64.Question.{dns_compute_question_hash, qtype_of, question_end}

abbrev pub synth_start_ip_host : ℕ
synth_start_ip_host = 0xC6120001  -- 198.18.0.1

abbrev pub synth_end_ip_host : ℕ
synth_end_ip_host = 0xC613FFFE  -- 198.19.255.254

abbrev pub dns_cache_size : ℕ
dns_cache_size = 4096

abbrev pub dns_cache_ttl_sec : ℕ
dns_cache_ttl_sec = 7200

-- `dns_cache_entry_t`; `data` has `len` bytes. The cache holds none where `valid` is not set.
pub record Entry : Type 0 where
  pub hash : ℕ
  pub expires_at : ℕ
  pub answer : List ℕ

-- `pending_dns_entry_t`. There is none where `sin_family` is 0.
pub record Query : Type 0 where
  pub client_addr : ℕ
  pub timestamp : ℕ
  pub qhash : ℕ

pub record Stats : Type 0 where
  pub total_queries : ℕ
  pub synthesized_a_records : ℕ
  pub passthrough_queries : ℕ
  pub cache_hits : ℕ
  pub cached_entries : ℕ
  pub active_synthetic_mappings : ℕ
  pub happy_eyeballs_ipv4_fallbacks : ℕ

-- `has_v4` and `has_v6` say that the file descriptors of the maps are open, `has_upstream2` that the
-- second socket is.
pub record Ctx : Type 0 where
  pub smart_ipv6_bonding : Bool
  pub nat46_enabled : Bool
  pub has_v4 : Bool
  pub has_v6 : Bool
  pub has_upstream2 : Bool
  pub maps : Nat46.Maps
  pub current_synth_ip_host : ℕ
  pub stats : Stats
  pub pending_queries : ℕ → Option Query
  pub cache : ℕ → Option Entry

pub data Send : Type 0 where
  to_client : ℕ → List ℕ → Send
  to_upstream to_upstream2 : List ℕ → Send

-- The address in network order, and the next one of the pool.
unfoldable pub allocate_synthetic_ip : Ctx → Ctx × ℕ
allocate_synthetic_ip ctx =
    let next = u32 (ctx.current_synth_ip_host + 1) in
    (
      record ctx {
        current_synth_ip_host = if ltb synth_end_ip_host next then synth_start_ip_host else next;
      },
      htonl ctx.current_synth_ip_host,
    )

unfoldable pub register_mapping : Ctx → ℕ → List ℕ → Ctx
register_mapping ctx fake_v4 real_v6 =
    let fwd = put_at ctx.maps.v4_to_v6 fake_v4 (some real_v6) in
    let rev =
      put_reverse ctx.maps.v6_to_v4 real_v6 (record { synthetic_v4 = fake_v4; client_v4 = 0 }) in
    record ctx {
      maps = record ctx.maps {
        v4_to_v6 = if ctx.has_v4 then fwd else ctx.maps.v4_to_v6;
        v6_to_v4 = if ctx.has_v6 then rev else ctx.maps.v6_to_v4;
      };
      stats = record ctx.stats {
        active_synthetic_mappings = u64 (ctx.stats.active_synthetic_mappings + 1);
      };
    }

-- A 16-bit number of the message, and a write of one.
abbrev pub read16 : List ℕ → ℕ → ℕ
read16 buf at = get_or buf at 0 * 0x100 + get_or buf (at + 1) 0

abbrev pub write16 : List ℕ → ℕ → ℕ → List ℕ
write16 buf at n = set (set buf at (n / 0x100)) (at + 1) (n % 0x100)

-- The query as its own empty answer, without error.
unfoldable pub empty_answer : List ℕ → List ℕ
empty_answer buf =
    take (question_end buf) (write16 (write16 (write16 (write16 buf 2 0x8180) 6 0) 8 0) 10 0)

-- "2001:4860:4860::8888"
abbrev pub fixed_target_v6 : List ℕ
fixed_target_v6 =
    0x20 ∷ 0x01 ∷ 0x48 ∷ 0x60 ∷ 0x48 ∷ 0x60 ∷ 0 ∷ 0 ∷ 0 ∷ 0 ∷ 0 ∷ 0 ∷ 0 ∷ 0 ∷ 0x88 ∷ 0x88 ∷ []

-- The array that a message is received in, and its size. Bytes are written behind the message one
-- by one; a write past the end of the array has no defined result, and is none here.
abbrev pub buffer_size : ℕ
buffer_size = 2048

abbrev pub put_byte : ℕ → List ℕ → Option (List ℕ)
put_byte b buf = if ltb (length buf) buffer_size then some (buf ++ (b ∷ [])) else none

unfoldable pub put_bytes : List ℕ → Option (List ℕ) → Option (List ℕ)
put_bytes bytes none = none
put_bytes [] (some buf) = some buf
put_bytes (b ∷ bytes) (some buf) = put_bytes bytes (put_byte b buf)

-- One A record of 60 seconds for the name of the question.
abbrev pub a_record : ℕ → List ℕ
a_record synth_v4 =
    0xc0
    ∷ 0x0c
    ∷ 0x00
    ∷ 0x01
    ∷ 0x00
    ∷ 0x01
    ∷ 0x00
    ∷ 0x00
    ∷ 0x00
    ∷ 0x3c
    ∷ 0x00
    ∷ 0x04
    ∷ word_bytes synth_v4

-- The query as an answer with one record.
abbrev pub answer_header : List ℕ → List ℕ
answer_header buf = write16 (write16 buf 2 0x8180) 6 1

-- The answer of the cache to a query with this hash.
abbrev pub cached_by : ℕ → ℕ → Option Entry → Option (List ℕ)
cached_by qhash now none = none
cached_by qhash now (some e) =
    if e.hash == qhash && ltb now e.expires_at && leb (length e.answer) 512
    then some e.answer
    else none

unfoldable pub look_up : Ctx → ℕ → ℕ → Option (List ℕ)
look_up ctx qhash now =
    if qhash == 0 then none else cached_by qhash now (ctx.cache (qhash % dns_cache_size))

-- The answer with the ID of the query.
unfoldable pub with_id : List ℕ → List ℕ → List ℕ
with_id buf answer = set (set answer 0 (get_or buf 0 0)) 1 (get_or buf 1 0)

-- A query that is sent on to both name servers.
unfoldable pub send_upstream : Ctx → ℕ → ℕ → List ℕ → ℕ → Ctx × List Send
send_upstream ctx now client buf qhash = (
  record ctx {
    pending_queries =
        put_at ctx.pending_queries (read16 buf 0)
          (some (record { client_addr = client; timestamp = now; qhash = qhash }));
  },
  to_upstream buf ∷ (if ctx.has_upstream2 then to_upstream2 buf ∷ [] else []),
)

abbrev pub resolve : Ctx → ℕ → ℕ → List ℕ → ℕ → Option (List ℕ) → Ctx × List Send
resolve ctx now client buf qhash (some answer) = (
  record ctx { stats = record ctx.stats { cache_hits = u64 (ctx.stats.cache_hits + 1) } },
  to_client client (with_id buf answer) ∷ [],
)
resolve ctx now client buf qhash none = send_upstream ctx now client buf qhash

abbrev pub answered : Ctx → ℕ → Option (List ℕ) → Option (Ctx × List Send)
answered ctx client none = none
answered ctx client (some buf) = some (
  record ctx {
    stats = record ctx.stats { synthesized_a_records = u64 (ctx.stats.synthesized_a_records + 1) };
  },
  to_client client buf ∷ [],
)

unfoldable pub synthesize : Ctx → ℕ → List ℕ → Option (Ctx × List Send)
unfolding allocate_synthetic_ip register_mapping put_bytes
synthesize ctx client buf =
    let (ctx1, synth_v4) = allocate_synthetic_ip ctx in
    let ctx2 = register_mapping ctx1 synth_v4 fixed_target_v6 in
    answered ctx2 client (put_bytes (a_record synth_v4) (some (answer_header buf)))

unfoldable pub count_query : Ctx → Ctx
count_query ctx = record ctx {
  stats = record ctx.stats { total_queries = u64 (ctx.stats.total_queries + 1) };
}

abbrev pub count_fallback : Ctx → Ctx
count_fallback ctx = record ctx {
  stats = record ctx.stats {
    happy_eyeballs_ipv4_fallbacks = u64 (ctx.stats.happy_eyeballs_ipv4_fallbacks + 1);
  };
}

-- A query from a client.
unfoldable pub on_query : Ctx → ℕ → ℕ → List ℕ → Option (Ctx × List Send)
unfolding count_query synthesize
on_query ctx now client buf =
    let counted = count_query ctx in
    let qhash = dns_compute_question_hash buf in
    if ltb (length buf) 12
    then some (ctx, [])
    else (if ctx.smart_ipv6_bonding && qtype_of buf == 0x001C
        then some (count_fallback counted, to_client client (empty_answer buf) ∷ [])
        else (if ctx.nat46_enabled && qtype_of buf == 0x0001
            then synthesize counted client buf
            else some (resolve counted now client buf qhash (look_up ctx qhash now))))

-- Only an answer without error, with records, of 512 bytes at most is stored.
abbrev pub is_cacheable : List ℕ → ℕ → Bool
is_cacheable buf qhash =
    read16 buf 2 % 16 == 0 && ltb 0 (read16 buf 6) && leb (length buf) 512 && not (qhash == 0)

abbrev pub count_new : Option Entry → ℕ → ℕ
count_new none n = u32 (n + 1)
count_new (some e) n = n

unfoldable pub store : Ctx → ℕ → List ℕ → ℕ → Ctx
store ctx now buf qhash =
    let idx = qhash % dns_cache_size in
    if is_cacheable buf qhash
    then record ctx {
      cache =
          put_at ctx.cache idx
            (some (record { hash = qhash; expires_at = now + dns_cache_ttl_sec; answer = buf }));
      stats = record ctx.stats {
        cached_entries = count_new (ctx.cache idx) ctx.stats.cached_entries;
      };
    }
    else ctx

abbrev pub deliver : Ctx → ℕ → List ℕ → Option Query → Ctx × List Send
deliver ctx now buf none = (ctx, [])
deliver ctx now buf (some q) = (
  store
      (record ctx {
        pending_queries = put_at ctx.pending_queries (read16 buf 0) none;
        stats = record ctx.stats { passthrough_queries = u64 (ctx.stats.passthrough_queries + 1) };
      })
      now buf q.qhash,
  to_client q.client_addr buf ∷ [],
)

-- A datagram from a name server.
unfoldable pub on_response : Ctx → ℕ → List ℕ → Ctx × List Send
unfolding store
on_response ctx now buf =
    if ltb (length buf) 12
    then (ctx, [])
    else deliver ctx now buf (ctx.pending_queries (read16 buf 0))

-- `dns64_init`, where the sockets can be opened.
unfoldable pub init : Bool → Bool → Bool → Bool → Bool → Nat46.Maps → Ctx
init smart_ipv6_bonding nat46_enabled has_v4 has_v6 has_upstream2 maps = record {
  smart_ipv6_bonding = smart_ipv6_bonding;
  nat46_enabled = nat46_enabled;
  has_v4 = has_v4;
  has_v6 = has_v6;
  has_upstream2 = has_upstream2;
  maps = maps;
  current_synth_ip_host = synth_start_ip_host;
  stats = record {
    total_queries = 0;
    synthesized_a_records = 0;
    passthrough_queries = 0;
    cache_hits = 0;
    cached_entries = 0;
    active_synthetic_mappings = 0;
    happy_eyeballs_ipv4_fallbacks = 0;
  };
  pending_queries = λ qid. none;
  cache = λ idx. none;
}

-- What `select` finds in one round of the worker.
pub record Ready : Type 0 where
  pub query : Option (ℕ × List ℕ)
  pub primary : Option (List ℕ)
  pub secondary : Option (List ℕ)

abbrev pub receive : Ctx × List Send → ℕ → Option (List ℕ) → Ctx × List Send
receive (ctx, sent) now none = (ctx, sent)
receive (ctx, sent) now (some buf) =
    let (ctx', more) = on_response ctx now buf in (ctx', sent ++ more)

-- A query that is answered at once ends the round.
abbrev pub then_responses : ℕ → Ready → Option (Ctx × List Send) → Option (Ctx × List Send)
then_responses now ready none = none
then_responses now ready (some (ctx, to_client client buf ∷ sent)) =
    some (ctx, to_client client buf ∷ sent)
then_responses now ready (some (ctx, sent)) =
    some (receive (receive (ctx, sent) now ready.primary) now ready.secondary)

abbrev pub take_query : Ctx → ℕ → Option (ℕ × List ℕ) → Option (Ctx × List Send)
take_query ctx now none = some (ctx, [])
take_query ctx now (some (client, buf)) = on_query ctx now client buf

-- One round of `dns64_worker`.
unfoldable pub round : Ctx → ℕ → Ready → Option (Ctx × List Send)
unfolding on_query on_response
round ctx now ready = then_responses now ready (take_query ctx now ready.query)
