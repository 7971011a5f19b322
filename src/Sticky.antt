-- ===== src/Sticky.antt =====
-- src/sticky.c: the sticky session table, a chained hash table from client addresses to WANs.
-- `time(NULL)` is the argument `now`; whether `malloc` succeeds is the argument `room`.
pub mod Chain
pub mod Refinement
pub mod Insert
pub mod Cleanup
use flux_wan.Base.{
  ℕ, zero, suc, ◌+◌, ◌-◌, ◌*◌, ◌%◌, List, [], ◌∷◌, Bool, true, false, ◌||◌, bit_xor, u32, shr,
  sub64, ltb, leb, ◌==◌, if◌then◌else◌, get_or, set, replicate,
}

pub record Node : Type 0 where
  pub client_ip : ℕ  -- uint32_t
  pub wan_id : ℕ  -- uint32_t
  pub last_seen_sec : ℕ  -- uint64_t

abbrev pub Chain : Type 0
Chain = List Node

pub record Table : Type 0 where
  pub buckets : List Chain
  pub num_buckets : ℕ
  pub timeout_sec : ℕ
  pub active_count : ℕ  -- uint32_t

abbrev pub mix : ℕ → ℕ
mix hash = u32 (bit_xor (shr hash 16) hash * 0x45d9f3b)

unfoldable pub hash_ip : ℕ → ℕ → ℕ
hash_ip ip num_buckets = let hash = mix (mix ip) in bit_xor (shr hash 16) hash % num_buckets

unfoldable pub init : ℕ → Table
init timeout_sec = record {
  buckets = replicate 1024 [];
  num_buckets = 1024;
  timeout_sec = timeout_sec;
  active_count = 0;
}

-- The test of `sticky_lookup`; `sticky_cleanup_expired` drops the nodes that fail it.
abbrev pub is_fresh : ℕ → ℕ → Node → Bool
is_fresh timeout now n = leb (sub64 now n.last_seen_sec) timeout

-- The walk of `sticky_lookup` over one bucket, with the refreshed bucket.
unfoldable pub lookup_chain : ℕ → ℕ → ℕ → Chain → Chain × ℕ
lookup_chain timeout now ip [] = ([], 0)
lookup_chain timeout now ip (n ∷ c) =
    let rest = lookup_chain timeout now ip c in
    if n.client_ip == ip
    then (if is_fresh timeout now n
        then (record n { last_seen_sec = now } ∷ c, n.wan_id)
        else (n ∷ c, 0))
    else (n ∷ rest.0, rest.1)

unfoldable pub lookup : Table → ℕ → ℕ → Table × ℕ
lookup t client_ip now =
    let idx = hash_ip client_ip t.num_buckets in
    let (c, wan) = lookup_chain t.timeout_sec now client_ip (get_or t.buckets idx []) in
    if client_ip == 0 then (t, 0) else (record t { buckets = set t.buckets idx c }, wan)

pub data Status : Type 0 where
  done failed : Status

-- The walk of `sticky_insert`: whether a node of the client was found, and the bucket with it
-- written.
unfoldable pub update_chain : ℕ → ℕ → ℕ → Chain → Bool × Chain
update_chain ip wan now [] = (false, [])
update_chain ip wan now (n ∷ c) =
    let rest = update_chain ip wan now c in
    if n.client_ip == ip
    then (true, record n { wan_id = wan; last_seen_sec = now } ∷ c)
    else (rest.0, n ∷ rest.1)

abbrev pub push_node : Table → ℕ → Node → Table
push_node t idx n = record t {
  buckets = set t.buckets idx (n ∷ get_or t.buckets idx []);
  active_count = u32 (t.active_count + 1);
}

unfoldable pub insert : Bool → Table → ℕ → ℕ → ℕ → Table × Status
insert room t client_ip wan_id now =
    let idx = hash_ip client_ip t.num_buckets in
    let (found, c) = update_chain client_ip wan_id now (get_or t.buckets idx []) in
    let n : Node = record { client_ip = client_ip; wan_id = wan_id; last_seen_sec = now } in
    if client_ip == 0 || wan_id == 0
    then (t, failed)
    else (if found
        then (record t { buckets = set t.buckets idx c }, done)
        else (if room then (push_node t idx n, done) else (t, failed)))

-- One bucket of `sticky_cleanup_expired`, with the count of active nodes.
unfoldable pub cleanup_chain : ℕ → ℕ → Chain → ℕ → Chain × ℕ
cleanup_chain timeout now [] active = ([], active)
cleanup_chain timeout now (n ∷ c) active =
    let gone = cleanup_chain timeout now c (if ltb 0 active then active - 1 else active) in
    let kept = cleanup_chain timeout now c active in
    if is_fresh timeout now n then (n ∷ kept.0, kept.1) else gone

unfoldable pub cleanup_buckets : ℕ → ℕ → List Chain → ℕ → List Chain × ℕ
unfolding cleanup_chain
cleanup_buckets timeout now [] active = ([], active)
cleanup_buckets timeout now (c ∷ bs) active =
    let (c', left) = cleanup_chain timeout now c active in
    let (bs', left') = cleanup_buckets timeout now bs left in (c' ∷ bs', left')

unfoldable pub cleanup_expired : Table → ℕ → Table
cleanup_expired t now =
    let (bs, left) = cleanup_buckets t.timeout_sec now t.buckets t.active_count in
    record t { buckets = bs; active_count = left }
