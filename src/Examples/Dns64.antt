-- ===== src/Examples/Dns64.antt =====
-- src/dns64_daemon.c on queries for the A record of "ab".
use flux_wan.Examples.Nat46.{cfg}
use flux_wan.Base.{
  ◌&&◌, ◌==◌, ℕ, ◌+◌, ◌-◌, u64, ap, Option, ◌%◌, ◌≡◌, refl, List, [], ◌∷◌, ◌++◌, map, true, false,
  none, some, get_or, drop, replicate, arith,
}
use flux_wan.Dhcp.Leases.{htonl}
use flux_wan.Nat46
use flux_wan.Nat46.{is_synthetic}
use flux_wan.Dns64.{
  read16, is_cacheable, Ctx, Send, to_client, fixed_target_v6, with_id, synth_start_ip_host,
  allocate_synthetic_ip, register_mapping, dns_cache_size, look_up, send_upstream, count_query,
  on_query, on_response, init,
}
use flux_wan.Dns64.Question.{tolower, dns_compute_question_hash, qtype_of}
use flux_wan.Dns64.Question.Hash.{letters, question, fnv_all, question_hash-letters}
use flux_wan.Dns64.Pool.{InPool, a_answer, allocate_all, allocate_all-cyclic}
use flux_wan.Dns64.Runs.{Event, ask, reply, state_of, step, run, spares, undisturbed}
use flux_wan.Dns64.Pending.{
  on_query-Forwards, Forwards, answers, waiting, on_responses, on_responses-once,
}
use flux_wan.Dns64.Cache.{sent_by, on_query-cached}

abbrev header : List ℕ
header = 0x12 ∷ 0x34 ∷ 1 ∷ 0 ∷ 0 ∷ 1 ∷ 0 ∷ 0 ∷ 0 ∷ 0 ∷ 0 ∷ 0 ∷ []

abbrev kind : List ℕ
kind = 0 ∷ 1 ∷ 0 ∷ 1 ∷ []

abbrev name : List (List ℕ)
name = (b'a' ∷ b'B' ∷ []) ∷ []

question_hash-letters_example :
    dns_compute_question_hash (question header name (kind ++ []))
    ≡ fnv_all 2166136261 (map tolower (letters name) ++ kind)
question_hash-letters_example =
    question_hash-letters header name kind [] refl ((omega arith, omega arith), tt) refl

abbrev no_maps : Nat46.Maps
no_maps = record { v4_to_v6 = λ ip. none; v6_to_v4 = λ ip. none; cfg = none }

abbrev query : List ℕ
query = header ++ (2 ∷ b'a' ∷ b'b' ∷ 0 ∷ kind)

abbrev answer : List ℕ
answer = 0x12 ∷ 0x34 ∷ 0x81 ∷ 0x80 ∷ 0 ∷ 1 ∷ 0 ∷ 1 ∷ 0 ∷ 0 ∷ 0 ∷ 0 ∷ drop 12 query

abbrev plain : Ctx
plain = init false false true true true no_maps

abbrev translating : Ctx
translating = init false true true true true no_maps

translating-InPool : InPool translating
unfolding init
translating-InPool = record { above = omega arith; below = omega arith }

allocate_all-cyclic_example :
    ((allocate_all 3 translating).current_synth_ip_host
      ≡ synth_start_ip_host
        + (translating.current_synth_ip_host - synth_start_ip_host + 3) % 131070)
    × (is_synthetic (allocate_synthetic_ip (allocate_all 3 translating)).1 ≡ true)
allocate_all-cyclic_example = allocate_all-cyclic 3 translating translating-InPool

-- A packet of 34 bytes to 198.18.0.1.
abbrev packet : List ℕ
packet =
    replicate 12 0
    ++ (0x08 ∷ 0 ∷ 0x45 ∷ 0 ∷ 0 ∷ 20 ∷ 0 ∷ 0 ∷ 0 ∷ 0 ∷ 64 ∷ 17 ∷ 0 ∷ 0 ∷ 10 ∷ 0 ∷ 0 ∷ 9 ∷ 198 ∷ 18
        ∷ 0 ∷ 1 ∷ [])

abbrev synth_v4 : ℕ
synth_v4 = htonl translating.current_synth_ip_host

abbrev mapped : Ctx
mapped =
    register_mapping (allocate_synthetic_ip (count_query translating)).0 synth_v4 fixed_target_v6

abbrev synthesized : Ctx × List Send
synthesized = (
  record mapped {
    stats = record mapped.stats {
      synthesized_a_records = u64 (mapped.stats.synthesized_a_records + 1);
    };
  },
  to_client 7 (a_answer query synth_v4) ∷ [],
)

plain-Forwards : Forwards plain 5 query
unfolding init look_up qtype_of get_or
plain-Forwards = record {
  long = omega arith;
  not_aaaa = refl;
  not_a = refl;
  missing = ground arith;
}

abbrev asked : Ctx × List Send
asked = send_upstream (count_query plain) 5 7 query (dns_compute_question_hash query)

query_forwarded : on_query plain 5 7 query ≡ some (asked.0, asked.1)
query_forwarded = on_query-Forwards plain 5 7 query plain-Forwards

same_id : read16 answer 0 ≡ read16 query 0
unfolding get_or
same_id = refl

cacheable : is_cacheable answer (dns_compute_question_hash query) ≡ true
unfolding dns_compute_question_hash get_or
cacheable = refl

not_aaaa : (plain.smart_ipv6_bonding && qtype_of query == 0x001C) ≡ false
unfolding init
not_aaaa = refl

not_a : (plain.nat46_enabled && qtype_of query == 0x0001) ≡ false
unfolding init
not_a = refl

-- Another client asks with another ID before the answer comes, and gets its answer later.
abbrev other_query : List ℕ
other_query = 0x56 ∷ 0x78 ∷ drop 2 (header ++ (1 ∷ b'c' ∷ 0 ∷ kind))

abbrev other_answer : List ℕ
other_answer = 0x56 ∷ 0x78 ∷ 0x81 ∷ 0x80 ∷ 0 ∷ 1 ∷ 0 ∷ 1 ∷ 0 ∷ 0 ∷ 0 ∷ 0 ∷ drop 12 other_query

abbrev before : List Event
before = ask 5 9 other_query ∷ []

abbrev between : List Event
between = reply 8 other_answer ∷ []

other-Forwards : Forwards asked.0 5 other_query
unfolding send_upstream count_query init look_up qtype_of get_or
other-Forwards = record {
  long = omega arith;
  not_aaaa = refl;
  not_a = refl;
  missing = ground arith;
}

abbrev asked_both : Ctx × List Send
asked_both =
    send_upstream (count_query asked.0) 5 9 other_query (dns_compute_question_hash other_query)

spared : spares (read16 query 0) before ≡ true
unfolding spares get_or
spared = refl

ran_before : run (some asked.0) before ≡ some asked_both.0
unfolding run step
ran_before =
    ap (λ (o : Option (Ctx × List Send)). run (state_of o) [])
      (on_query-Forwards asked.0 5 9 other_query other-Forwards)

abbrev answered_first : Ctx
answered_first = (on_response asked_both.0 6 answer).0

calm :
    undisturbed (dns_compute_question_hash query % dns_cache_size) (some answered_first) between
    ≡ true
unfolding undisturbed on_response send_upstream count_query init dns_compute_question_hash get_or
calm = refl

abbrev answered_both : Ctx
answered_both = (on_response answered_first 8 other_answer).0

ran_between : run (some answered_first) between ≡ some answered_both
unfolding run step
ran_between = refl

on_query-cached_example :
    ((on_response asked_both.0 6 answer).1 ≡ to_client 7 answer ∷ [])
    × (sent_by (on_query answered_both 7000 8 query)
        ≡ some (to_client 8 (with_id query answer) ∷ []))
on_query-cached_example =
    on_query-cached plain asked.0 asked_both.0 answered_both 5 7 query asked.1 before between 6
      answer 7000 8 query plain-Forwards query_forwarded spared ran_before (omega arith) same_id
      cacheable calm ran_between (omega arith) (omega arith) not_aaaa not_a refl

on_responses-once_example :
    answers 0x1234 (on_responses asked.0 ((6, answer) ∷ (6, answer) ∷ [])).1
      + waiting ((on_responses asked.0 ((6, answer) ∷ (6, answer) ∷ [])).0.pending_queries 0x1234)
    ≡ waiting (asked.0.pending_queries 0x1234)
on_responses-once_example = on_responses-once asked.0 ((6, answer) ∷ (6, answer) ∷ []) 0x1234
