-- ===== src/Dns64/Cache.antt =====
-- The cache of answers in src/dns64_daemon.c.
use flux_wan.Base.{
  put_at, u64, ℕ, ◌+◌, ◌%◌, if◌then◌else◌, ◌≤◌, ◌<◌, ◌≡◌, refl, sym, ap, ◌∙◌, List, [], ◌∷◌, true,
  false, ◌&&◌, Option, none, some, length, ◌==◌, arith,
}
use flux_wan.Dns64.Question.{dns_compute_question_hash, qtype_of}
use flux_wan.Dns64.{
  Ctx, Entry, Query, Send, cached_by, dns_cache_size, to_client, read16, look_up, with_id,
  dns_cache_ttl_sec, send_upstream, count_query, on_query, is_cacheable, store, on_response,
}
use flux_wan.Dns64.Runs.{Event, run, spares, undisturbed, SameSettings, run-query, run-place}
use flux_wan.Dns64.Pending.{Forwards, on_query-Forwards}

abbrev pub sent_by : Option (Ctx × List Send) → Option (List Send)
sent_by none = none
sent_by (some (ctx, sent)) = some sent

look_up-store :
    (ctx : Ctx) (now later qhash : ℕ) (buf : List ℕ)
    → is_cacheable buf qhash ≡ true
    → later < now + dns_cache_ttl_sec
    → look_up (store ctx now buf qhash) qhash later ≡ some buf
unfolding look_up store
look_up-store ctx now later qhash buf c h = ground arith

-- The state in which an answer to a waiting query is stored.
abbrev pub taken : Ctx → List ℕ → Ctx
taken ctx buf = record ctx {
  pending_queries = put_at ctx.pending_queries (read16 buf 0) none;
  stats = record ctx.stats { passthrough_queries = u64 (ctx.stats.passthrough_queries + 1) };
}

on_response-waiting :
    (ctx : Ctx) (now : ℕ) (buf : List ℕ) (q : Query)
    → 12 ≤ length buf
    → ctx.pending_queries (read16 buf 0) ≡ some q
    → on_response ctx now buf
      ≡ (store (taken ctx buf) now buf q.qhash, to_client q.client_addr buf ∷ [])
unfolding on_response
on_response-waiting ctx now buf q l w = rw w (ground arith)

send_upstream-waiting :
    (ctx : Ctx) (now client : ℕ) (buf : List ℕ) (qhash : ℕ)
    → (send_upstream ctx now client buf qhash).0.pending_queries (read16 buf 0)
      ≡ some (record { client_addr = client; timestamp = now; qhash = qhash })
unfolding send_upstream
send_upstream-waiting ctx now client buf qhash = ground arith

on_query-hit :
    (ctx : Ctx) (now client : ℕ) (buf answer : List ℕ)
    → 12 ≤ length buf
    → (ctx.smart_ipv6_bonding && qtype_of buf == 0x001C) ≡ false
    → (ctx.nat46_enabled && qtype_of buf == 0x0001) ≡ false
    → look_up ctx (dns_compute_question_hash buf) now ≡ some answer
    → sent_by (on_query ctx now client buf) ≡ some (to_client client (with_id buf answer) ∷ [])
unfolding on_query
on_query-hit ctx now client buf answer l n4 n1 m = ground arith

store-SameSettings :
    (ctx : Ctx) (now : ℕ) (buf : List ℕ) (qhash : ℕ) → SameSettings (store ctx now buf qhash) ctx
unfolding store
store-SameSettings ctx now buf qhash = (ground arith, ground arith)

forwarded-SameSettings :
    (ctx : Ctx) (now client : ℕ) (buf : List ℕ) (qhash : ℕ)
    → SameSettings (send_upstream (count_query ctx) now client buf qhash).0 ctx
unfolding send_upstream count_query
forwarded-SameSettings ctx now client buf qhash = (refl, refl)

-- A query that is sent on, and the answer with its ID that comes first.
module _ (ctx ctx1 : Ctx) (asked client : ℕ) (buf : List ℕ) (sent : List Send) (now : ℕ)
    (answer : List ℕ) where
  on_response-forwarded :
      Forwards ctx asked buf
      → on_query ctx asked client buf ≡ some (ctx1, sent)
      → 12 ≤ length answer
      → read16 answer 0 ≡ read16 buf 0
      → on_response ctx1 now answer ≡ (
        store (taken ctx1 answer) now answer (dns_compute_question_hash buf),
        to_client client answer ∷ [],
      )
  on_response-forwarded f q l i =
      let r = send_upstream (count_query ctx) asked client buf (dns_compute_question_hash buf) in
      let same : r ≡ (ctx1, sent) = cc (on_query-Forwards ctx asked client buf f, q) in
      let w =
        send_upstream-waiting (count_query ctx) asked client buf (dns_compute_question_hash buf) in
      let known : ctx1.pending_queries (read16 answer 0)
          ≡ some (record {
            client_addr = client;
            timestamp = asked;
            qhash = dns_compute_question_hash buf;
          }) =
        rw (i, ← ap (λ (x : Ctx × List Send). x.0.pending_queries (read16 buf 0)) same) w in
      on_response-waiting ctx1 now answer _ l known

  -- The answer goes to the client that asked last with its ID, and is stored under the question of
  -- that client, although it may answer the question of a client that asked before and was
  -- forgotten: that client is no longer waiting.
  pub on_response-last :
      (old : Query) (later : ℕ)
      → ctx.pending_queries (read16 buf 0) ≡ some old
      → Forwards ctx asked buf
      → on_query ctx asked client buf ≡ some (ctx1, sent)
      → 12 ≤ length answer
      → read16 answer 0 ≡ read16 buf 0
      → is_cacheable answer (dns_compute_question_hash buf) ≡ true
      → later < now + dns_cache_ttl_sec
      → ((on_response ctx1 now answer).1 ≡ to_client client answer ∷ [])
        × ((on_response ctx1 now answer).0.pending_queries (read16 buf 0) ≡ none)
        × (look_up (on_response ctx1 now answer).0 (dns_compute_question_hash buf) later
            ≡ some answer)
  on_response-last old later o f q l i c h = rw (on_response-forwarded f q l i) (
    refl,
    unfold store in ground arith,
    look_up-store (taken ctx1 answer) now later (dns_compute_question_hash buf) answer c h,
  )

look_up-place :
    (a b : Ctx) (qhash now : ℕ)
    → a.cache (qhash % dns_cache_size) ≡ b.cache (qhash % dns_cache_size)
    → look_up a qhash now ≡ look_up b qhash now
unfolding look_up
look_up-place a b qhash now e =
    ap (λ (o : Option Entry). if qhash == 0 then none else cached_by qhash now o) e

on_response-waiting_later :
    (ctx ctx1 ctx2 : Ctx) (asked client : ℕ) (buf : List ℕ) (sent : List Send) (before : List Event)
    (now : ℕ) (answer : List ℕ)
    → Forwards ctx asked buf
    → on_query ctx asked client buf ≡ some (ctx1, sent)
    → spares (read16 buf 0) before ≡ true
    → run (some ctx1) before ≡ some ctx2
    → 12 ≤ length answer
    → read16 answer 0 ≡ read16 buf 0
    → (on_response ctx2 now answer ≡ (
      store (taken ctx2 answer) now answer (dns_compute_question_hash buf),
      to_client client answer ∷ [],
    ))
      × SameSettings ctx2 ctx
on_response-waiting_later ctx ctx1 ctx2 asked client buf sent before now answer f q spare past l i =
    let hash = dns_compute_question_hash buf in
    let r = send_upstream (count_query ctx) asked client buf hash in
    let same : r ≡ (ctx1, sent) = cc (on_query-Forwards ctx asked client buf f, q) in
    let first = forwarded-SameSettings ctx asked client buf hash in
    let (settings, query) = run-query (read16 buf 0) ctx1 ctx2 before spare past in
    let known : ctx2.pending_queries (read16 answer 0)
        ≡ some (record { client_addr = client; timestamp = asked; qhash = hash }) =
      ap ctx2.pending_queries i
      ∙ (query
          ∙ (sym (ap (λ (x : Ctx × List Send). x.0.pending_queries (read16 buf 0)) same)
              ∙ send_upstream-waiting (count_query ctx) asked client buf hash)) in
    (
      on_response-waiting ctx2 now answer _ l known,
      (
        settings.0 ∙ (sym (ap (λ (x : Ctx × List Send). x.0.smart_ipv6_bonding) same) ∙ first.0),
        settings.1 ∙ (sym (ap (λ (x : Ctx × List Send). x.0.nat46_enabled) same) ∙ first.1),
      ),
    )

-- A query is sent on. If other traffic follows in which no message has its ID, what comes back for
-- it goes to its client. If that is without error, has records and at most 512 bytes, and then other
-- traffic follows in which no answer comes for a waiting query that shares the place in the cache,
-- any client that asks a question with the same hash within two hours of the answer, and that the
-- daemon does not answer itself, is answered from the cache: with the same bytes, but its own ID,
-- and with no more traffic.
pub on_query-cached :
    (ctx ctx1 ctx2 ctx3 : Ctx) (asked client : ℕ) (buf : List ℕ) (sent : List Send)
    (before between : List Event) (now : ℕ) (answer : List ℕ) (later other : ℕ) (again : List ℕ)
    → Forwards ctx asked buf
    → on_query ctx asked client buf ≡ some (ctx1, sent)
    → spares (read16 buf 0) before ≡ true
    → run (some ctx1) before ≡ some ctx2
    → 12 ≤ length answer
    → read16 answer 0 ≡ read16 buf 0
    → is_cacheable answer (dns_compute_question_hash buf) ≡ true
    → undisturbed
        (dns_compute_question_hash buf % dns_cache_size)
        (some (on_response ctx2 now answer).0)
        between
      ≡ true
    → run (some (on_response ctx2 now answer).0) between ≡ some ctx3
    → later < now + dns_cache_ttl_sec
    → 12 ≤ length again
    → (ctx.smart_ipv6_bonding && qtype_of again == 0x001C) ≡ false
    → (ctx.nat46_enabled && qtype_of again == 0x0001) ≡ false
    → dns_compute_question_hash again ≡ dns_compute_question_hash buf
    → ((on_response ctx2 now answer).1 ≡ to_client client answer ∷ [])
      × (sent_by (on_query ctx3 later other again)
          ≡ some (to_client other (with_id again answer) ∷ []))
on_query-cached ctx ctx1 ctx2 ctx3 asked client buf sent before between now answer later other again
      f q spare past l i c calm future h l' n4 n1 e =
    let hash = dns_compute_question_hash buf in
    let (done, settings2) =
      on_response-waiting_later ctx ctx1 ctx2 asked client buf sent before now answer f q spare past
        l i in
    let end = store (taken ctx2 answer) now answer hash in
    let state = ap (λ (x : Ctx × List Send). x.0) done in
    let kept = store-SameSettings (taken ctx2 answer) now answer hash in
    let (settings3, place) =
      run-place (hash % dns_cache_size) (on_response ctx2 now answer).0 ctx3 between calm future in
    let stored : look_up ctx3 hash later ≡ some answer =
      look_up-place ctx3 (on_response ctx2 now answer).0 hash later place
      ∙ (ap (λ (x : Ctx). look_up x hash later) state
          ∙ look_up-store (taken ctx2 answer) now later hash answer c h) in
    let bonding : ctx3.smart_ipv6_bonding ≡ ctx.smart_ipv6_bonding =
      settings3.0 ∙ (ap (λ (x : Ctx). x.smart_ipv6_bonding) state ∙ (kept.0 ∙ settings2.0)) in
    let nat46 : ctx3.nat46_enabled ≡ ctx.nat46_enabled =
      settings3.1 ∙ (ap (λ (x : Ctx). x.nat46_enabled) state ∙ (kept.1 ∙ settings2.1)) in
    (
      ap (λ (x : Ctx × List Send). x.1) done,
      on_query-hit ctx3 later other again answer l' (rw bonding n4) (rw nat46 n1) (rw e stored),
    )
