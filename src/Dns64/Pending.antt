-- ===== src/Dns64/Pending.antt =====
-- The queries of src/dns64_daemon.c that wait for an answer of a name server. They are told apart
-- by the ID of the message alone.
use flux_wan.Base.{
  ℕ, ◌+◌, ◌≤◌, ◌≡◌, refl, inl, inr, List, [], ◌∷◌, ◌++◌, false, ◌&&◌, Option, none, some,
  Bool-cases, ==_iff, length, ltb, ◌==◌, if◌then◌else◌, arith,
}
use flux_wan.Dns64.Question.{dns_compute_question_hash, qtype_of}
use flux_wan.Dns64.{
  Ctx, Query, Send, to_client, to_upstream, to_upstream2, read16, look_up, send_upstream,
  count_query, on_query, store, deliver, on_response,
}

-- A query that is neither answered by the daemon itself nor from the cache.
pub record Forwards (ctx : Ctx) (now : ℕ) (buf : List ℕ) : Type 0 where
  pub long : 12 ≤ length buf
  pub not_aaaa : (ctx.smart_ipv6_bonding && qtype_of buf == 0x001C) ≡ false
  pub not_a : (ctx.nat46_enabled && qtype_of buf == 0x0001) ≡ false
  pub missing : look_up ctx (dns_compute_question_hash buf) now ≡ none

pub on_query-Forwards :
    (ctx : Ctx) (now client : ℕ) (buf : List ℕ)
    → Forwards ctx now buf
    → on_query ctx now client buf
      ≡ some (send_upstream (count_query ctx) now client buf (dns_compute_question_hash buf))
unfolding on_query
on_query-Forwards ctx now client buf f = ground (arith, f.long, f.not_aaaa, f.not_a, f.missing)

-- The answers with an ID among what is sent.
unfoldable pub answers : ℕ → List Send → ℕ
answers qid [] = 0
answers qid (to_client client buf ∷ sent) =
    (if read16 buf 0 == qid then 1 else 0) + answers qid sent
answers qid (to_upstream buf ∷ sent) = answers qid sent
answers qid (to_upstream2 buf ∷ sent) = answers qid sent

abbrev pub waiting : Option Query → ℕ
waiting none = 0
waiting (some q) = 1

store-pending :
    (ctx : Ctx) (now : ℕ) (buf : List ℕ) (qhash : ℕ)
    → (store ctx now buf qhash).pending_queries ≡ ctx.pending_queries
unfolding store
store-pending ctx now buf qhash = ground arith

deliver-answers :
    (ctx : Ctx) (now : ℕ) (buf : List ℕ) (o : Option Query) (qid : ℕ)
    → ctx.pending_queries (read16 buf 0) ≡ o
    → answers qid (deliver ctx now buf o).1
        + waiting ((deliver ctx now buf o).0.pending_queries qid)
      ≡ waiting (ctx.pending_queries qid)
deliver-answers ctx now buf none qid e = unfold answers in omega arith
deliver-answers ctx now buf (some q) qid e = elim (Bool-cases (read16 buf 0 == qid)) [
  | inl b ↦ rw store-pending (
      let same : ctx.pending_queries qid ≡ some q = rw (← (==_iff _ _).0 b) e in
      unfold answers in rw (b, same) refl)
  | inr b ↦ rw store-pending (unfold answers in rw b (omega arith))
]

-- Answers of the name servers, in the order of their arrival, each with its time.
unfoldable pub on_responses : Ctx → List (ℕ × List ℕ) → Ctx × List Send
on_responses ctx [] = (ctx, [])
on_responses ctx ((now, buf) ∷ rest) =
    let (ctx1, sent) = on_response ctx now buf in
    let (ctx2, more) = on_responses ctx1 rest in (ctx2, sent ++ more)

on_response-answers :
    (ctx : Ctx) (now : ℕ) (buf : List ℕ) (qid : ℕ)
    → answers qid (on_response ctx now buf).1
        + waiting ((on_response ctx now buf).0.pending_queries qid)
      ≡ waiting (ctx.pending_queries qid)
unfolding on_response
on_response-answers ctx now buf qid = elim (Bool-cases (ltb (length buf) 12)) [
  | inl b ↦ rw b (unfold answers in omega arith)
  | inr b ↦ rw b (deliver-answers ctx now buf (ctx.pending_queries (read16 buf 0)) qid refl)
]

answers-append :
    (qid : ℕ) (xs ys : List Send) → answers qid (xs ++ ys) ≡ answers qid xs + answers qid ys
unfolding answers
answers-append qid [] ys = omega arith
answers-append qid (to_client client buf ∷ xs) ys = omega (arith, answers-append qid xs ys)
answers-append qid (to_upstream buf ∷ xs) ys = answers-append qid xs ys
answers-append qid (to_upstream2 buf ∷ xs) ys = answers-append qid xs ys

-- However many answers the two name servers send, and in whatever order, a query that waits is
-- answered once at most, and then waits no more; without such a query no answer with its ID is
-- passed on.
pub on_responses-once :
    (ctx : Ctx) (responses : List (ℕ × List ℕ)) (qid : ℕ)
    → answers qid (on_responses ctx responses).1
        + waiting ((on_responses ctx responses).0.pending_queries qid)
      ≡ waiting (ctx.pending_queries qid)
unfolding on_responses
on_responses-once ctx [] qid = unfold answers in omega arith
on_responses-once ctx ((now, buf) ∷ rest) qid = omega (
  arith,
  on_response-answers ctx now buf qid,
  answers-append qid (on_response ctx now buf).1,
  on_responses-once (on_response ctx now buf).0 rest qid,
)
