-- ===== src/Dns64/Runs.antt =====
-- What reaches the daemon of src/dns64_daemon.c over time, and what of its state that leaves alone.
use flux_wan.Base.{
  ℕ, ◌%◌, ◌≡◌, refl, subst, Option-cases, ◌∙◌, inl, inr, List, [], ◌∷◌, Bool, true, false, not,
  ◌&&◌, Bool-cases, Option, none, some, length, ltb, ◌==◌, arith,
}
use flux_wan.Dns64.Question.{dns_compute_question_hash, qtype_of}
use flux_wan.Dns64.{
  Ctx, Query, Send, read16, look_up, dns_cache_size, send_upstream, resolve, answered, synthesize,
  count_query, on_query, store, deliver, on_response, register_mapping, allocate_synthetic_ip,
  fixed_target_v6, a_record, answer_header, put_bytes,
}

-- A query of a client or an answer of a name server, at a time.
pub data Event : Type 0 where
  ask : ℕ → ℕ → List ℕ → Event
  reply : ℕ → List ℕ → Event

abbrev pub state_of : Option (Ctx × List Send) → Option Ctx
state_of none = none
state_of (some (ctx, sent)) = some ctx

unfoldable pub step : Ctx → Event → Option Ctx
step ctx (ask now client buf) = state_of (on_query ctx now client buf)
step ctx (reply now buf) = some (on_response ctx now buf).0

unfoldable pub run : Option Ctx → List Event → Option Ctx
run none es = none
run (some ctx) [] = some ctx
run (some ctx) (e ∷ es) = run (step ctx e) es

abbrev pub message : Event → List ℕ
message (ask now client buf) = buf
message (reply now buf) = buf

-- No event has this ID.
unfoldable pub spares : ℕ → List Event → Bool
spares qid [] = true
spares qid (e ∷ es) = not (read16 (message e) 0 == qid) && spares qid es

abbrev pub has_place : ℕ → Option Query → Bool
has_place idx none = false
has_place idx (some q) = q.qhash % dns_cache_size == idx

abbrev pub displaces : ℕ → Ctx → Event → Bool
displaces idx ctx (ask now client buf) = false
displaces idx ctx (reply now buf) = has_place idx (ctx.pending_queries (read16 buf 0))

-- No answer on the way is for a waiting query whose hash has this place of the cache.
unfoldable pub undisturbed : ℕ → Option Ctx → List Event → Bool
unfolding step
undisturbed idx none es = true
undisturbed idx (some ctx) [] = true
undisturbed idx (some ctx) (e ∷ es) = not (displaces idx ctx e) && undisturbed idx (step ctx e) es

-- The settings that decide whether a query is answered by the daemon itself.
abbrev pub SameSettings : Ctx → Ctx → Type 0
SameSettings a b =
    (a.smart_ipv6_bonding ≡ b.smart_ipv6_bonding) × (a.nat46_enabled ≡ b.nat46_enabled)

-- What is kept: the settings, the query that waits with an ID if `other` is true, and a place of
-- the cache if `fixed` is.
pub record Keeps (qid idx : ℕ) (other fixed : Bool) (before after : Ctx) : Type 0 where
  pub settings : SameSettings after before
  pub query : other ≡ true → after.pending_queries qid ≡ before.pending_queries qid
  pub place : fixed ≡ true → after.cache idx ≡ before.cache idx

module _ (qid idx : ℕ) where
  KeepsAll : Bool → Bool → Ctx → Option (Ctx × List Send) → Type 0
  KeepsAll other fixed ctx none = Unit
  KeepsAll other fixed ctx (some (after, sent)) = Keeps qid idx other fixed ctx after

  answered-Keeps :
      (other : Bool) (ctx next : Ctx) (client : ℕ) (o : Option (List ℕ))
      → Keeps qid idx other true ctx next
      → KeepsAll other true ctx (answered next client o)
  unfolding KeepsAll
  answered-Keeps other ctx next client none k = tt
  answered-Keeps other ctx next client (some buf) k = record {
    settings = k.settings;
    query = k.query;
    place = k.place;
  }

  synthesize-Keeps :
      (other : Bool) (ctx : Ctx) (client : ℕ) (buf : List ℕ)
      → KeepsAll other true ctx (synthesize (count_query ctx) client buf)
  synthesize-Keeps other ctx client buf =
      unfold synthesize allocate_synthetic_ip register_mapping count_query in
      answered-Keeps other ctx
        (register_mapping (allocate_synthetic_ip (count_query ctx)).0
          (allocate_synthetic_ip (count_query ctx)).1 fixed_target_v6)
        client
        (put_bytes (a_record (allocate_synthetic_ip (count_query ctx)).1)
          (some (answer_header buf)))
        (record { settings = (refl, refl); query = λ h. refl; place = λ h. refl })

  resolve-Keeps :
      (ctx : Ctx) (now client : ℕ) (buf : List ℕ) (qhash : ℕ) (o : Option (List ℕ))
      → KeepsAll
          (not (read16 buf 0 == qid))
          true
          ctx
          (some (resolve (count_query ctx) now client buf qhash o))
  unfolding KeepsAll send_upstream count_query
  resolve-Keeps ctx now client buf qhash none = record {
    settings = (refl, refl);
    query = λ h. ground arith;
    place = λ h. refl;
  }
  resolve-Keeps ctx now client buf qhash (some answer) = record {
    settings = (refl, refl);
    query = λ h. refl;
    place = λ h. refl;
  }

  on_query-Keeps :
      (ctx : Ctx) (now client : ℕ) (buf : List ℕ)
      → KeepsAll (not (read16 buf 0 == qid)) true ctx (on_query ctx now client buf)
  unfolding on_query
  on_query-Keeps ctx now client buf =
      let same : Keeps qid idx (not (read16 buf 0 == qid)) true ctx ctx = record {
        settings = (refl, refl);
        query = λ h. refl;
        place = λ h. refl;
      } in
      elim (Bool-cases (ltb (length buf) 12)) [
        | inl a ↦ rw a (unfold KeepsAll in same)
        | inr a ↦ rw a (elim (Bool-cases (ctx.smart_ipv6_bonding && qtype_of buf == 0x001C)) [
          | inl b ↦ rw b (
              unfold KeepsAll count_query in
              record { settings = (refl, refl); query = λ h. refl; place = λ h. refl })
          | inr b ↦ rw b (elim (Bool-cases (ctx.nat46_enabled && qtype_of buf == 0x0001)) [
            | inl c ↦ rw c (synthesize-Keeps (not (read16 buf 0 == qid)) ctx client buf)
            | inr c ↦ rw c (
                resolve-Keeps ctx now client buf (dns_compute_question_hash buf)
                  (look_up ctx (dns_compute_question_hash buf) now))
          ])
        ])
      ]

  deliver-Keeps :
      (ctx : Ctx) (now : ℕ) (buf : List ℕ) (o : Option Query)
      → Keeps qid idx
          (not (read16 buf 0 == qid))
          (not (has_place idx o))
          ctx
          (deliver ctx now buf o).0
  unfolding store
  deliver-Keeps ctx now buf none = record {
    settings = (refl, refl);
    query = λ h. refl;
    place = λ h. refl;
  }
  deliver-Keeps ctx now buf (some q) = record {
    settings = (ground arith, ground arith);
    query = λ h. ground arith;
    place = λ h. ground arith;
  }

  on_response-Keeps :
      (ctx : Ctx) (now : ℕ) (buf : List ℕ)
      → Keeps qid idx
          (not (read16 buf 0 == qid))
          (not (has_place idx (ctx.pending_queries (read16 buf 0))))
          ctx
          (on_response ctx now buf).0
  unfolding on_response
  on_response-Keeps ctx now buf = elim (Bool-cases (ltb (length buf) 12)) [
    | inl b ↦ rw b (record { settings = (refl, refl); query = λ h. refl; place = λ h. refl })
    | inr b ↦ rw b (deliver-Keeps ctx now buf (ctx.pending_queries (read16 buf 0)))
  ]

  of_state :
      (other fixed : Bool) (ctx after : Ctx) (o : Option (Ctx × List Send))
      → KeepsAll other fixed ctx o
      → state_of o ≡ some after
      → Keeps qid idx other fixed ctx after
  unfolding KeepsAll
  of_state other fixed ctx after none k e = absurd (cc e)
  of_state other fixed ctx after (some (c, sent)) k e =
      let same : c ≡ after = ground arith in subst (Keeps qid idx other fixed ctx) same k

  step-Keeps :
      (ctx after : Ctx) (e : Event)
      → step ctx e ≡ some after
      → Keeps qid idx (not (read16 (message e) 0 == qid)) (not (displaces idx ctx e)) ctx after
  unfolding step
  step-Keeps ctx after (ask now client buf) h =
      of_state (not (read16 buf 0 == qid)) true ctx after (on_query ctx now client buf)
        (on_query-Keeps ctx now client buf) h
  step-Keeps ctx after (reply now buf) h =
      let same : (on_response ctx now buf).0 ≡ after = ground arith in
      subst
        (Keeps qid idx (not (read16 buf 0 == qid))
          (not (has_place idx (ctx.pending_queries (read16 buf 0)))) ctx)
        same (on_response-Keeps ctx now buf)

-- A run from a state goes through the state behind its first event.
run-step :
    (ctx after : Ctx) (e : Event) (es : List Event)
    → run (some ctx) (e ∷ es) ≡ some after
    → (next : Ctx) × (step ctx e ≡ some next) × (run (some next) es ≡ some after)
run-step ctx after e es h = elim (Option-cases (step ctx e)) [
  | inl s ↦
      (let bad : none ≡ some after = unfold run in subst (λ o. run o es ≡ some after) s h in
        absurd (cc bad))
  | inr (next, s) ↦ (next, s, unfold run in subst (λ o. run o es ≡ some after) s h)
]

-- A query waits on while no event has its ID.
pub run-query :
    (qid : ℕ) (ctx after : Ctx) (es : List Event)
    → spares qid es ≡ true
    → run (some ctx) es ≡ some after
    → SameSettings after ctx × (after.pending_queries qid ≡ ctx.pending_queries qid)
unfolding spares
run-query qid ctx after [] s h = unfold run in (ground arith, ground arith)
run-query qid ctx after (e ∷ es) s h =
    let (next, one, rest) = run-step ctx after e es h in
    let k = step-Keeps qid 0 ctx next e one in
    let (settings, query) = run-query qid next after es (ground arith) rest in
    ((settings.0 ∙ k.settings.0, settings.1 ∙ k.settings.1), query ∙ k.query (ground arith))

-- A place of the cache stays while no answer displaces it.
pub run-place :
    (idx : ℕ) (ctx after : Ctx) (es : List Event)
    → undisturbed idx (some ctx) es ≡ true
    → run (some ctx) es ≡ some after
    → SameSettings after ctx × (after.cache idx ≡ ctx.cache idx)
run-place idx ctx after [] s h = unfold run in (ground arith, ground arith)
run-place idx ctx after (e ∷ es) s h =
    let (next, one, rest) = run-step ctx after e es h in
    let k = step-Keeps 0 idx ctx next e one in
    let both : (not (displaces idx ctx e) && undisturbed idx (some next) es) ≡ true =
      subst (λ o. (not (displaces idx ctx e) && undisturbed idx o es) ≡ true) one
        (unfold undisturbed in s) in
    let (settings, place) = run-place idx next after es (ground arith) rest in
    ((settings.0 ∙ k.settings.0, settings.1 ∙ k.settings.1), place ∙ k.place (ground arith))
