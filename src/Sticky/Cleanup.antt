-- ===== src/Sticky/Cleanup.antt =====
-- `sticky_cleanup_expired` (src/sticky.c) drops what a lookup would not answer.
use flux_wan.Base.{
  ℕ, zero, suc, ◌+◌, ◌≤◌, ◌≡◌, refl, sym, ◌∙◌, ◌≢◌, inl, inr, List, [], ◌∷◌, true, Option, none,
  some, ◌==◌, Bool-cases, length, get_or, arith,
}
use flux_wan.Sticky.{Chain, Table, hash_ip, lookup, cleanup_chain, cleanup_buckets, cleanup_expired}
use flux_wan.Sticky.Chain.{
  Entry, answer, live, count-cleanup_chain_le, find-cleanup_chain, cleanup_chain-count,
  length-cleanup_chain_le,
}
use flux_wan.Sticky.Refinement.{IsValid, chain_of, view, total, lookup-view}

module _ (timeout now : ℕ) where
  get_or-cleanup :
      (bs : List Chain) (i a : ℕ)
      → (b : ℕ) × (get_or (cleanup_buckets timeout now bs a).0 i []
          ≡ (cleanup_chain timeout now (get_or bs i []) b).0)
  unfolding cleanup_buckets get_or
  get_or-cleanup [] i a = (0, refl)
  get_or-cleanup (c ∷ bs) zero a = (a, refl)
  get_or-cleanup (c ∷ bs) (suc i) a = get_or-cleanup bs i (cleanup_chain timeout now c a).1

  length-cleanup :
      (bs : List Chain) (a : ℕ) → length (cleanup_buckets timeout now bs a).0 ≡ length bs
  unfolding cleanup_buckets
  length-cleanup [] a = refl
  length-cleanup (c ∷ bs) a = omega (arith, length-cleanup bs (cleanup_chain timeout now c a).1)

  cleanup-total_le :
      (bs : List Chain) (a : ℕ) → total (cleanup_buckets timeout now bs a).0 ≤ total bs
  unfolding cleanup_buckets total
  cleanup-total_le [] a = omega arith
  cleanup-total_le (c ∷ bs) a = omega (
    arith,
    length-cleanup_chain_le timeout now c a,
    cleanup-total_le bs (cleanup_chain timeout now c a).1,
  )

  cleanup-total :
      (bs : List Chain) (a : ℕ)
      → total bs ≤ a
      → (cleanup_buckets timeout now bs a).1 + total bs
        ≡ a + total (cleanup_buckets timeout now bs a).0
  unfolding cleanup_buckets total
  cleanup-total [] a h = refl
  cleanup-total (c ∷ bs) a h =
      let one = cleanup_chain-count timeout now c a (omega arith) in
      omega (arith, cleanup-total bs (cleanup_chain timeout now c a).1 (omega arith))

module _ {t : Table} (valid : IsValid t) (now : ℕ) where
  -- On a valid table, cleaning keeps the fresh clients, drops the others, and keeps the table
  -- valid.
  pub cleanup_expired-view :
      IsValid (cleanup_expired t now)
      × ((q : ℕ) → view (cleanup_expired t now) q ≡ live t.timeout_sec now (view t q))
  unfolding cleanup_expired view
  cleanup_expired-view =
      let τ = t.timeout_sec in
      let all = cleanup-total τ now t.buckets t.active_count (omega (arith, valid.counted)) in
      (
        record {
          some_buckets = valid.some_buckets;
          width = length-cleanup τ now t.buckets t.active_count ∙ valid.width;
          once = λ q i.
              let (b, e) = get_or-cleanup τ now t.buckets i t.active_count in
              rw e (
                omega (
                  arith,
                  valid.once q i,
                  count-cleanup_chain_le τ now q (get_or t.buckets i []) b,
                ));
          home = λ q i h.
              let (b, e) = get_or-cleanup τ now t.buckets i t.active_count in
              rw e (
                omega (
                  arith,
                  valid.home q i h,
                  count-cleanup_chain_le τ now q (get_or t.buckets i []) b,
                ));
          counted = omega (arith, valid.counted);
          small =
              omega (
                arith,
                valid.counted,
                valid.small,
                cleanup-total_le τ now t.buckets t.active_count,
              );
        },
        λ q.
            let (b, e) = get_or-cleanup τ now t.buckets (hash_ip q t.num_buckets) t.active_count in
            rw e (
              find-cleanup_chain τ now q (chain_of t q) b (valid.once q (hash_ip q t.num_buckets))),
      )

lookup_zero : (t : Table) (q now : ℕ) → (q == 0) ≡ true → (lookup t q now).1 ≡ 0
unfolding lookup
lookup_zero t q now h = rw h

answer-live :
    (timeout now : ℕ) (e : Option Entry)
    → answer timeout now (live timeout now e) ≡ answer timeout now e
answer-live timeout now none = refl
answer-live timeout now (some e) = ground arith

-- Cleaning a valid table changes no answer of a lookup at the same time.
pub lookup-cleanup_expired :
    {t : Table}
    → IsValid t
    → (now q : ℕ) → (lookup (cleanup_expired t now) q now).1 ≡ (lookup t q now).1
unfolding cleanup_expired
lookup-cleanup_expired {t} valid now q = elim (Bool-cases (q == 0)) [
  | inl a ↦ rw (lookup_zero t q now a, lookup_zero (cleanup_expired t now) q now a)
  | inr a ↦
      let (v, reads) = cleanup_expired-view valid now in
      let some_client : q ≢ 0 = ground arith in
      (lookup-view v q now some_client).0
      ∙ rw (reads q) (answer-live t.timeout_sec now (view t q))
      ∙ sym (lookup-view valid q now some_client).0
]
