-- ===== src/Sticky/Insert.antt =====
-- `sticky_insert` (src/sticky.c) writes the map that the table stands for.
use flux_wan.Base.{
  ℕ, ◌+◌, ◌≤◌, ◌<◌, ◌^◌, ◌≡◌, refl, ◌∙◌, ◌≢◌, ◌⊎◌, inl, inr, ◌∷◌, Bool, false, none, some, ◌==◌,
  if◌then◌else◌, Bool-cases, ==_iff, set, u32, arith, sub64-eq-sub,
}
use flux_wan.Sticky.{
  Node, Table, Status, done, failed, hash_ip, lookup, update_chain, insert, push_node,
}
use flux_wan.Sticky.Chain.{
  find, count, find-eq-none, update_chain-found, known, known-find, find-update_chain,
  count-update_chain, length-update_chain,
}
use flux_wan.Sticky.Refinement.{IsValid, chain_of, view, total, set-IsValid, view-set, lookup-view}

module _ {t : Table} (valid : IsValid t) (ip now : ℕ) where
  module _ (wan : ℕ) where
    update_known :
        count ip (chain_of t ip) ≢ 0
        → let c = (update_chain ip wan now (chain_of t ip)).1 in
          let t' : Table = record t { buckets = set t.buckets (hash_ip ip t.num_buckets) c } in
          IsValid t' × ((q : ℕ) → view t' q ≡ (if q == ip then some (wan, now) else view t q))
    update_known there =
        let c = chain_of t ip in
        let d = (update_chain ip wan now c).1 in
        (
          set-IsValid valid ip d t.active_count (omega (arith, length-update_chain ip wan now c))
              (omega (arith, valid.counted, valid.small)) (λ q _. count-update_chain ip wan now q c)
              (omega (
                arith,
                count-update_chain ip wan now ip c,
                valid.once ip (hash_ip ip t.num_buckets),
              )),
          view-set valid ip d t.active_count (some (wan, now)) (λ q.
              find-update_chain ip wan now q c (ground (arith, update_chain-found ip wan now c))),
        )

    push_new :
        count ip (chain_of t ip) ≡ 0
        → total t.buckets + 1 < 2 ^ 32
        → let n : Node = record { client_ip = ip; wan_id = wan; last_seen_sec = now } in
          let t' = push_node t (hash_ip ip t.num_buckets) n in
          IsValid t' × ((q : ℕ) → view t' q ≡ (if q == ip then some (wan, now) else view t q))
    unfolding count find
    push_new absent room =
        let n : Node = record { client_ip = ip; wan_id = wan; last_seen_sec = now } in
        let c = chain_of t ip in
        (
          set-IsValid valid ip (n ∷ c) (u32 (t.active_count + 1)) (omega (arith, valid.counted))
              (omega arith) (λ q ne. ground arith) (ground arith),
          view-set valid ip (n ∷ c) (u32 (t.active_count + 1)) (some (wan, now))
              (λ q. ground arith),
        )

    -- What a call of `sticky_insert` may do.
    abbrev pub Inserts : Bool → Table × Status → Type 0
    Inserts room r =
        ((r.1 ≡ done)
          × (ip ≢ 0)
          × IsValid r.0
          × ((q : ℕ) → view r.0 q ≡ (if q == ip then some (wan, now) else view t q))
          × (r.0.active_count + known (view t ip) ≡ t.active_count + 1))
        ⊎ ((r.1 ≡ failed)
            × (r.0 ≡ t)
            × ((ip ≡ 0) ⊎ ((wan ≡ 0) ⊎ ((room ≡ false) × (view t ip ≡ none)))))

    -- On a valid table with fewer than 2^32 - 1 nodes, an insertion either succeeds, writes the
    -- client's entry into the map and nothing else, keeps the table valid and counts a new client;
    -- or it fails and changes nothing, and then the client or the WAN is 0 or a node for a new
    -- client could not be allocated.
    pub insert-Inserts :
        (room : Bool) → total t.buckets + 1 < 2 ^ 32 → Inserts room (insert room t ip wan now)
    unfolding insert view
    insert-Inserts room fits =
        let c = chain_of t ip in
        let found = update_chain-found ip wan now c in
        elim (Bool-cases (ip == 0)) [
          | inl a ↦ rw a (inr (refl, refl, inl ((==_iff ip 0).0 a)))
          | inr a ↦ elim (Bool-cases (wan == 0)) [
            | inl b ↦ rw (a, b) (inr (refl, refl, inr (inl ((==_iff wan 0).0 b))))
            | inr b ↦ elim (Bool-cases (update_chain ip wan now c).0) [
              | inl f ↦
                  let (v, w) = update_known (ground arith) in
                  rw (a, b, f) (inl (refl, ground arith, v, w, ground (arith, known-find ip c)))
              | inr f ↦ elim (Bool-cases room) [
                | inl r ↦
                    let (v, w) = push_new (ground arith) fits in
                    rw (a, b, f, r)
                      (inl
                        (refl, ground arith, v, w, ground (arith, known-find ip c, valid.counted)))
                | inr r ↦
                    rw (a, b, f, r)
                      (inr (refl, refl, inr (inr (refl, find-eq-none ip c (ground arith)))))
              ]
            ]
          ]
        ]

insert-timeout :
    (room : Bool) (t : Table) (ip wan now : ℕ)
    → (insert room t ip wan now).0.timeout_sec ≡ t.timeout_sec
unfolding insert
insert-timeout room t ip wan now = ground arith

-- A client that was stored in a valid table with fewer than 2^32 - 1 nodes is sent to its WAN for
-- as long as the timeout says, on a clock of 64 bits that does not go back.
pub lookup-insert :
    {t : Table}
    → IsValid t
    → (ip wan now later : ℕ) (room : Bool) → total t.buckets + 1 < 2 ^ 32
    → later < 2 ^ 64
    → now ≤ later
    → later ≤ now + t.timeout_sec
    → (insert room t ip wan now).1 ≡ done
    → (lookup (insert room t ip wan now).0 ip later).1 ≡ wan
lookup-insert {t} valid ip wan now later room fits word order soon stored =
    elim (insert-Inserts valid ip now wan room fits) [
      | inl (ok, some_client, v, reads, counted) ↦
          let (answers, _, _) = lookup-view v ip later some_client in
          answers
          ∙ rw (reads ip, insert-timeout room t ip wan now) (ground (arith, sub64-eq-sub later now))
      | inr (refused, _, _) ↦ cc
    ]
