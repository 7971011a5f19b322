-- ===== src/Sticky/Chain.antt =====
-- One bucket of the sticky table (src/sticky.c): what it maps a client to.
use flux_wan.Base.{
  ℕ, suc, ◌+◌, ◌-◌, ◌≤◌, ◌≡◌, refl, [], ◌∷◌, true, false, Option, none, some, ltb, ◌==◌,
  if◌then◌else◌, length, arith,
}
use flux_wan.Sticky.{Chain, is_fresh, lookup_chain, update_chain, cleanup_chain}

abbrev pub Entry : Type 0
Entry = ℕ × ℕ

-- The WAN and the time of a client's first node.
unfoldable pub find : ℕ → Chain → Option Entry
find ip [] = none
find ip (n ∷ c) = if n.client_ip == ip then some (n.wan_id, n.last_seen_sec) else find ip c

unfoldable pub count : ℕ → Chain → ℕ
count ip [] = 0
count ip (n ∷ c) = if n.client_ip == ip then suc (count ip c) else count ip c

-- What `sticky_lookup` answers for such an entry, and the entry that it leaves.
abbrev pub answer : ℕ → ℕ → Option Entry → ℕ
answer timeout now none = 0
answer timeout now (some e) =
    if is_fresh timeout now (record { client_ip = 0; wan_id = e.0; last_seen_sec = e.1 })
    then e.0
    else 0

abbrev pub refresh : ℕ → ℕ → Option Entry → Option Entry
refresh timeout now none = none
refresh timeout now (some e) =
    if is_fresh timeout now (record { client_ip = 0; wan_id = e.0; last_seen_sec = e.1 })
    then some (e.0, now)
    else some e

-- What cleaning leaves of it.
abbrev pub live : ℕ → ℕ → Option Entry → Option Entry
live timeout now none = none
live timeout now (some e) =
    if is_fresh timeout now (record { client_ip = 0; wan_id = e.0; last_seen_sec = e.1 })
    then some e
    else none

pub find-eq-none : (ip : ℕ) (c : Chain) → count ip c ≡ 0 → find ip c ≡ none
unfolding find count
find-eq-none ip [] h = refl
find-eq-none ip (n ∷ c) h = ground (arith, find-eq-none ip c)

abbrev pub known : Option Entry → ℕ
known none = 0
known (some e) = 1

pub known-find : (ip : ℕ) (c : Chain) → known (find ip c) ≡ (if 0 == count ip c then 0 else 1)
unfolding find count
known-find ip [] = refl
known-find ip (n ∷ c) = ground (arith, known-find ip c)

pub count-eq-zero : (ip : ℕ) (c : Chain) → find ip c ≡ none → count ip c ≡ 0
unfolding find count
count-eq-zero ip [] h = refl
count-eq-zero ip (n ∷ c) h = ground (arith, count-eq-zero ip c)

module _ (timeout now ip : ℕ) where
  pub lookup_chain-find :
      (c : Chain) → (lookup_chain timeout now ip c).1 ≡ answer timeout now (find ip c)
  unfolding lookup_chain find
  lookup_chain-find [] = refl
  lookup_chain-find (n ∷ c) = ground (arith, lookup_chain-find c)

  pub find-lookup_chain :
      (q : ℕ) (c : Chain)
      → find q (lookup_chain timeout now ip c).0
        ≡ (if q == ip then refresh timeout now (find q c) else find q c)
  unfolding lookup_chain find
  find-lookup_chain q [] = ground arith
  find-lookup_chain q (n ∷ c) = ground (arith, find-lookup_chain q c)

  pub count-lookup_chain :
      (q : ℕ) (c : Chain) → count q (lookup_chain timeout now ip c).0 ≡ count q c
  unfolding lookup_chain count
  count-lookup_chain q [] = refl
  count-lookup_chain q (n ∷ c) = ground (arith, count-lookup_chain q c)

  pub length-lookup_chain : (c : Chain) → length (lookup_chain timeout now ip c).0 ≡ length c
  unfolding lookup_chain
  length-lookup_chain [] = refl
  length-lookup_chain (n ∷ c) = ground (arith, length-lookup_chain c)

module _ (ip wan now : ℕ) where
  pub update_chain-found :
      (c : Chain) → (update_chain ip wan now c).0 ≡ (if 0 == count ip c then false else true)
  unfolding update_chain count
  update_chain-found [] = refl
  update_chain-found (n ∷ c) = ground (arith, update_chain-found c)

  pub find-update_chain :
      (q : ℕ) (c : Chain)
      → (update_chain ip wan now c).0 ≡ true
      → find q (update_chain ip wan now c).1 ≡ (if q == ip then some (wan, now) else find q c)
  unfolding update_chain find
  find-update_chain q [] h = ground arith
  find-update_chain q (n ∷ c) h = ground (arith, find-update_chain q c)

  pub count-update_chain : (q : ℕ) (c : Chain) → count q (update_chain ip wan now c).1 ≡ count q c
  unfolding update_chain count
  count-update_chain q [] = refl
  count-update_chain q (n ∷ c) = ground (arith, count-update_chain q c)

  pub length-update_chain : (c : Chain) → length (update_chain ip wan now c).1 ≡ length c
  unfolding update_chain
  length-update_chain [] = refl
  length-update_chain (n ∷ c) = ground (arith, length-update_chain c)

module _ (timeout now : ℕ) where
  pub count-cleanup_chain_le :
      (q : ℕ) (c : Chain) (a : ℕ) → count q (cleanup_chain timeout now c a).0 ≤ count q c
  unfolding cleanup_chain count
  count-cleanup_chain_le q [] a = ground arith
  count-cleanup_chain_le q (n ∷ c) a = ground (
    arith,
    count-cleanup_chain_le q c a,
    count-cleanup_chain_le q c (if ltb 0 a then a - 1 else a),
  )

  -- A client with one node at most keeps it if it is fresh, and loses it if not.
  pub find-cleanup_chain :
      (q : ℕ) (c : Chain) (a : ℕ)
      → count q c ≤ 1
      → find q (cleanup_chain timeout now c a).0 ≡ live timeout now (find q c)
  unfolding cleanup_chain find count
  find-cleanup_chain q [] a h = refl
  find-cleanup_chain q (n ∷ c) a h = ground (
    arith,
    find-cleanup_chain q c a,
    find-cleanup_chain q c (if ltb 0 a then a - 1 else a),
    find-eq-none q c,
  )

  -- The count falls by the nodes that go.
  pub cleanup_chain-count :
      (c : Chain) (a : ℕ)
      → length c ≤ a
      → (cleanup_chain timeout now c a).1 + length c ≡ a + length (cleanup_chain timeout now c a).0
  unfolding cleanup_chain
  cleanup_chain-count [] a h = refl
  cleanup_chain-count (n ∷ c) a h =
      ground (arith, cleanup_chain-count c a, cleanup_chain-count c (if ltb 0 a then a - 1 else a))

  pub length-cleanup_chain_le :
      (c : Chain) (a : ℕ) → length (cleanup_chain timeout now c a).0 ≤ length c
  unfolding cleanup_chain
  length-cleanup_chain_le [] a = omega arith
  length-cleanup_chain_le (n ∷ c) a =
      ground (
        arith,
        length-cleanup_chain_le c a,
        length-cleanup_chain_le c (if ltb 0 a then a - 1 else a),
      )
