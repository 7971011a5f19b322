-- ===== src/Sticky/Refinement.antt =====
-- The sticky table (src/sticky.c) against the map from clients to entries that it stands for.
use flux_wan.Base.{
  ℕ, zero, suc, ◌+◌, ◌≤◌, ◌<◌, ◌^◌, ◌≡◌, refl, sym, ◌≢◌, inl, inr, List, [], ◌∷◌, Option, none,
  ◌==◌, if◌then◌else◌, Bool-cases, ==_iff, length, get_or, set, length-set, get_or-set,
  length-replicate, get_or-replicate, replicate, arith,
}
use flux_wan.Sticky.{Chain, Table, hash_ip, init, lookup, lookup_chain}
use flux_wan.Sticky.Chain.{
  Entry, find, count, answer, refresh, lookup_chain-find, find-lookup_chain, count-lookup_chain,
  length-lookup_chain,
}

unfoldable pub total : List Chain → ℕ
total [] = 0
total (c ∷ bs) = length c + total bs

total-set :
    (bs : List Chain) (i : ℕ) (c : Chain)
    → i < length bs
    → total (set bs i c) + length (get_or bs i []) ≡ total bs + length c
unfolding total set get_or
total-set [] i c h = absurd (omega arith)
total-set (x ∷ bs) zero c h = omega arith
total-set (x ∷ bs) (suc i) c h = omega (arith, total-set bs i c (omega arith))

total-replicate : (n : ℕ) → total (replicate n []) ≡ 0
unfolding total replicate
total-replicate zero = refl
total-replicate (suc n) = omega (arith, total-replicate n)

-- A client has one node at most, and that in its home bucket; the counter counts the nodes.
pub record IsValid (t : Table) : Type 0 where
  pub some_buckets : 0 < t.num_buckets
  pub width : length t.buckets ≡ t.num_buckets
  pub once : (q i : ℕ) → count q (get_or t.buckets i []) ≤ 1
  pub home : (q i : ℕ) → hash_ip q t.num_buckets ≢ i → count q (get_or t.buckets i []) ≡ 0
  pub counted : t.active_count ≡ total t.buckets
  pub small : total t.buckets < 2 ^ 32

abbrev pub chain_of : Table → ℕ → Chain
chain_of t q = get_or t.buckets (hash_ip q t.num_buckets) []

-- The map that the table stands for.
unfoldable pub view : Table → ℕ → Option Entry
view t q = find q (chain_of t q)

hash_ip-lt : (ip n : ℕ) → 0 < n → hash_ip ip n < n
unfolding hash_ip
hash_ip-lt ip n h = omega arith

pub init-IsValid : (timeout : ℕ) → IsValid (init timeout) × ((q : ℕ) → view (init timeout) q ≡ none)
unfolding init view find count
init-IsValid timeout = (
  record {
    some_buckets = omega arith;
    width = length-replicate 1024 [];
    once = λ q i. rw get_or-replicate (omega arith);
    home = λ q i h. rw get_or-replicate;
    counted = sym (total-replicate 1024);
    small = rw total-replicate (omega arith);
  },
  λ q. rw get_or-replicate,
)

-- All three writes replace the home bucket of one client.
module _ {t : Table} (valid : IsValid t) (ip : ℕ) where
  in_range : hash_ip ip t.num_buckets < length t.buckets
  in_range = rw valid.width (hash_ip-lt ip t.num_buckets valid.some_buckets)

  pub set-IsValid :
      (c : Chain) (active : ℕ)
      → active + length (chain_of t ip) ≡ t.active_count + length c
      → active < 2 ^ 32
      → ((q : ℕ) → q ≢ ip → count q c ≡ count q (chain_of t ip))
      → count ip c ≤ 1
      → IsValid
          (record t { buckets = set t.buckets (hash_ip ip t.num_buckets) c; active_count = active })
  set-IsValid c active size fits others mine =
      let all = total-set t.buckets (hash_ip ip t.num_buckets) c in_range in
      record {
        some_buckets = valid.some_buckets;
        width = rw length-set valid.width;
        once = λ q i.
            rw (get_or-set, in_range)
              (ground (arith, valid.once q i, valid.once q (hash_ip ip t.num_buckets), others q));
        home = λ q i h. rw (get_or-set, in_range) (ground (arith, valid.home q i, others q));
        counted = omega (arith, valid.counted);
        small = omega (arith, valid.counted);
      }

  pub view-set :
      (c : Chain) (active : ℕ) (e : Option Entry)
      → ((q : ℕ) → find q c ≡ (if q == ip then e else find q (chain_of t ip)))
      → (q : ℕ)
      → view
          (record t { buckets = set t.buckets (hash_ip ip t.num_buckets) c; active_count = active })
          q
        ≡ (if q == ip then e else view t q)
  unfolding view
  view-set c active e found q = rw (get_or-set, in_range) (ground (arith, found q))

module _ {t : Table} (valid : IsValid t) (ip now : ℕ) where
  -- On a valid table, a lookup of a client other than 0 answers from the map that the table stands
  -- for, renews the client's entry if it is fresh, leaves all other entries, and keeps the table
  -- valid.
  pub lookup-view :
      ip ≢ 0
      → ((lookup t ip now).1 ≡ answer t.timeout_sec now (view t ip))
        × IsValid (lookup t ip now).0
        × ((q : ℕ)
            → view (lookup t ip now).0 q
              ≡ (if q == ip then refresh t.timeout_sec now (view t ip) else view t q))
  unfolding lookup view
  lookup-view h =
      let c = chain_of t ip in
      let d = (lookup_chain t.timeout_sec now ip c).0 in
      elim (Bool-cases (ip == 0)) [
        | inl e ↦ absurd (h ((==_iff ip 0).0 e))
        | inr e ↦ rw e (
          lookup_chain-find t.timeout_sec now ip c,
          set-IsValid valid ip d t.active_count
              (omega (arith, length-lookup_chain t.timeout_sec now ip c))
              (omega (arith, valid.counted, valid.small))
              (λ q _. count-lookup_chain t.timeout_sec now ip q c)
              (omega (
                arith,
                count-lookup_chain t.timeout_sec now ip ip c,
                valid.once ip (hash_ip ip t.num_buckets),
              )),
          view-set valid ip d t.active_count (refresh t.timeout_sec now (find ip c))
              (λ q. ground (arith, find-lookup_chain t.timeout_sec now ip q c)),
        )
      ]
