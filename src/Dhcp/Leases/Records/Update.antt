-- ===== src/Dhcp/Leases/Records/Update.antt =====
-- What the lease table of src/dhcp_server.c holds after an update.
use flux_wan.Base.{
  ℕ, ◌≡◌, refl, ◌≢◌, ap, inl, inr, List, [], ◌∷◌, ◌++◌, Bool, true, false, ◌||◌, Option, none, some,
  ltb, if◌then◌else◌, Bool-cases, Option-cases, bytes_eq, bytes_eq_refl, bytes_eq→eq, bytes_eq-ne,
  length, arith,
}
use mathlib.Core.Option.{map}
use flux_wan.Dhcp.Leases.{
  max_dhcp_leases, Lan, Lease, Ctx, blank, find_lease, modify_lease, has_mac, find_lease_by_mac,
  renewed,
}
use flux_wan.Dhcp.Leases.Records.{modify_head, is_found, update_lease_record}

pub length-modify :
    (p : Lease → Bool) (f : Lease → Lease) (ls : List Lease)
    → length (modify_lease p f ls) ≡ length ls
unfolding modify_lease
length-modify p f [] = refl
length-modify p f (l ∷ ls) = ground (arith, length-modify p f ls)

pub length-modify_head :
    (f : Lease → Lease) (ls : List Lease) → length (modify_head f ls) ≡ length ls
length-modify_head f [] = refl
length-modify_head f (l ∷ ls) = refl

-- A lease that is found is found after a change that keeps it found.
find-modify :
    (p : Lease → Bool) (f : Lease → Lease) (ls : List Lease) {l : Lease}
    → find_lease p ls ≡ some l
    → ((x : Lease) → p (f x) ≡ true)
    → find_lease p (modify_lease p f ls) ≡ some (f l)
unfolding find_lease modify_lease
find-modify p f (x ∷ ls) {l} h keeps = elim (Bool-cases (p x)) [
  | inl b ↦ rw (b, keeps x) (ap (map f) (rw b at h))
  | inr b ↦ rw (b, b) (find-modify p f ls (rw b at h) keeps)
]
find-modify p f [] h keeps = ground arith

find-append :
    (p : Lease → Bool) (ls : List Lease) (l : Lease)
    → find_lease p ls ≡ none
    → p l ≡ true
    → find_lease p (ls ++ l ∷ []) ≡ some l
unfolding find_lease
find-append p [] l h is = rw is refl
find-append p (x ∷ ls) l h is = elim (Bool-cases (p x)) [
  | inl b ↦ (let e : some x ≡ none = rw b at h in ground arith)
  | inr b ↦ rw b (find-append p ls l (rw b at h) is)
]

-- The lease that an update for a client writes over.
abbrev pub slot_of : List Lease → Option Lease → Lease
slot_of ls (some l) = l
slot_of [] none = blank
slot_of (l ∷ ls) none = if ltb (length (l ∷ ls)) max_dhcp_leases then blank else l

slot_of-blank : (ls : List Lease) → ltb (length ls) max_dhcp_leases ≡ true → slot_of ls none ≡ blank
slot_of-blank [] h = refl
slot_of-blank (l ∷ ls) h = rw h refl

find-modify_head :
    (p : Lease → Bool) (f : Lease → Lease) (ls : List Lease)
    → ((x : Lease) → p (f x) ≡ true)
    → ltb (length ls) max_dhcp_leases ≡ false
    → find_lease p (modify_head f ls) ≡ some (f (slot_of ls none))
unfolding find_lease
find-modify_head p f [] keeps h = ground arith
find-modify_head p f (l ∷ ls) keeps h = rw (keeps l, h) refl

renewed-mac :
    (lan : Lan) (mac : List ℕ) (ip : ℕ) (name : List ℕ) (now : ℕ) (x : Lease)
    → has_mac mac (renewed lan mac ip name now x) ≡ true
unfolding renewed
renewed-mac lan mac ip name now x = bytes_eq_refl mac

renewed-other :
    (lan : Lan) (mac mac' : List ℕ) (ip : ℕ) (name : List ℕ) (now : ℕ)
    → bytes_eq mac mac' ≡ false
    → (x : Lease) → has_mac mac' (renewed lan mac ip name now x) ≡ false
unfolding renewed
renewed-other lan mac mac' ip name now h x = h

-- After an update the first lease of the client is the written one: its own lease renewed, failing
-- that a new one, and in a full table the first lease written over.
pub find-update :
    (ctx : Ctx) (mac : List ℕ) (ip : ℕ) (name : List ℕ) (now : ℕ)
    → find_lease_by_mac (update_lease_record ctx mac ip name now) mac
      ≡ some (renewed ctx.lan mac ip name now (slot_of ctx.leases (find_lease_by_mac ctx mac)))
unfolding update_lease_record
find-update ctx mac ip name now =
    let write = renewed ctx.lan mac ip name now in
    let is = renewed-mac ctx.lan mac ip name now in
    elim (Option-cases (find_lease_by_mac ctx mac)) [
      | inl e ↦ rw e (elim (Bool-cases (ltb (length ctx.leases) max_dhcp_leases)) [
        | inl b ↦
            rw (b, slot_of-blank ctx.leases b)
              (find-append (has_mac mac) ctx.leases (write blank) e (is blank))
        | inr b ↦ rw b (find-modify_head (has_mac mac) write ctx.leases is b)
      ])
      | inr (l, e) ↦ rw e (find-modify (has_mac mac) write ctx.leases e is)
    ]

module _ (p q : Lease → Bool) (f : Lease → Lease) where
  -- A change that only concerns leases outside a test is not seen by it.
  find-modify_other :
      (ls : List Lease)
      → ((x : Lease) → p x ≡ true → q x ≡ false)
      → ((x : Lease) → q (f x) ≡ false)
      → find_lease q (modify_lease p f ls) ≡ find_lease q ls
  unfolding find_lease modify_lease
  find-modify_other [] apart out = refl
  find-modify_other (x ∷ ls) apart out = elim (Bool-cases (p x)) [
    | inl b ↦ rw (b, out x, apart x b) refl
    | inr b ↦ rw b (ap (λ o. if q x then some x else o) (find-modify_other ls apart out))
  ]

find-append_other :
    (q : Lease → Bool) (ls : List Lease) (l : Lease)
    → q l ≡ false
    → find_lease q (ls ++ l ∷ []) ≡ find_lease q ls
unfolding find_lease
find-append_other q [] l out = rw out refl
find-append_other q (x ∷ ls) l out =
    ap (λ o. if q x then some x else o) (find-append_other q ls l out)

-- An update for one client keeps what is found for another, unless the table is full and the
-- client is new.
pub find-update_other :
    (ctx : Ctx) (mac mac' : List ℕ) (ip : ℕ) (name : List ℕ) (now : ℕ)
    → mac ≢ mac'
    → (is_found (find_lease_by_mac ctx mac) || ltb (length ctx.leases) max_dhcp_leases) ≡ true
    → find_lease_by_mac (update_lease_record ctx mac ip name now) mac' ≡ find_lease_by_mac ctx mac'
unfolding update_lease_record
find-update_other ctx mac mac' ip name now other room =
    let write = renewed ctx.lan mac ip name now in
    let differ = bytes_eq-ne mac mac' other in
    let out : (x : Lease) → has_mac mac' (write x) ≡ false =
      renewed-other ctx.lan mac mac' ip name now differ in
    let apart : (x : Lease) → has_mac mac x ≡ true → has_mac mac' x ≡ false =
      λ x b. rw (bytes_eq→eq x.mac_addr mac b) differ in
    elim (Bool-cases (is_found (find_lease_by_mac ctx mac))) [
      | inl b ↦ rw b (find-modify_other (has_mac mac) (has_mac mac') write ctx.leases apart out)
      | inr b ↦
          let fits : ltb (length ctx.leases) max_dhcp_leases ≡ true = rw b at room in
          rw (b, fits) (find-append_other (has_mac mac') ctx.leases (write blank) (out blank))
    ]
