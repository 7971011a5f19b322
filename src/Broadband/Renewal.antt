-- ===== src/Broadband/Renewal.antt =====
-- What the renewal of a subscription in src/pppoe_server.c grants.
use flux_wan.Base.{
  ℕ, zero, suc, ap, ◌∙◌, length, get_elem?, false, bytes_eq_refl, ◌+◌, ◌*◌, ◌<◌, ◌^◌, ◌≡◌, refl,
  inl, inr, List, [], ◌∷◌, true, false, some, Bool-cases, bytes_eq, bytes_eq→eq, ◌&&◌, ltb, leb,
  if◌then◌else◌, arith,
}
use mathlib.Core.Option
use flux_wan.Broadband.{
  User, Server, World, Profile, success, day_sec, is_empty, write_secrets, find_user, modify_user,
}
use flux_wan.Broadband.Accounts.{is_barred, renew_user, renewed, days_of, new_profile_of, extend}

pub same_left : (x y z : List ℕ) → bytes_eq x y ≡ true → bytes_eq x z ≡ bytes_eq y z
same_left x y z h = rw (bytes_eq→eq x y h) refl

same_right : (x y z : List ℕ) → bytes_eq x y ≡ true → bytes_eq z x ≡ bytes_eq z y
same_right x y z h = rw (bytes_eq→eq x y h) refl

pub find_user-modify :
    (name key : List ℕ) (f : User → User) (users : List User)
    → ((u : User) → bytes_eq (f u).username key ≡ bytes_eq u.username key)
    → find_user key (modify_user name f users)
      ≡ (if bytes_eq name key then Option.map f (find_user name users) else find_user key users)
unfolding find_user modify_user
find_user-modify name key f [] keeps = ground arith
find_user-modify name key f (u ∷ users) keeps =
    let ih = find_user-modify name key f users keeps in
    elim (Bool-cases (bytes_eq u.username name)) [
      | inl a ↦ rw (a, keeps u, same_left u.username name key a) (ground arith)
      | inr a ↦ rw a (elim (Bool-cases (bytes_eq name key)) [
        | inl b ↦ rw (b, ← same_right name key u.username b, a) (ground (arith, ih))
        | inr b ↦ rw b (ground (arith, ih))
      ])
    ]

extended-leb :
    (now expires_at seconds t : ℕ)
    → 0 < now
    → expires_at + now + seconds < 2 ^ 64
    → (ltb 0 (extend now expires_at seconds) && leb (extend now expires_at seconds) t)
      ≡ leb ((if ltb now expires_at then expires_at else now) + seconds) t
extended-leb now expires_at seconds t p b = ground arith

renewed-barred :
    (now t : ℕ) (profiles : List Profile) (days : ℕ) (profile : List ℕ) (u : User)
    → 0 < now
    → u.expires_at + now + days_of days (new_profile_of profile u) profiles * day_sec < 2 ^ 64
    → is_barred t (Option.map (renewed now profiles days profile) (some u))
      ≡ leb
          ((if ltb now u.expires_at then u.expires_at else now)
            + days_of days (new_profile_of profile u) profiles * day_sec)
          t
renewed-barred now t profiles days profile u p b =
    extended-leb now u.expires_at (days_of days (new_profile_of profile u) profiles * day_sec) t p b

-- The first account with a name, after a change that keeps the name.
find_user-modified :
    (name : List ℕ) (f : User → User) (users : List User) (u : User)
    → ((v : User) → (f v).username ≡ v.username)
    → find_user name users ≡ some u
    → find_user name (modify_user name f users) ≡ some (f u)
find_user-modified name f users u keeps e =
    find_user-modify name name f users (λ v. ap (λ x. bytes_eq x name) (keeps v))
    ∙ rw (bytes_eq_refl name, e) refl

modify_user-others :
    (name : List ℕ) (f : User → User) (users : List User) (j : ℕ) (v : User)
    → get_elem? users j ≡ some v
    → bytes_eq v.username name ≡ false
    → get_elem? (modify_user name f users) j ≡ some v
unfolding modify_user
modify_user-others name f [] j v e d = e
modify_user-others name f (u ∷ users) zero v e d =
    let same : bytes_eq u.username name ≡ false = ground arith in rw same e
modify_user-others name f (u ∷ users) (suc j) v e d = elim (Bool-cases (bytes_eq u.username name)) [
  | inl b ↦ rw b e
  | inr b ↦ rw b (modify_user-others name f users j v e d)
]

length-modify_user :
    (name : List ℕ) (f : User → User) (users : List User)
    → length (modify_user name f users) ≡ length users
unfolding modify_user
length-modify_user name f [] = refl
length-modify_user name f (u ∷ users) = ground (arith, length-modify_user name f users)

-- An account that is renewed until a time, with a profile: enabled, and barred from that time on.
-- Nothing else of it has changed.
pub record RenewedUntil (u u' : User) (profile : List ℕ) (end : ℕ) : Type 0 where
  pub barred : (t : ℕ) → is_barred t (some u') ≡ leb end t
  pub enabled : u'.enabled ≡ true
  pub new_profile : u'.profile ≡ profile
  pub rest : record u' { enabled = u.enabled; profile = u.profile; expires_at = u.expires_at } ≡ u

-- A known subscriber is renewed for the given number of days, else for those of the profile, else
-- for 30: from the present end on if that lies ahead, and from now on otherwise. The
-- account is then barred exactly from that end on, also if it was disabled before. Nothing
-- else of the account changes but its profile if another one is given; the list is as long as
-- before, and each account of another name stands in it as it was.
-- The clock is set, and the times fit in 64 bits.
pub renew_user-RenewedUntil :
    (w : World) (s : Server) (name profile : List ℕ) (days : ℕ) (u : User)
    → is_empty name ≡ false
    → find_user name s.users ≡ some u
    → 0 < w.now
    → u.expires_at + w.now + days_of days (new_profile_of profile u) s.profiles * day_sec < 2 ^ 64
    → (u' : User) × ((renew_user w s name days profile).2 ≡ success)
      × (find_user name (renew_user w s name days profile).0.users ≡ some u')
      × RenewedUntil u u' (new_profile_of profile u) (
          (if ltb w.now u.expires_at then u.expires_at else w.now)
          + days_of days (new_profile_of profile u) s.profiles * day_sec)
      × (length (renew_user w s name days profile).0.users ≡ length s.users)
      × ((j : ℕ) (v : User)
          → get_elem? s.users j ≡ some v
          → bytes_eq v.username name ≡ false
          → get_elem? (renew_user w s name days profile).0.users j ≡ some v)
unfolding renew_user write_secrets
renew_user-RenewedUntil w s name profile days u e f p b =
    let change = renewed w.now s.profiles days profile in
    (
      change u,
      rw (e, f) refl,
      rw (e, f) (find_user-modified name change s.users u (λ v. refl) f),
      record {
        barred = λ t. renewed-barred w.now t s.profiles days profile u p b;
        enabled = refl;
        new_profile = refl;
        rest = refl;
      },
      rw (e, f) (length-modify_user name change s.users),
      λ j v there other. rw (e, f) (modify_user-others name change s.users j v there other),
    )
