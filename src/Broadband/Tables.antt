-- ===== src/Broadband/Tables.antt =====
-- The lists of subscribers of src/pppoe_server.c under its changes.
use flux_wan.Base.{
  ◌⊎◌, ℕ, ◌+◌, ◌≤◌, ◌<◌, ◌≡◌, refl, sym, ap, inl, inr, List, [], ◌∷◌, ◌++◌, true, false, none,
  Bool-cases, bytes_eq, bytes_eq→eq, length, length-append, if◌then◌else◌, arith,
}
use flux_wan.Broadband.{User, Profile, Server, find_user, modify_user}
use flux_wan.Broadband.Accounts.{remove_user, move_users}
use flux_wan.Broadband.Renewal.{same_left}

-- How often a name stands among the subscribers.
unfoldable pub count : List ℕ → List User → ℕ
count name [] = 0
count name (u ∷ users) = (if bytes_eq u.username name then 1 else 0) + count name users

find-count :
    (name : List ℕ) (users : List User) → find_user name users ≡ none → count name users ≡ 0
unfolding count find_user
find-count name [] h = refl
find-count name (u ∷ users) h = ground (arith, find-count name users)

count-append :
    (name : List ℕ) (users : List User) (u : User)
    → count name (users ++ (u ∷ []))
      ≡ count name users + (if bytes_eq u.username name then 1 else 0)
unfolding count
count-append name [] u = omega arith
count-append name (v ∷ users) u = omega (arith, count-append name users u)

count-modify :
    (name key : List ℕ) (f : User → User) (users : List User)
    → ((v : User)
        → bytes_eq v.username name ≡ true
        → bytes_eq (f v).username key ≡ bytes_eq v.username key)
    → count key (modify_user name f users) ≡ count key users
unfolding count modify_user
count-modify name key f [] keeps = refl
count-modify name key f (v ∷ users) keeps = elim (Bool-cases (bytes_eq v.username name)) [
  | inl b ↦ rw (b, keeps v b) refl
  | inr b ↦ rw b (
      ap (λ n. (if bytes_eq v.username key then 1 else 0) + n)
        (count-modify name key f users keeps))
]

length-modify :
    (name : List ℕ) (f : User → User) (users : List User)
    → length (modify_user name f users) ≡ length users
unfolding modify_user
length-modify name f [] = refl
length-modify name f (u ∷ users) = ground (arith, length-modify name f users)

pub count-remove :
    (name key : List ℕ) (users : List User) → count key (remove_user name users) ≤ count key users
unfolding count remove_user
count-remove name key [] = omega arith
count-remove name key (u ∷ users) = ground (arith, count-remove name key users)

pub length-remove :
    (name : List ℕ) (users : List User) → length (remove_user name users) ≤ length users
unfolding remove_user
length-remove name [] = omega arith
length-remove name (u ∷ users) = ground (arith, length-remove name users)

pub count-move :
    (old new key : List ℕ) (users : List User)
    → count key (move_users old new users) ≡ count key users
unfolding count move_users
count-move old new key [] = refl
count-move old new key (u ∷ users) = ground (arith, count-move old new key users)

pub length-move :
    (old new : List ℕ) (users : List User) → length (move_users old new users) ≡ length users
unfolding move_users
length-move old new [] = refl
length-move old new (u ∷ users) = ground (arith, length-move old new users)

-- The subscribers and the profiles fit their arrays.
pub record FitsUsers (users : List User) : Type 0 where
  pub once : (name : List ℕ) → count name users ≤ 1
  pub few : length users ≤ 4096

abbrev pub FitsProfiles : List Profile → Type 0
FitsProfiles profiles = length profiles ≤ 64

abbrev pub Fits : Server → Type 0
Fits s = FitsUsers s.users × FitsProfiles s.profiles

pub append-Fits :
    (u : User) (users : List User)
    → FitsUsers users
    → find_user u.username users ≡ none
    → length users < 4096
    → FitsUsers (users ++ (u ∷ []))
append-Fits u users v f h = record {
  once = λ name. once name (Bool-cases (bytes_eq u.username name));
  few = omega (arith, length-append users (u ∷ []));
}
  where
    once :
        (name : List ℕ)
        → (bytes_eq u.username name ≡ true) ⊎ (bytes_eq u.username name ≡ false)
        → count name (users ++ (u ∷ [])) ≤ 1
    once name (inl b) =
        rw
          (
            count-append name users u,
            b,
            ← bytes_eq→eq u.username name b,
            find-count u.username users f,
          )
          (omega arith)
    once name (inr b) = rw (count-append name users u, b) (omega (arith, v.once name))

pub replace-Fits :
    (u : User) (users : List User)
    → FitsUsers users
    → FitsUsers (modify_user u.username (λ _. u) users)
replace-Fits u users v = record {
  once = λ name.
      rw
        (count-modify u.username name (λ _. u) users
          (λ w b. sym (same_left w.username u.username name b)))
        (v.once name);
  few = rw length-modify v.few;
}

pub modify-Fits :
    (name : List ℕ) (f : User → User) (users : List User)
    → ((v : User) → (f v).username ≡ v.username)
    → FitsUsers users
    → FitsUsers (modify_user name f users)
modify-Fits name f users keeps v = record {
  once = λ key. rw (count-modify name key f users (λ w b. rw (keeps w) refl)) (v.once key);
  few = rw length-modify v.few;
}
