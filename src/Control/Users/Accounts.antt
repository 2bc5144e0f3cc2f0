-- ===== src/Control/Users/Accounts.antt =====
-- What registering and authenticating promise.
use omniup_vpn.Base.{
  is_blank, ℕ, ◌≡◌, ◌≢◌, refl, inl, inr, Bool, true, false, not, ◌||◌, Option, none, some, List, [],
  ◌∷◌, arith, Text, text_eq, text_eq_iff, text_eq_refl, text_key, Bool-cases, Option-cases, ltb,
  length,
}
use omniup_vpn.Base.Map.{get, put, get-put}
use omniup_vpn.Unicode.{Unicode}
use omniup_vpn.Control.State.{User, Invite, Store, Env, ok, persist, save}
use omniup_vpn.Control.Users.{
  Bcrypt, open_invite, find_invite, use_invite, has_at, normalize_email, register_hashed,
  register_user, authenticate, new_user, add_user, with_invites,
}

abbrev pub CodeAbsent : Text → List Invite → Type 0
CodeAbsent c [] = Unit
CodeAbsent c (i ∷ is) = (i.code ≢ c) × CodeAbsent c is

-- No two invitations have one code: they are drawn at random.
abbrev pub UniqueCodes : List Invite → Type 0
UniqueCodes [] = Unit
UniqueCodes (i ∷ is) = CodeAbsent i.code is × UniqueCodes is

find_invite_absent :
    (c : Text) (now : ℕ) (is : List Invite) → CodeAbsent c is → find_invite c now is ≡ none
unfolding find_invite open_invite
find_invite_absent c now [] h = refl
find_invite_absent c now (i ∷ is) h =
    ground (arith, find_invite_absent c now is, text_eq_iff i.code c)

find_invite-use_invite :
    (c : Text) (now later : ℕ) (is : List Invite) (i : Invite)
    → UniqueCodes is
    → find_invite c now is ≡ some i
    → find_invite c later (use_invite c now is) ≡ none
unfolding find_invite use_invite open_invite
find_invite-use_invite c now later [] i u f = absurd (ground arith)
find_invite-use_invite c now later (j ∷ js) i u f = elim (Bool-cases (text_eq j.code c)) [
  | inl same ↦
      let e : j.code ≡ c = (text_eq_iff j.code c).0 same in
      ground (
        arith,
        find_invite_absent c now js (rw (← e) u.0),
        find_invite_absent c later js (rw (← e) u.0),
      )
  | inr other ↦ ground (arith, find_invite-use_invite c now later js i)
]

module _ (u : Unicode) (b : Bcrypt) where
  -- What a registration that goes through has found and done.
  pub record Registered (e : Env) (email code : Text) (require_invite : Bool) (st st' : Store)
      (x : User) : Type 0 where
    pub hash : Text
    pub account : x ≡ new_user u b e email hash
    pub was_free : get email st.s.users ≡ none
    pub users : st'.s.users ≡ put email x st.s.users
    pub invite :
        require_invite ≡ true
        → (i : Invite) × (find_invite code e.now st.s.invites ≡ some i)
          × (st'.s.invites ≡ use_invite code e.now st.s.invites)

  add_user-s :
      (e : Env) (email hash : Text) (st : Store) (x : User)
      → (add_user u b e email hash st).0 ≡ ok x
      → (x ≡ new_user u b e email hash)
        × ((add_user u b e email hash st).1.s.users
            ≡ put email (new_user u b e email hash) st.s.users)
        × ((add_user u b e email hash st).1.s.invites ≡ st.s.invites)
  unfolding persist save
  add_user-s e email hash st x r = ground arith

  register_hashed-Registered :
      (e : Env) (email code : Text) (require_invite : Bool) (st : Store) (x : User)
      (o : Option Text)
      → (register_hashed u b e email code require_invite st o).0 ≡ ok x
      → (h : Registered e email code require_invite st
          (register_hashed u b e email code require_invite st o).1
          x)
        × (o ≡ some h.hash)
  unfolding register_hashed
  register_hashed-Registered e email code require_invite st x none r = absurd (ground arith)
  register_hashed-Registered e email code false st x (some hash) r =
      elim (Option-cases (get email st.s.users)) [
        | inr (old, g) ↦ absurd (ground arith)
        | inl g ↦
            let (same, users, invites) =
              add_user-s e email hash st x (rw (g, register_hashed) at r) in
            (
              record {
                hash = hash;
                account = same;
                was_free = g;
                users = rw (g, register_hashed) (rw same users);
                invite = λ h. absurd (ground arith);
              },
              refl,
            )
      ]
  register_hashed-Registered e email code true st x (some hash) r =
      elim (Option-cases (get email st.s.users)) [
        | inr (old, g) ↦ absurd (ground arith)
        | inl g ↦ elim (Option-cases (find_invite code e.now st.s.invites)) [
          | inl f ↦ absurd (ground arith)
          | inr (i, f) ↦
              let spent = with_invites st (use_invite code e.now st.s.invites) in
              let (same, users, invites) =
                add_user-s e email hash spent x (rw (g, register_hashed, f) at r) in
              (
                record {
                  hash = hash;
                  account = same;
                  was_free = g;
                  users = rw (g, register_hashed, f) (rw same users);
                  invite = λ h. (i, f, rw (g, register_hashed, f) invites);
                },
                refl,
              )
        ]
      ]

  register_user-Registered :
      (e : Env) (salt email password code : Text) (require_invite : Bool) (st : Store) (x : User)
      → (register_user u b e salt email password code require_invite st).0 ≡ ok x
      → (h : Registered e
          (normalize_email u email)
          code
          require_invite
          st
          (register_user u b e salt email password code require_invite st).1
          x)
        × (b.generate salt password ≡ some h.hash)
  unfolding register_user
  register_user-Registered e salt email password code require_invite st x r =
      elim (Bool-cases
        (is_blank (normalize_email u email) || not (has_at (normalize_email u email)))) [
          | inl bad ↦ absurd (ground arith)
          | inr good ↦ elim (Bool-cases (ltb (length password) 8)) [
            | inl weak ↦ absurd (ground arith)
            | inr strong ↦
                rw (good, strong, register_user)
                  (register_hashed-Registered e (normalize_email u email) code require_invite st x
                    (b.generate salt password) (rw (good, strong, register_user) at r))
          ]
        ]

  users-register_hashed :
      (e : Env) (email code : Text) (require_invite : Bool) (st : Store) (o : Option Text)
      (k : Text) (old : User)
      → get k st.s.users ≡ some old
      → get k (register_hashed u b e email code require_invite st o).1.s.users ≡ some old
  unfolding register_hashed persist save
  users-register_hashed e email code require_invite st none k old g = g
  users-register_hashed e email code false st (some hash) k old g =
      ground (arith, get-put email k (new_user u b e email hash) st.s.users, text_eq_iff email k)
  users-register_hashed e email code true st (some hash) k old g =
      ground (arith, get-put email k (new_user u b e email hash) st.s.users, text_eq_iff email k)

  -- An account that stands keeps its address, its password and its identity, whatever
  -- registration is attempted.
  pub register_user_keeps :
      (e : Env) (salt email password code : Text) (require_invite : Bool) (st : Store) (k : Text)
      (old : User)
      → get k st.s.users ≡ some old
      → get k (register_user u b e salt email password code require_invite st).1.s.users ≡ some old
  unfolding register_user
  register_user_keeps e salt email password code require_invite st k old g = ground (
    arith,
    users-register_hashed e (normalize_email u email) code require_invite st
        (b.generate salt password) k old g,
  )

  -- Whoever has registered can log in: the address in any spelling that normalises to the same
  -- one, with the password, gives the account that the registration returned.
  pub authenticate-register_user :
      (e : Env) (salt email email' password code : Text) (require_invite : Bool) (st : Store)
      (x : User)
      → (register_user u b e salt email password code require_invite st).0 ≡ ok x
      → normalize_email u email' ≡ normalize_email u email
      → authenticate u b email' password
          (register_user u b e salt email password code require_invite st).1
        ≡ ok x
  unfolding authenticate
  authenticate-register_user e salt email email' password code require_invite st x r same =
      let (h, made) = register_user-Registered e salt email password code require_invite st x r in
      let name = normalize_email u email in
      rw (same, h.users, get-put, text_eq_refl name)
        (ground (
          arith,
          h.account,
          b.compare-generate salt password h.hash made,
          b.hash_nonblank salt password h.hash made,
        ))

  -- An invitation opens one account: once it has served, no later registration that requires one
  -- succeeds with its code. (No two invitations have one code.)
  pub invite_single_use :
      (e e' : Env) (salt salt' email email' password password' code : Text) (st : Store)
      (x x' : User)
      → UniqueCodes st.s.invites
      → (register_user u b e salt email password code true st).0 ≡ ok x
      → (register_user u b e' salt' email' password' code true
          (register_user u b e salt email password code true st).1).0
        ≢ ok x'
  invite_single_use e e' salt salt' email email' password password' code st x x' uniq r r' =
      let (h, made) = register_user-Registered e salt email password code true st x r in
      let st' = (register_user u b e salt email password code true st).1 in
      let (h', made') = register_user-Registered e' salt' email' password' code true st' x' r' in
      let (i, f, spent) = h.invite refl in
      let (i', f', spent') = h'.invite refl in
      ground (arith, spent, f', find_invite-use_invite code e.now e'.now st.s.invites i uniq f)
