-- ===== src/Control/Users.antt =====
-- internal/control/users.go: accounts, invitations and web sessions.
pub mod Accounts
pub mod Sessions
use omniup_vpn.Base.{
  is_blank, ℕ, ◌+◌, ◌≡◌, Bool, true, false, not, ◌||◌, ◌&&◌, Option, none, some, List, [], ◌∷◌,
  ◌++◌, ltb, ◌==◌, if◌then◌else◌, Text, codes, text_eq, text_key, length,
}
use omniup_vpn.Base.Map.{Map, get, put, delete}
use omniup_vpn.Unicode.{Unicode}
use omniup_vpn.Control.State.{
  User, Invite, WebSession, StateFile, Store, Env, Result, ok, err, invalid_invite, email_taken,
  bad_credentials, weak_password, bad_email, hash_failed, persist, random_hex, unexpired, Duration,
  expiry, session_ttl,
}

-- golang.org/x/crypto/bcrypt. A hash is drawn with a salt; generation fails on a password that is
-- too long. A password compares with the hashes that were generated from it.
pub record Bcrypt : Type 0 where
  pub generate : Text → Text → Option Text
  pub compare_hash : Text → Text → Bool
  pub compare-generate :
      (salt password hash : Text)
      → generate salt password ≡ some hash
      → compare_hash hash password ≡ true
  -- a generated hash is not the empty string
  pub hash_nonblank :
      (salt password hash : Text) → generate salt password ≡ some hash → is_blank hash ≡ false

abbrev pub with_users : Store → Map Text User → Store
with_users st m = record st { s = record st.s { users = m } }

abbrev pub with_invites : Store → List Invite → Store
with_invites st is = record st { s = record st.s { invites = is } }

abbrev pub with_sessions : Store → Map Text WebSession → Store
with_sessions st m = record st { s = record st.s { sessions = m } }

-- CreateInvite
unfoldable pub create_invite : Env → Duration → Store → Result Invite × Store
create_invite e ttl st =
    let inv : Invite = record {
      code = codes "ominv-" ++ random_hex e.secret_bytes;
      used = false;
      created_at = e.now;
      expires_at = expiry e.now ttl;
    } in
    persist e.io inv (with_invites st (st.s.invites ++ inv ∷ []))

unfoldable pub open_invite : Text → ℕ → Invite → Bool
open_invite code now inv = text_eq inv.code code && not inv.used && unexpired now inv.expires_at

unfoldable pub find_invite : Text → ℕ → List Invite → Option Invite
find_invite code now [] = none
find_invite code now (i ∷ is) =
    let rest = find_invite code now is in if open_invite code now i then some i else rest

-- `invite.Used = true` through the pointer that the loop has found.
unfoldable pub use_invite : Text → ℕ → List Invite → List Invite
use_invite code now [] = []
use_invite code now (i ∷ is) =
    let rest = i ∷ use_invite code now is in
    if open_invite code now i then record i { used = true } ∷ is else rest

-- strings.Contains(email, "@")
unfoldable pub has_at : Text → Bool
has_at [] = false
has_at (c ∷ cs) = (c == b'@') || has_at cs

module _ (u : Unicode) where
  unfoldable pub normalize_email : Text → Text
  normalize_email email = u.to_lower (u.trim_space email)

  module _ (b : Bcrypt) where
    abbrev pub new_user : Env → Text → Text → User
    new_user e email hash = record {
      id = random_hex e.id_bytes;
      email = email;
      password_hash = hash;
      created_at = e.now;
    }

    abbrev pub add_user : Env → Text → Text → Store → Result User × Store
    add_user e email hash st =
        persist e.io (new_user e email hash)
          (with_users st (put email (new_user e email hash) st.s.users))

    abbrev pub invited : Env → Text → Text → Text → Store → Option Invite → Result User × Store
    invited e email hash code st none = (err invalid_invite, st)
    invited e email hash code st (some i) =
        add_user e email hash (with_invites st (use_invite code e.now st.s.invites))

    abbrev pub admitted : Env → Text → Text → Text → Bool → Store → Result User × Store
    admitted e email hash code false st = add_user e email hash st
    admitted e email hash code true st =
        invited e email hash code st (find_invite code e.now st.s.invites)

    -- RegisterUser behind the checks of the address and the password, with the hash.
    unfoldable pub register_hashed :
        Env → Text → Text → Bool → Store → Option Text → Result User × Store
    register_hashed e email code require_invite st none = (err hash_failed, st)
    register_hashed e email code require_invite st (some hash) = elim (get email st.s.users) [
      | some old ↦ (err email_taken, st)
      | none ↦ admitted e email hash code require_invite st
    ]

    -- RegisterUser
    unfoldable pub register_user :
        Env → Text → Text → Text → Text → Bool → Store → Result User × Store
    register_user e salt email password code require_invite st =
        if is_blank (normalize_email email) || not (has_at (normalize_email email))
        then (err bad_email, st)
        else if ltb (length password) 8
        then (err weak_password, st)
        else register_hashed e (normalize_email email) code require_invite st
            (b.generate salt password)

    abbrev pub dummy_hash : Text
    dummy_hash = codes "$2a$10$0000000000000000000000000000000000000000000000000000"

    abbrev pub hash_of : Option User → Text
    hash_of none = []
    hash_of (some x) = x.password_hash

    abbrev pub or_dummy : Text → Text
    or_dummy hash = if is_blank hash then dummy_hash else hash

    abbrev pub granted : Bool → Option User → Result User
    granted matches none = err bad_credentials
    granted matches (some x) = if matches then ok x else err bad_credentials

    -- Authenticate: the comparison is made also where there is no account.
    unfoldable pub authenticate : Text → Text → Store → Result User
    authenticate email password st =
        let found = get (normalize_email email) st.s.users in
        granted (b.compare_hash (or_dummy (hash_of found)) password) found

-- The purge of CreateSession: `time.Now().After(sess.Expires)`.
unfoldable pub purge : ℕ → Map Text WebSession → Map Text WebSession
purge now [] = []
purge now ((tok, sess) ∷ m) =
    let rest = purge now m in if ltb sess.expires now then rest else (tok, sess) ∷ rest

abbrev pub session_token : Env → Text
session_token e = codes "omsess-" ++ random_hex e.secret_bytes

-- CreateSession
unfoldable pub create_session : Env → Text → Store → Result Text × Store
create_session e user_id st = persist e.io (session_token e) (
    with_sessions st (
      put (session_token e) (record { user_id = user_id; expires = e.now + session_ttl })
        (purge e.now st.s.sessions)))

unfoldable pub find_user : Text → Map Text User → Option User
find_user id [] = none
find_user id ((k, x) ∷ m) = let rest = find_user id m in if text_eq x.id id then some x else rest

abbrev pub user_of : ℕ → Store → Option WebSession → Option User
user_of now st none = none
user_of now st (some sess) =
    if ltb sess.expires now then none else find_user sess.user_id st.s.users

-- SessionUser
unfoldable pub session_user : ℕ → Text → Store → Option User
session_user now token st =
    if is_blank token then none else user_of now st (get token st.s.sessions)

-- DeleteSession: the outcome of the save is ignored.
unfoldable pub delete_session : Env → Text → Store → Store
delete_session e token st = (persist {0} e.io tt (with_sessions st (delete token st.s.sessions))).1
