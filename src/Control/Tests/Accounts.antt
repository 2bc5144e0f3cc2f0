-- ===== src/Control/Tests/Accounts.antt =====
-- Two registrations with one invitation, and the sessions of an account.
use omniup_vpn.Control.Portal.{open_session}
use omniup_vpn.Base.Map.{put}
use omniup_vpn.Control.State.{save}
use omniup_vpn.Control.State.{persist}
use omniup_vpn.Control.Users.{open_invite}
use omniup_vpn.Control.Users.{find_invite}
use omniup_vpn.Control.Users.{register_hashed}
use omniup_vpn.Control.Users.{has_at}
use omniup_vpn.Base.{
  ◌≡◌, ◌≢◌, ◌+◌, refl, true, false, none, some, [], ◌∷◌, Text, codes, text_key, text_eq, ltb,
  if◌then◌else◌,
}
use omniup_vpn.Base.Map.{get}
use omniup_vpn.Control.State.{User, Store, ok, session_ttl, random_hex}
use omniup_vpn.Control.Users.{
  register_user, authenticate, new_user, session_token, create_session, find_user, normalize_email,
}
use omniup_vpn.Control.Users.Accounts.{authenticate-register_user, invite_single_use}
use omniup_vpn.Control.Portal.{
  UserLoginRequest, OpenedSession, handle_user_login, handle_user_logout, require_user,
}
use omniup_vpn.Control.Portal.Sessions.{login_session}
use omniup_vpn.Control.Demo.{works, full, at, store, plain, hashes}

abbrev invited : Store
invited = record store {
  s = record store.s {
    invites = record { code = codes "omjoin-1"; used = false; created_at = 1; expires_at = 0 } ∷ [];
  };
}

abbrev email : Text
email = codes "a@b.c"

abbrev password : Text
password = codes "password"

abbrev account : User
account = new_user plain hashes (at 1 works) email (1 ∷ password)

abbrev registered : Store
registered =
    (register_user plain hashes (at 1 works) [] email password (codes "omjoin-1") true invited).1

authenticate-register_user_example :
    authenticate plain hashes email password registered ≡ ok account
unfolding register_user normalize_email has_at register_hashed get find_invite open_invite text_eq
    persist save
authenticate-register_user_example =
    authenticate-register_user plain hashes (at 1 works) [] email email password (codes "omjoin-1")
      true invited account refl refl

invite_single_use_example :
    (register_user plain hashes
      (at 2 works)
      []
      (codes "d@e.f")
      password
      (codes "omjoin-1")
      true
      registered).0
    ≢ ok account
unfolding register_user normalize_email has_at register_hashed get find_invite open_invite text_eq
    persist save
invite_single_use_example =
    invite_single_use plain hashes (at 1 works) (at 2 works) [] [] email (codes "d@e.f") password
      password (codes "omjoin-1") invited account account (tt, tt) refl

abbrev open_one : Store
open_one = (create_session (at 1 works) account.id registered).1

abbrev login : UserLoginRequest
login = record { email = email; password = password }

abbrev session : OpenedSession
session = record { token = session_token (at 4 works); secure = true; email = email }

login_session_example :
    (x : User) × (authenticate plain hashes login.email login.password registered ≡ ok x)
    × (session.email ≡ x.email)
    × (require_user 5
          (some session.token)
          (handle_user_login plain hashes (at 4 works) true (some login) registered).1
        ≡ (if ltb (4 + session_ttl) 5 then none else find_user x.id registered.s.users))
    × (require_user 5 (some session.token) (
          handle_user_logout
            (at 5 full)
            (some session.token)
            (handle_user_login plain hashes (at 4 works) true (some login) registered).1)
        ≡ none)
unfolding authenticate register_user find_user handle_user_login get normalize_email has_at
    register_hashed find_invite open_invite text_eq persist save put random_hex open_session
    create_session
login_session_example =
    login_session plain hashes (at 4 works) true login registered (at 5 full) session 5 refl
