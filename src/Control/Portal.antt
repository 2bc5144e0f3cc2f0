-- ===== src/Control/Portal.antt =====
-- internal/control/users_http.go: the users' portal. A session cookie is its token, or none; what
-- isHTTPS says of a request, for the Secure flag, is an input.
pub mod Sessions
pub mod Machines
use omniup_vpn.Base.{
  ℕ, ◌*◌, Bool, true, false, not, Option, none, some, List, [], ◌∷◌, if◌then◌else◌, Text, codes,
  text_eq, map,
}
use omniup_vpn.Unicode.{Unicode}
use omniup_vpn.Control.State.{
  Device, User, Invite, Store, Env, Result, ok, err, email_taken, pos, negsuc, hour,
}
use omniup_vpn.Control.Devices.{create_auth_key_for}
use omniup_vpn.Control.Fleet.{devices, remove_owned_device}
use omniup_vpn.Control.Users.{
  Bcrypt, create_invite, register_user, authenticate, create_session, session_user, delete_session,
}
use omniup_vpn.Control.Api.{Peer, Reply, reply, failure, peer_view, mask_key}
use omniup_vpn.Control.Admin.{
  AuthKeyResponse, Ttl, left_out, no_duration, duration, key_made, revoked,
}

-- types.UserRegisterRequest, UserLoginRequest, UserProfile, InviteResponse and InviteInfo
pub record UserRegisterRequest : Type 0 where
  pub email : Text
  pub password : Text
  pub invite : Text

pub record UserLoginRequest : Type 0 where
  pub email : Text
  pub password : Text

pub record UserProfile : Type 0 where
  pub email : Text
  pub machines : List Peer

pub record InviteResponse : Type 0 where
  pub code : Text
  pub expires_at : ℕ

pub record InviteInfo : Type 0 where
  pub code_masked : Text
  pub used : Bool
  pub created_at : ℕ
  pub expires_at : ℕ

-- The answer that opens a session: the cookie with the token, and the user's address.
pub record OpenedSession : Type 0 where
  pub token : Text
  pub secure : Bool
  pub email : Text

-- handleUserConfig
unfoldable pub handle_user_config : Bool → Text
handle_user_config open_registration = if open_registration then codes "open" else codes "invite"

abbrev pub session_made : Bool → User → Result Text × Store → Reply OpenedSession × Store
session_made https x (ok tok, st) =
    (reply (record { token = tok; secure = https; email = x.email }), st)
session_made https x (err y, st) = (failure 500, st)

-- openSession
unfoldable pub open_session : Env → Bool → User → Store → Reply OpenedSession × Store
open_session e https x st = session_made https x (create_session e x.id st)

abbrev pub account_made : Env → Bool → Result User × Store → Reply OpenedSession × Store
account_made e https (ok x, st) = open_session e https x st
account_made e https (err email_taken, st) = (failure 409, st)
account_made e https (err y, st) = (failure 400, st)

abbrev pub let_in : Env → Bool → Store → Result User → Reply OpenedSession × Store
let_in e https st (ok x) = open_session e https x st
let_in e https st (err y) = (failure 401, st)

module _ (u : Unicode) (b : Bcrypt) where
  -- handleUserRegister: an account is made in `e`, and its session is opened in `e'`.
  unfoldable pub handle_user_register :
      Bool
      → Env
      → Env
      → Text
      → Bool
      → Option UserRegisterRequest
      → Store
      → Reply OpenedSession × Store
  handle_user_register open_registration e e' salt https none st = (failure 400, st)
  handle_user_register open_registration e e' salt https (some r) st =
      account_made e' https
        (register_user u b e salt r.email r.password r.invite (not open_registration) st)

  -- handleUserLogin
  unfoldable pub handle_user_login :
      Env → Bool → Option UserLoginRequest → Store → Reply OpenedSession × Store
  handle_user_login e https none st = (failure 400, st)
  handle_user_login e https (some r) st = let_in e https st (authenticate u b r.email r.password st)

-- handleUserLogout: the cookie is cleared, with or without a session.
unfoldable pub handle_user_logout : Env → Option Text → Store → Store
handle_user_logout e none st = st
handle_user_logout e (some token) st = delete_session e token st

-- requireUser: the user that the request is made for.
unfoldable pub require_user : ℕ → Option Text → Store → Option User
require_user now none st = none
require_user now (some token) st = session_user now token st

unfoldable pub owned_by : ℕ → Text → List Device → List Peer
owned_by now email [] = []
owned_by now email (d ∷ ds) =
    let rest = owned_by now email ds in
    if text_eq d.owner email then peer_view now d ∷ rest else rest

-- handleUserMe
unfoldable pub handle_user_me : ℕ → User → Store → UserProfile
handle_user_me now x st = record { email = x.email; machines = owned_by now x.email (devices st) }

-- handleUserAuthKey
unfoldable pub handle_user_auth_key : Env → Text → User → Store → Reply AuthKeyResponse × Store
handle_user_auth_key e reusable x st =
    key_made (create_auth_key_for e x.email (text_eq reusable (codes "true")) (pos (24 * hour)) st)

-- handleUserRevoke
unfoldable pub handle_user_revoke : Env → ℕ → Text → User → Store → Reply Peer × Store
handle_user_revoke e now target x st = revoked now (remove_owned_device e x.email target st)

abbrev pub invite_made : Result Invite × Store → Reply InviteResponse × Store
invite_made (ok i, st) = (reply (record { code = i.code; expires_at = i.expires_at }), st)
invite_made (err y, st) = (failure 500, st)

-- handleCreateInvite
unfoldable pub handle_create_invite : Env → Ttl → Store → Reply InviteResponse × Store
handle_create_invite e left_out st = invite_made (create_invite e (pos (7 * 24 * hour)) st)
handle_create_invite e no_duration st = (failure 400, st)
handle_create_invite e (duration (negsuc n)) st = (failure 400, st)
handle_create_invite e (duration (pos n)) st = invite_made (create_invite e (pos n) st)

abbrev pub invite_info : Invite → InviteInfo
invite_info i = record {
  code_masked = mask_key i.code;
  used = i.used;
  created_at = i.created_at;
  expires_at = i.expires_at;
}

-- handleListInvites
unfoldable pub handle_list_invites : Store → List InviteInfo
handle_list_invites st = map invite_info st.s.invites
