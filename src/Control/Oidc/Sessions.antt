-- ===== src/Control/Oidc/Sessions.antt =====
-- internal/control/oidc.go: the pending enrolments, a map of sessions, and the handlers of the agent
-- and of the redirect, each a function of the sessions, of the instant and of the decoded request. A
-- session's identifier is drawn at random and is taken never to be drawn again.
use omniup_vpn.Base.{
  ℕ, ◌+◌, ◌*◌, Bool, false, not, ◌||◌, ◌&&◌, Option, none, some, List, [], ◌∷◌, ◌++◌, ltb,
  if◌then◌else◌, Text, codes, text_key, is_blank,
}
use omniup_vpn.Base.Map.{Map, get, put}
use omniup_vpn.Base.Strings.{trim_right}
use omniup_vpn.Control.State.{random_hex, second}
use omniup_vpn.Control.Api.{Reply, reply, failure}
use omniup_vpn.Control.Admin.{RegisterResponse, hostname_or_default}

abbrev pub enroll_ttl : ℕ
enroll_ttl = 15 * (60 * second)

pub record OidcConfig : Type 0 where
  pub issuer : Text
  pub client_id : Text
  pub client_secret : Text
  pub public_url : Text
  pub allowed_domain : Text
  pub allowed_emails : List Text

-- The texts that a failed callback leaves behind.
pub data Refusal : Type 0 where
  exchange_failed no_id_token bad_id_token no_email unverified_email not_allowed : Refusal
  enrol_failed : Refusal

pub record EnrollSession : Type 0 where
  pub hostname : Text
  pub public_key : Text
  pub created_at : ℕ
  pub approved : Bool
  pub result : Option RegisterResponse
  pub owner : Text
  pub failure : Option Refusal

-- oidcProvider, without the provider's own client.
pub record OidcProvider : Type 0 where
  pub cfg : OidcConfig
  pub sessions : Map Text EnrollSession

abbrev pub with_enrolments : OidcProvider → Map Text EnrollSession → OidcProvider
with_enrolments p m = record p { sessions = m }

abbrev pub incomplete : OidcConfig → Bool
incomplete c =
    is_blank c.issuer
    || (is_blank c.client_id || (is_blank c.client_secret || is_blank c.public_url))

-- EnableOIDC; `discovered` tells whether the provider was found.
unfoldable pub enable_oidc : Bool → OidcConfig → Option OidcProvider
enable_oidc discovered c =
    if incomplete c
    then none
    else if discovered
    then some
        (record { cfg = record c { public_url = trim_right b'/' c.public_url }; sessions = [] })
    else none

-- `time.Since(sess.createdAt) > enrollTTL`
abbrev pub is_expired : ℕ → EnrollSession → Bool
is_expired now s = ltb (s.created_at + enroll_ttl) now

-- pruneLocked
unfoldable pub prune : ℕ → Map Text EnrollSession → Map Text EnrollSession
prune now [] = []
prune now ((id, s) ∷ m) =
    let rest = prune now m in if is_expired now s then rest else (id, s) ∷ rest

-- types.EnrollStartRequest and types.EnrollStartResponse
pub record EnrollStartRequest : Type 0 where
  pub hostname : Text
  pub public_key : Text

pub record EnrollStartResponse : Type 0 where
  pub session_id : Text
  pub auth_url : Text

abbrev pub new_session : ℕ → EnrollStartRequest → EnrollSession
new_session now r = record {
  hostname = hostname_or_default r.hostname;
  public_key = r.public_key;
  created_at = now;
  approved = false;
  result = none;
  owner = [];
  failure = none;
}

unfoldable pub open_enrolment : ℕ → Text → EnrollStartRequest → OidcProvider → OidcProvider
open_enrolment now id r p = with_enrolments p (put id (new_session now r) (prune now p.sessions))

-- handleEnrollStart; `is_key` tells whether wgtypes.ParseKey accepts the public key.
unfoldable pub handle_enroll_start :
    (Text → Bool)
    → ℕ
    → Text
    → Option EnrollStartRequest
    → Option OidcProvider
    → Reply EnrollStartResponse × Option OidcProvider
handle_enroll_start is_key now bytes r none = (failure 501, none)
handle_enroll_start is_key now bytes none (some p) = (failure 400, some p)
handle_enroll_start is_key now bytes (some r) (some p) =
    if not (is_key r.public_key) then (failure 400, some p) else (
      reply (record {
        session_id = random_hex bytes;
        auth_url = p.cfg.public_url ++ (codes "/enroll/" ++ random_hex bytes);
      }),
      some (open_enrolment now (random_hex bytes) r p),
    )

-- What the agent that waits is told: to go on waiting, or its registration.
pub data Waited : Type 0 where
  pending : Waited
  enrolled : Option RegisterResponse → Waited

abbrev pub wait_status : EnrollSession → Option Refusal → Reply Waited
wait_status s (some r) = failure 403
wait_status s none = if s.approved then reply (enrolled s.result) else reply pending

unfoldable pub waited : ℕ → Option EnrollSession → Reply Waited
waited now none = failure 404
waited now (some s) = if is_expired now s then failure 404 else wait_status s s.failure

-- handleEnrollWait
unfoldable pub handle_enroll_wait : ℕ → Text → Option OidcProvider → Reply Waited
handle_enroll_wait now id none = failure 501
handle_enroll_wait now id (some p) = waited now (get id p.sessions)

abbrev pub if_valid : ℕ → Option EnrollSession → Option EnrollSession
if_valid now none = none
if_valid now (some s) = if not (is_expired now s) && not s.approved then some s else none

-- The test that the redirect and the callback share: the session, when it is valid.
unfoldable pub valid_session : ℕ → Text → OidcProvider → Option EnrollSession
valid_session now id p = if_valid now (get id p.sessions)

abbrev pub redirect_to : (Text → Text) → Text → Option EnrollSession → Reply Text
redirect_to auth_code_url id none = failure 404
redirect_to auth_code_url id (some s) = reply (auth_code_url id)

-- handleEnrollRedirect; `auth_code_url` is oauth2's AuthCodeURL.
unfoldable pub handle_enroll_redirect : (Text → Text) → ℕ → Text → Option OidcProvider → Reply Text
handle_enroll_redirect auth_code_url now id none = failure 404
handle_enroll_redirect auth_code_url now id (some p) =
    redirect_to auth_code_url id (valid_session now id p)
