-- ===== src/Control/Oidc/Callback.antt =====
-- internal/control/oidc.go: what the callback does behind its first lock, the callback as a whole,
-- and its page.
use omniup_vpn.Base.{
  ℕ, true, Option, none, some, [], ◌∷◌, ◌++◌, if◌then◌else◌, Text, codes, text_key, ◌==◌,
}
use omniup_vpn.Base.Map.{modify}
use omniup_vpn.NetText.{NetText}
use omniup_vpn.Unicode.{Unicode}
use omniup_vpn.Control.State.{Device, Store, Env, Result, ok, err}
use omniup_vpn.Control.Devices.{register_device_sso}
use omniup_vpn.Control.Api.{Reply, reply, failure}
use omniup_vpn.Control.Admin.{RegisterResponse}
use omniup_vpn.Control.Oidc.Sessions.{
  Refusal, EnrollSession, OidcProvider, with_enrolments, valid_session, enrol_failed,
}
use omniup_vpn.Control.Oidc.Identity.{Identity, Judged, judge, refusal_status, refused, accepted}

-- The closure `fail`.
abbrev pub set_failure : Refusal → EnrollSession → EnrollSession
set_failure r s = record s { failure = some r }

-- The last lock of the callback.
abbrev pub response : Device → Text → RegisterResponse
response d cidr = record { device_id = d.id; device_token = d.token; ip = d.ip; cidr = cidr }

abbrev pub approve : Text → Device → Text → EnrollSession → EnrollSession
approve owner d cidr s = record s {
  approved = true;
  owner = owner;
  result = some (response d cidr);
}

unfoldable pub escape_byte : ℕ → Text
escape_byte c =
    if c == b'&'
    then codes "&amp;"
    else if c == b'<'
    then codes "&lt;"
    else if c == b'>'
    then codes "&gt;"
    else if c == 34
    then codes "&quot;"
    else c ∷ []

-- htmlEscape
unfoldable pub html_escape : Text → Text
html_escape [] = []
html_escape (c ∷ cs) = escape_byte c ++ html_escape cs

-- What the page of a successful callback shows.
pub record Welcome : Type 0 where
  pub hostname : Text
  pub ip : Text
  pub owner : Text

abbrev pub failed : Text → Refusal → OidcProvider × Store → Reply Welcome × (OidcProvider × Store)
failed id r (p, st) =
    (failure (refusal_status r), (with_enrolments p (modify id (set_failure r) p.sessions), st))

abbrev pub settled :
    Text
    → EnrollSession
    → Text
    → OidcProvider
    → Result Device × Store
    → Reply Welcome × (OidcProvider × Store)
settled id s email p (err x, st) = failed id enrol_failed (p, st)
settled id s email p (ok d, st) = (
  reply (record { hostname = html_escape s.hostname; ip = d.ip; owner = html_escape email }),
  (with_enrolments p (modify id (approve email d st.s.cidr) p.sessions), st),
)

abbrev pub decided :
    NetText
    → Env
    → Text
    → EnrollSession
    → OidcProvider × Store
    → Judged
    → Reply Welcome × (OidcProvider × Store)
decided t e id s w (refused r) = failed id r w
decided t e id s (p, st) (accepted email) =
    settled id s email p (register_device_sso t e s.hostname s.public_key email st)

-- The callback behind its first lock, with the session that it found.
unfoldable pub finish_callback :
    NetText
    → Unicode
    → Env
    → Text
    → Identity
    → EnrollSession
    → OidcProvider × Store
    → Reply Welcome × (OidcProvider × Store)
finish_callback t u e id who s (p, st) = decided t e id s (p, st) (judge u p.cfg who)

abbrev pub callback_on :
    NetText
    → Unicode
    → Env
    → Text
    → Identity
    → OidcProvider
    → Store
    → Option EnrollSession
    → Reply Welcome × (Option OidcProvider × Store)
callback_on t u e id who p st none = (failure 404, (some p, st))
callback_on t u e id who p st (some s) =
    let (answer, (p', st')) = finish_callback t u e id who s (p, st) in (answer, (some p', st'))

-- handleOIDCCallback, when no other request comes between its locks.
unfoldable pub handle_oidc_callback :
    NetText
    → Unicode
    → Env
    → Text
    → Identity
    → Option OidcProvider
    → Store
    → Reply Welcome × (Option OidcProvider × Store)
handle_oidc_callback t u e id who none st = (failure 404, (none, st))
handle_oidc_callback t u e id who (some p) st =
    callback_on t u e id who p st (valid_session e.now id p)
