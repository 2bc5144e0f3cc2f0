-- ===== src/Control/Oidc/Identity.antt =====
-- internal/control/oidc.go: which identities the callback accepts.
use omniup_vpn.Base.{
  ℕ, Bool, true, false, not, ◌||◌, Option, none, some, List, [], ◌∷◌, if◌then◌else◌, Text, text_eq,
  text_key, is_blank,
}
use omniup_vpn.Base.Strings.{has_suffix}
use omniup_vpn.Unicode.{Unicode}
use omniup_vpn.Control.Oidc.Sessions.{
  OidcConfig, Refusal, exchange_failed, no_id_token, bad_id_token, no_email, unverified_email,
  not_allowed, enrol_failed,
}

-- What the provider answers for a code: no exchange, no identity token, one that does not verify,
-- one whose claims do not decode, or the address and whether it is verified.
pub data Identity : Type 0 where
  not_exchanged without_token invalid_token without_claims : Identity
  claims : Text → Option Bool → Identity

-- emailAllowed
unfoldable pub listed : Unicode → Text → List Text → Bool
listed u email [] = false
listed u email (e ∷ es) = text_eq (u.to_lower (u.trim_space e)) email || listed u email es

abbrev pub domain_allowed : Unicode → Text → Text → Bool
domain_allowed u email domain =
    if is_blank domain then true else has_suffix email (b'@' ∷ u.to_lower domain)

abbrev pub among : Unicode → OidcConfig → Text → List Text → Bool
among u c email [] = domain_allowed u email c.allowed_domain
among u c email (e ∷ es) = listed u email (e ∷ es)

unfoldable pub email_allowed : Unicode → OidcConfig → Text → Bool
email_allowed u c email = among u c (u.to_lower email) c.allowed_emails

pub data Judged : Type 0 where
  refused : Refusal → Judged
  accepted : Text → Judged

abbrev pub is_unverified : Option Bool → Bool
is_unverified none = false
is_unverified (some v) = not v

-- The part of handleOIDCCallback between its two locks, before the enrolment.
unfoldable pub judge : Unicode → OidcConfig → Identity → Judged
judge u c not_exchanged = refused exchange_failed
judge u c without_token = refused no_id_token
judge u c invalid_token = refused bad_id_token
judge u c without_claims = refused no_email
judge u c (claims email verified) =
    if is_blank email
    then refused no_email
    else if is_unverified verified
    then refused unverified_email
    else if email_allowed u c email
    then accepted email
    else refused not_allowed

abbrev pub refusal_status : Refusal → ℕ
refusal_status exchange_failed = 502
refusal_status no_id_token = 502
refusal_status bad_id_token = 403
refusal_status no_email = 403
refusal_status unverified_email = 403
refusal_status not_allowed = 403
refusal_status enrol_failed = 500
