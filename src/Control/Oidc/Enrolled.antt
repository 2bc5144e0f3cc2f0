-- ===== src/Control/Oidc/Enrolled.antt =====
-- What the agent that waits can be given, however the requests interleave.
use omniup_vpn.Base.{◌≡◌, ◌≢◌, ◌⊎◌, Bool, false, Option, some, List, [], ◌∷◌, ◌++◌, Text, text_key}
use omniup_vpn.NetText.{NetText}
use omniup_vpn.Unicode.{Unicode}
use omniup_vpn.Control.Oidc.Sessions.{OidcConfig}
use omniup_vpn.Control.Oidc.Identity.{Identity, claims}
use omniup_vpn.Control.Oidc.Vouched.{Vouched}

-- The address, in lower case, is that of an entry of the list, trimmed and in lower case.
abbrev pub IsListed : Unicode → Text → List Text → Type 0
IsListed u lower [] = ⊥
IsListed u lower (e ∷ es) = (u.to_lower (u.trim_space e) ≡ lower) ⊎ IsListed u lower es

-- The configuration admits an address: it is listed, or nothing is listed and the address is one of
-- the allowed domain, if there is one.
abbrev pub IsAdmitted : Unicode → OidcConfig → Text → Type 0
IsAdmitted u c email =
    IsListed u (u.to_lower email) c.allowed_emails
    ⊎ ((c.allowed_emails ≡ [])
        × ((c.allowed_domain ≡ [])
            ⊎ ((name : Text) × (u.to_lower email ≡ name ++ b'@' ∷ u.to_lower c.allowed_domain))))

-- The provider gave an address, said no word against it, and the configuration admits it.
abbrev pub GaveAddress : Unicode → OidcConfig → Identity → Text → Type 0
GaveAddress u c who email =
    (verified : Option Bool) × (who ≡ claims email verified)
    × (verified ≢ some false)
    × (email ≢ [])
    × IsAdmitted u c email
