-- ===== src/Commands/Admin.antt =====
-- cmd/omni-server/main.go: the checks of `serve` before anything listens, and the administrator's
-- commands. Flags are already parsed; the HTTP exchange is an input.
use omniup_vpn.Base.{
  Bool, true, false, not, ◌&&◌, ◌||◌, Option, none, some, List, [], ◌∷◌, ◌++◌, if◌then◌else◌, Text,
  is_blank, codes, text_eq,
}
use omniup_vpn.Base.Strings.{split, join}
use omniup_vpn.Unicode.{Unicode}
use omniup_vpn.Agent.Client.{Exchange, Called, call}

-- The flags of cmdServe that its checks read.
pub record ServeFlags : Type 0 where
  pub registration : Text
  pub tls_cert : Text
  pub tls_key : Text
  pub oidc_emails : Text

abbrev pub same : Bool → Bool → Bool
same true b = b
same false b = not b

-- The two refusals of cmdServe before it opens the store.
unfoldable pub flags_ok : ServeFlags → Bool
flags_ok f =
    (text_eq f.registration (codes "invite") || text_eq f.registration (codes "open"))
    && same (is_blank f.tls_cert) (is_blank f.tls_key)

unfoldable pub open_registration : ServeFlags → Bool
open_registration f = text_eq f.registration (codes "open")

module _ (u : Unicode) where
  -- The loops of cmdServe and cmdRoutes over what stands between commas.
  unfoldable pub trimmed_words : List Text → List Text
  trimmed_words [] = []
  trimmed_words (w ∷ ws) =
      let rest = trimmed_words ws in
      if is_blank (u.trim_space w) then rest else u.trim_space w ∷ rest

  unfoldable pub allowed_emails : ServeFlags → List Text
  allowed_emails f = trimmed_words (split b',' f.oidc_emails)

  -- The routes that cmdRoutes sends for its second argument.
  unfoldable pub routes_argument : Text → List Text
  routes_argument arg = if text_eq arg (codes "none") then [] else trimmed_words (split b',' arg)

-- adminCall; `none` is a missing key, for which nothing is sent.
unfoldable pub admin_call {ℓ} : {A : Type ℓ} → Text → (Text → Exchange A) → Option (Called A)
admin_call key exchange =
    if is_blank key then none else some (call (exchange (codes "Bearer " ++ key)))

-- joinOrDash; the dash is three bytes in UTF-8.
unfoldable pub join_or_dash : List Text → Text
join_or_dash [] = 0xE2 ∷ 0x80 ∷ 0x94 ∷ []
join_or_dash (r ∷ rs) = join (codes ", ") (r ∷ rs)

-- The commands that main knows, and its two other outcomes.
pub data Command : Type 0 where
  serve genkey devices revoke invite routes acl print_version bad_usage : Command

abbrev pub command_of : Text → Command
command_of name =
    if text_eq name (codes "serve")
    then serve
    else if text_eq name (codes "genkey")
    then genkey
    else if text_eq name (codes "devices")
    then devices
    else if text_eq name (codes "revoke")
    then revoke
    else if text_eq name (codes "invite")
    then invite
    else if text_eq name (codes "routes")
    then routes
    else if text_eq name (codes "acl")
    then acl
    else if text_eq name (codes "version")
    then print_version
    else bad_usage

-- main's switch over the arguments behind the program's name.
unfoldable pub dispatch : List Text → Command
dispatch [] = bad_usage
dispatch (name ∷ rest) = command_of name
