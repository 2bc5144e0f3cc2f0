-- ===== src/Control/Oidc/Page.antt =====
-- internal/control/oidc.go: htmlEscape, under which the names that a machine and a provider give
-- stand in the page of the callback.
use omniup_vpn.Base.{ℕ, ◌≢◌, [], ◌∷◌, ◌++◌, arith, Text}
use omniup_vpn.Control.Oidc.Callback.{html_escape, escape_byte}

-- A byte that opens or closes no tag and ends no quoted attribute.
abbrev pub IsInert : ℕ → Type 0
IsInert c = (c ≢ b'<') × (c ≢ b'>') × (c ≢ 34)

abbrev pub AllInert : Text → Type 0
AllInert [] = Unit
AllInert (c ∷ cs) = IsInert c × AllInert cs

inert_append : (xs ys : Text) → AllInert xs → AllInert ys → AllInert (xs ++ ys)
inert_append [] ys hx hy = hy
inert_append (x ∷ xs) ys hx hy = (hx.0, inert_append xs ys hx.1 hy)

escape_byte-AllInert : (c : ℕ) → AllInert (escape_byte c)
unfolding escape_byte
escape_byte-AllInert c = ground arith

-- Whatever name a machine or an identity has, no byte of what the page shows for it opens or closes
-- a tag or ends a quoted attribute.
pub html_escape-AllInert : (s : Text) → AllInert (html_escape s)
unfolding html_escape
html_escape-AllInert [] = tt
html_escape-AllInert (c ∷ cs) =
    inert_append (escape_byte c) (html_escape cs) (escape_byte-AllInert c) (html_escape-AllInert cs)
