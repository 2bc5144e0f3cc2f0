-- ===== src/Agent/Forward.antt =====
-- internal/agent/forward_linux.go: enableForwarding. iptables is a parameter: a command and its
-- effect on the rules of the system.
use omniup_vpn.Base.{ℕ, suc, ◌≡◌, Bool, true, false, List, [], ◌∷◌, Text, codes, if◌then◌else◌}

-- A rule appended to a chain of a table is there once more; the chain POSTROUTING is not one of the
-- table filter, which is meant where no table is named, so that no check finds a rule in it.
pub record Iptables {ℓ} (S : Type ℓ) : Type ℓ where
  pub run : List Text → S → Bool × S
  pub copies : List Text → S → ℕ
  pub append_nat :
      (rule : List Text) (s : S)
      → ((run (codes "-t" ∷ codes "nat" ∷ codes "-A" ∷ codes "POSTROUTING" ∷ rule) s).0 ≡ true)
        × (copies rule
              (run (codes "-t" ∷ codes "nat" ∷ codes "-A" ∷ codes "POSTROUTING" ∷ rule) s).1
            ≡ suc (copies rule s))
  pub check_filter :
      (rule : List Text) (s : S) → run (codes "-C" ∷ codes "POSTROUTING" ∷ rule) s ≡ (false, s)

-- `rule[2:]`
abbrev pub masquerade : Text → Text → List Text
masquerade iface overlay =
    codes "-s" ∷ overlay ∷ codes "!" ∷ codes "-o" ∷ iface ∷ codes "-j" ∷ codes "MASQUERADE" ∷ []

module _ {ℓ} {S : Type ℓ} (ip : Iptables S) where
  abbrev pub unless_there : List Text → Bool × S → Bool × S
  unless_there rule (true, s) = (true, s)
  unless_there rule (false, s) =
      ip.run (codes "-t" ∷ codes "nat" ∷ codes "-A" ∷ codes "POSTROUTING" ∷ rule) s

  -- enableForwarding; `forwards` tells whether ip_forward could be written.
  unfoldable pub enable_forwarding : Bool → Text → Text → S → Bool × S
  enable_forwarding forwards iface overlay s =
      if forwards
      then unless_there (masquerade iface overlay)
          (ip.run (codes "-C" ∷ codes "POSTROUTING" ∷ masquerade iface overlay) s)
      else (false, s)

  -- Every start of an agent that routes appends the masquerade rule once more, also where it is there
  -- already.
  pub rule_repeated :
      (iface overlay : Text) (s : S)
      → ((enable_forwarding true iface overlay s).0 ≡ true)
        × (ip.copies (masquerade iface overlay) (enable_forwarding true iface overlay s).1
            ≡ suc (ip.copies (masquerade iface overlay) s))
  unfolding enable_forwarding
  rule_repeated iface overlay s =
      rw (ip.check_filter (masquerade iface overlay) s) (ip.append_nat (masquerade iface overlay) s)
