-- ===== src/Wgnet/Tests.antt =====
-- What the theorems about the engine's configuration and the routes say of small inputs.
use omniup_vpn.Base.{◌≡◌, refl, true, false, some, [], ◌∷◌, Text, codes, text_eq}
use omniup_vpn.Control.Fleet.{mem_text}
use omniup_vpn.Wgnet.Device.{RouteTable, set_routes, desired_routes}
use omniup_vpn.Wgnet.Device.Stale.{removal_forgotten}

abbrev lan : Text
lan = codes "10.2.0.0/24"

abbrev table : RouteTable
table = record { installed = lan ∷ []; system = lan ∷ [] }

removal_forgotten_example :
    (mem_text lan (set_routes some (λ r. false) (λ r. true) [] table).1.installed ≡ false)
    × (mem_text lan
          (set_routes some
            (λ r. true)
            (λ r. true)
            []
            (set_routes some (λ r. false) (λ r. true) [] table).1).1.system
        ≡ true)
unfolding mem_text text_eq desired_routes
removal_forgotten_example =
    removal_forgotten some (λ r. false) (λ r. true) (λ r. true) (λ r. true) [] [] table lan refl
      refl refl
