-- ===== src/Control/Tests/Peers.antt =====
-- The maps that two machines get, and the routes of one of them.
use omniup_vpn.Control.Acl.{clone}
use omniup_vpn.Control.Acl.{visible}
use omniup_vpn.Base.Bytes.{be_bytes}
use omniup_vpn.Control.Fleet.{text_lt}
use omniup_vpn.Control.Fleet.{insert_by_ip}
use omniup_vpn.Control.Fleet.{sorted_by_ip}
use omniup_vpn.Control.Fleet.{devices}
use omniup_vpn.Control.Api.{peers_of}
use omniup_vpn.Control.Admin.Known.{peers_disclose}
use omniup_vpn.Control.Admin.{handle_register}
use omniup_vpn.Control.State.{Device}
use omniup_vpn.Control.Api.{peer_view}
use omniup_vpn.Base.{inl}
use omniup_vpn.Control.Demo.{net_text, works}
use omniup_vpn.Base.{ℕ, ◌≡◌, ◌↔◌, refl, ◌⊎◌, true, none, some, [], ◌∷◌, codes, text_key, text_eq}
use omniup_vpn.Base.Map.{get}
use omniup_vpn.Control.State.{AclPolicy, Store}
use omniup_vpn.Control.Acl.{allows}
use omniup_vpn.Control.Acl.Meaning.{AnyRule, allows_iff}
use omniup_vpn.Control.Api.{net_map}
use omniup_vpn.Control.Api.Poll.{has_peer, AnyEntry, IsPeer, net_map_peers, net_map_symm}
use omniup_vpn.Control.Acl.{validate}
use omniup_vpn.Control.Api.{reply, failure}
use omniup_vpn.Control.Admin.{handle_set_acl, handle_get_acl}
use omniup_vpn.Control.Admin.Policy.{AllComplete, AnyIncomplete, handle_set_acl_lem}
use omniup_vpn.Control.State.{User}
use omniup_vpn.Control.Demo.{owner, laptop, desk, two, at, full}

-- Only the laptop may open connections.
abbrev policy : AclPolicy
policy = record { rules = record { src = codes "laptop" ∷ []; dst = codes "*" ∷ [] } ∷ [] }

abbrev ruled : Store
ruled = record two { s = record two.s { acl = some policy } }

net_map_symm_example :
    has_peer desk.public_key (net_map 5 [] laptop ruled).peers
    ≡ has_peer laptop.public_key (net_map 6 [] desk ruled).peers
unfolding get text_eq
net_map_symm_example =
    net_map_symm ruled (refl, (refl, tt)) (refl, (refl, tt)) 5 6 [] [] laptop desk refl refl

net_map_peers_example :
    (has_peer laptop.public_key (net_map 5 [] desk ruled).peers ≡ true)
    ↔ AnyEntry (IsPeer ruled.s.acl desk laptop.public_key) ruled.s.devices
net_map_peers_example = net_map_peers 5 [] desk ruled laptop.public_key

allows_iff_example :
    (allows (some policy) laptop desk ≡ true)
    ↔ ((policy.rules ≡ []) ⊎ AnyRule policy.rules laptop desk)
allows_iff_example = allows_iff policy laptop desk

handle_set_acl_lem_example :
    ((validate policy ≡ none)
      × AllComplete policy.rules
      × ((handle_set_acl (at 9 full) (some policy) two).0 ≡ reply policy)
      × (handle_get_acl (handle_set_acl (at 9 full) (some policy) two).1 ≡ policy)
      × ((handle_set_acl (at 9 full) (some policy) two).1.disk.file
          ≡ some (handle_set_acl (at 9 full) (some policy) two).1.s))
    ⊎ ((validate policy ≡ none)
        × AllComplete policy.rules
        × ((handle_set_acl (at 9 full) (some policy) two).0 ≡ failure 500)
        × (handle_get_acl (handle_set_acl (at 9 full) (some policy) two).1 ≡ policy)
        × ((handle_set_acl (at 9 full) (some policy) two).1.disk.file ≡ two.disk.file))
    ⊎ ((n : ℕ) × (validate policy ≡ some n)
        × AnyIncomplete policy.rules
        × (handle_set_acl (at 9 full) (some policy) two ≡ (failure 400, two)))
handle_set_acl_lem_example = handle_set_acl_lem (at 9 full) policy two

abbrev user : User
user = record { id = codes "1"; email = owner; password_hash = []; created_at = 1 }

-- The laptop asks for the desk's token, with no enrolment key.
peers_disclose_example :
    (d : Device) × (get desk.public_key two.s.devices ≡ some d)
    × (handle_register net_text
          (λ k. true)
          (at 6 works)
          (some (record { auth_key = []; hostname = desk.hostname; public_key = desk.public_key }))
          two
        ≡ (
          reply (record { device_id = d.id; device_token = d.token; ip = d.ip; cidr = two.s.cidr }),
          two,
        ))
unfolding get text_eq net_map peers_of devices sorted_by_ip insert_by_ip text_lt be_bytes visible
    allows clone peer_view
peers_disclose_example =
    peers_disclose net_text (λ k. true) (at 6 works) 5 [] [] laptop two (peer_view 5 desk)
      (refl, (refl, tt)) (refl, (refl, tt)) (inl refl) refl refl
