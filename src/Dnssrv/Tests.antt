-- ===== src/Dnssrv/Tests.antt =====
-- What the theorems about the names say of a small network.
use omniup_vpn.Base.{◌≤◌, some, [], ◌∷◌, codes, length}
use omniup_vpn.Control.Api.{NetMap, peer_view}
use omniup_vpn.Control.Demo.{desk, laptop, plain}
use omniup_vpn.Dnssrv.{DnsServer, Question, new_server, update, serve_dns, sanitize_label, type_a}
use omniup_vpn.Dnssrv.Labels.{AllLabel, sanitize_label-AllLabel}
use omniup_vpn.Dnssrv.Names.{Answered, last_named, serve_dns-update}

sanitize_label-AllLabel_example :
    (length (sanitize_label plain (codes "my_tower.lan-")) ≤ 63)
    × AllLabel (sanitize_label plain (codes "my_tower.lan-"))
sanitize_label-AllLabel_example = sanitize_label-AllLabel plain (codes "my_tower.lan-")

abbrev network : NetMap
network = record { self = peer_view 5 laptop; peers = peer_view 5 desk ∷ []; new_token = [] }

abbrev server : DnsServer
server = new_server plain (codes "omni")

abbrev question : Question
question = record { name = codes "desk.omni."; qtype = type_a }

serve_dns-update_example :
    Answered some server.zone question.name question
      (last_named plain some server.zone question.name (network.self ∷ network.peers))
      (serve_dns plain some (update plain some network server) (question ∷ []))
serve_dns-update_example = serve_dns-update plain some some network server question
