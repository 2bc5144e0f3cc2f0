-- ===== src/Control/Tests/Tokens.antt =====
-- The token of one of two machines, before and after its rotation.
use omniup_vpn.Base.Map.{modify}
use omniup_vpn.Base.{true, is_blank}
use omniup_vpn.Control.Api.{NetMap, PollRequest, failure, handle_poll, poll, bearer_prefix, net_map}
use omniup_vpn.Control.Api.Lost.{lost_answer}
use omniup_vpn.Control.Fleet.{touch_device}
use omniup_vpn.Control.State.{Store}
use omniup_vpn.Control.Demo.{net_text, plain}
use omniup_vpn.Base.{◌≡◌, refl, none, some, [], ◌∷◌, ◌++◌, Text, codes, text_key, arith, text_eq}
use omniup_vpn.Base.Map.{get}
use omniup_vpn.Base.Hex.{hex_encode}
use omniup_vpn.Control.State.{Env, random_hex, save, persist}
use omniup_vpn.Control.Fleet.{rotated, rotate_token_if_due, device_by_token, token_valid}
use omniup_vpn.Control.Fleet.Rotation.{OnlyAt, rotation_grace, rotation_expires}
use omniup_vpn.Control.Demo.{works, at, laptop, two}

-- Two days after the token was issued, in nanoseconds.
abbrev due : Env
due = record (at 1 works) { now = 172_800_000_000_000 }

abbrev new_token : Text
new_token = codes "omtok-" ++ random_hex (1 ∷ 7 ∷ [])

alone : OnlyAt 172_800_000_000_001 laptop.token laptop.public_key two.s.devices
unfolding token_valid text_eq
alone = (λ other. absurd (other refl), (λ other. refl, tt))

rotation_grace_example :
    device_by_token 172_800_000_000_001 laptop.token
      (rotate_token_if_due due laptop.public_key two).1
    ≡ some (rotated due laptop)
unfolding get text_eq
rotation_grace_example =
    rotation_grace due laptop.public_key two laptop (refl, (refl, tt)) refl refl 172_800_000_000_001
      alone refl (omega arith)

alone_after : OnlyAt 180_000_000_000_000 laptop.token laptop.public_key two.s.devices
unfolding token_valid text_eq
alone_after = (λ other. absurd (other refl), (λ other. refl, tt))

rotation_expires_example :
    device_by_token 180_000_000_000_000 laptop.token
      (rotate_token_if_due due laptop.public_key two).1
    ≡ none
unfolding get text_eq random_hex hex_encode
rotation_expires_example =
    rotation_expires due laptop.public_key two laptop (refl, (refl, tt)) refl refl
      180_000_000_000_000 alone_after (λ e. ground arith) (omega arith)

abbrev rotated_store : Store
rotated_store = (rotate_token_if_due due laptop.public_key two).1

abbrev report : PollRequest
report = record { listen_port = 0; endpoints = none; advertised_routes = none }

-- A poll in the hour of grace, and one two hours after the rotation.
abbrev soon : Env
soon = record due { now = 172_800_000_000_001 }

abbrev after_grace : Env
after_grace = record due { now = 180_000_000_000_000 }

abbrev answer : NetMap
answer =
    net_map 7 [] laptop
      (touch_device net_text plain soon laptop.public_key [] none none rotated_store).1

lost_answer_example :
    (is_blank answer.new_token ≡ true)
    × (poll net_text plain after_grace after_grace 8
          (bearer_prefix ++ laptop.token)
          none
          none
          rotated_store
        ≡ (failure 401, rotated_store))
unfolding get random_hex hex_encode text_eq handle_poll touch_device rotate_token_if_due persist
    save modify
lost_answer_example =
    lost_answer net_text plain due soon soon after_grace after_grace 7 8 none none report none
      laptop laptop two answer (refl, (refl, tt)) refl refl alone_after (λ same. ground arith) refl
      refl (omega arith)
