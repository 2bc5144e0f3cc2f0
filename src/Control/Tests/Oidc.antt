-- ===== src/Control/Tests/Oidc.antt =====
-- One machine that enrols through an identity provider.
use omniup_vpn.Control.Alloc.{in_use}
use omniup_vpn.Net.{next}
use omniup_vpn.Net.{contains}
use omniup_vpn.Net.{masked}
use omniup_vpn.Control.Alloc.{scan}
use omniup_vpn.Control.Alloc.{scan_prefix}
use omniup_vpn.Control.Alloc.{allocate_ip}
use omniup_vpn.Base.{◌≡◌, refl, true, some, [], ◌∷◌, Text, codes, text_key, text_eq}
use omniup_vpn.Base.Map.{get}
use omniup_vpn.Net.{ip, v4}
use omniup_vpn.Control.State.{Device, Store, random_hex, persist, save}
use omniup_vpn.Control.Devices.{register_device_sso, new_device, create_device}
use omniup_vpn.Control.Api.{reply, failure}
use omniup_vpn.Control.Oidc.Sessions.{
  OidcConfig, OidcProvider, EnrollSession, EnrollStartRequest, handle_enroll_start,
  handle_enroll_wait, enrolled, new_session, no_email,
}
use omniup_vpn.Control.Oidc.Identity.{Identity, claims, judge, email_allowed}
use omniup_vpn.Control.Oidc.Callback.{handle_oidc_callback, response, approve, html_escape}
use omniup_vpn.Control.Oidc.Complete.{failure_sticks, sso_enrolment}
use omniup_vpn.Control.Demo.{net_text, plain, works, at, store}

abbrev config : OidcConfig
config = record {
  issuer = codes "i";
  client_id = codes "c";
  client_secret = codes "s";
  public_url = codes "https://vpn";
  allowed_domain = codes "b.c";
  allowed_emails = [];
}

abbrev email : Text
email = codes "a@b.c"

abbrev request : EnrollStartRequest
request = record { hostname = codes "tower"; public_key = 5 ∷ [] }

abbrev fresh : OidcProvider
fresh = record { cfg = config; sessions = [] }

abbrev session : EnrollSession
session = new_session 1 request

abbrev id : Text
id = codes "id"

abbrev waiting : OidcProvider
waiting = record fresh { sessions = (id, session) ∷ [] }

abbrev who : Identity
who = claims email (some true)

abbrev device : Device
device =
    new_device (at 2 works) (codes "tower") (5 ∷ []) email (net_text.addr_string (ip v4 167772161))

abbrev with_machine : Store
with_machine = (register_device_sso net_text (at 2 works) (codes "tower") (5 ∷ []) email store).1

abbrev done : OidcProvider
done = record fresh { sessions = (id, approve email device with_machine.s.cidr session) ∷ [] }

abbrev failed_session : EnrollSession
failed_session = record session { failure = some no_email }

abbrev failing : OidcProvider
failing = record fresh { sessions = (id, failed_session) ∷ [] }

failure_sticks_example :
    ((handle_oidc_callback net_text plain (at 2 works) id who (some failing) store).0
      ≡ reply (record {
        hostname = html_escape (codes "tower");
        ip = device.ip;
        owner = html_escape email;
      }))
    × ((handle_oidc_callback net_text plain (at 2 works) id who (some failing) store).1.1
        ≡ with_machine)
    × (handle_enroll_wait 3 id
          (handle_oidc_callback net_text plain (at 2 works) id who (some failing) store).1.0
        ≡ failure 403)
unfolding get text_eq judge email_allowed register_device_sso create_device allocate_ip scan_prefix
    scan masked contains next in_use persist save
failure_sticks_example =
    failure_sticks net_text plain (at 2 works) id who failing store failed_session no_email email
      device with_machine 3 refl refl refl refl refl refl refl

sso_enrolment_example :
    handle_enroll_wait 3
      (random_hex (9 ∷ []))
      (handle_oidc_callback net_text plain
        (at 2 works)
        (random_hex (9 ∷ []))
        who
        (handle_enroll_start (λ k. true) 1 (9 ∷ []) (some request) (some fresh)).1
        store).1.0
    ≡ reply (enrolled (some (response device with_machine.s.cidr)))
unfolding get judge email_allowed text_eq register_device_sso create_device allocate_ip scan_prefix
    scan masked contains next in_use persist save
sso_enrolment_example =
    sso_enrolment net_text plain (λ k. true) 1 (9 ∷ []) request fresh (at 2 works) who store
      with_machine email device 3 refl refl refl refl refl
