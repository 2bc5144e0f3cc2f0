-- ===== src/Control/Tests/Machines.antt =====
-- Enrolment, allocation, revocation and the state file on a range with two host addresses.
use omniup_vpn.Control.Sound.Ledger.{ledger}
use omniup_vpn.Control.Sound.Refinement.{LedgerRun, history_refines}
use omniup_vpn.Control.Devices.{renamed}
use omniup_vpn.Control.Devices.{mark_used}
use omniup_vpn.Base.Map.{modify}
use omniup_vpn.Base.Map.{delete}
use omniup_vpn.Base.Map.{put}
use omniup_vpn.Control.State.{persist}
use omniup_vpn.Control.Alloc.{in_use}
use omniup_vpn.Net.{next}
use omniup_vpn.Net.{contains}
use omniup_vpn.Control.Alloc.{scan}
use omniup_vpn.Control.Alloc.{scan_prefix}
use omniup_vpn.Control.Devices.{create_device}
use omniup_vpn.Control.Devices.{usable}
use omniup_vpn.Control.Devices.{find_usable}
use omniup_vpn.Control.Devices.{enroll_with}
use omniup_vpn.Base.{
  ◌≡◌, refl, ◌⊎◌, true, false, none, some, List, [], ◌∷◌, ◌++◌, Text, codes, text_key, text_eq,
  if◌then◌else◌,
}
use omniup_vpn.Base.Map.{get}
use omniup_vpn.Net.{Addr, ip, v4, masked}
use omniup_vpn.Control.State.{
  Device, Store, Disk, Env, StateFile, ok, err, save, ip_exhausted, invalid_auth_key, random_hex,
  pos, device_not_owned,
}
use omniup_vpn.Control.Alloc.{allocate_ip, used_in}
use omniup_vpn.Control.Alloc.Whole.{IsFirstFree, AllUsed}
use omniup_vpn.Control.Alloc.Free.{allocate_ip_cases}
use omniup_vpn.Control.Devices.{register_device, new_device}
use omniup_vpn.Control.Devices.SingleUse.{single_use}
use omniup_vpn.Control.Devices.Retry.{unsaved_enrolment}
use omniup_vpn.Control.Fleet.{designates, remove_owned_device}
use omniup_vpn.Control.Fleet.Revocation.{remove_owned_device_lem}
use omniup_vpn.Control.Sound.{IsSound}
use omniup_vpn.Control.Sound.Calls.{
  Call, create_key, register, register_sso, rotate, touch, remove, history, history-IsSound,
}
use omniup_vpn.Control.Demo.{
  net_text, plain, range, works, full, at, key_text, owner, once, state, store, two,
}

store-IsSound : IsSound net_text store.s
unfolding text_eq
store-IsSound = record {
  range = range;
  parsed = refl;
  unique = tt;
  keyed = tt;
  hosted = tt;
  distinct = tt;
}

-- Two machines enrol, a third finds no address, one is seen, rotates its token and is revoked.
abbrev calls : List (Env × Call)
calls =
    (at 1 works, create_key owner true (pos 5))
    ∷ (at 2 works, register key_text (codes "a") (1 ∷ []))
    ∷ (at 3 full, register_sso (codes "b") (2 ∷ []) owner)
    ∷ (at 4 works, register_sso (codes "c") (3 ∷ []) owner)
    ∷ (at 5 works, touch (1 ∷ []) (codes "e") none none)
    ∷ (at 6 works, rotate (1 ∷ []))
    ∷ (at 7 works, remove (codes "a"))
    ∷ []

history-IsSound_example : IsSound net_text (history net_text plain calls store).s
history-IsSound_example = history-IsSound net_text plain calls store store-IsSound

allocate_ip_cases_example :
    ((a : Addr) × (allocate_ip net_text state ≡ ok (net_text.addr_string a))
      × IsFirstFree (masked range) (used_in net_text state) a)
    ⊎ ((allocate_ip net_text state ≡ err ip_exhausted)
        × AllUsed (masked range) (used_in net_text state))
unfolding text_eq
allocate_ip_cases_example = allocate_ip_cases net_text state range refl

abbrev enrolled : Store
enrolled = (register_device net_text (at 2 works) key_text (codes "a") (1 ∷ []) store).1

single_use_example :
    register_device net_text (at 3 works) key_text (codes "b") (2 ∷ []) enrolled
    ≡ (err invalid_auth_key, enrolled)
unfolding get find_usable usable text_eq register_device enroll_with create_device allocate_ip
    scan_prefix scan masked contains next in_use persist save put delete modify mark_used renamed
    random_hex
single_use_example =
    single_use net_text (at 2 works) (at 3 works) key_text (codes "a") (codes "b") (1 ∷ []) (2 ∷ [])
      store once
      (new_device (at 2 works) (codes "a") (1 ∷ []) owner (net_text.addr_string (ip v4 167772161)))
      (tt, tt) refl refl refl refl refl

abbrev unsaved : Store
unsaved = (register_device net_text (at 2 full) key_text (codes "a") (1 ∷ []) store).1

unsaved_enrolment_example :
    (d : Device) × (register_device net_text (at 3 full) [] (codes "a") (1 ∷ []) unsaved
      ≡ (ok d, unsaved))
    × (unsaved.disk.file ≡ store.disk.file)
unfolding get register_device enroll_with find_usable usable text_eq create_device allocate_ip
    scan_prefix scan masked contains next in_use persist save
unsaved_enrolment_example =
    unsaved_enrolment net_text (at 2 full) (at 3 full) key_text [] (codes "a") (1 ∷ []) store refl
      refl

remove_owned_device_lem_example :
    (remove_owned_device (at 2 works) owner (codes "desk") two ≡ (err device_not_owned, two))
    ⊎ ((k : Text) × (d : Device) × (get k two.s.devices ≡ some d)
        × (d.owner ≡ owner)
        × (designates (codes "desk") d ≡ true)
        × ((j : Text)
            → get j (remove_owned_device (at 2 works) owner (codes "desk") two).1.s.devices
              ≡ (if text_eq k j then none else get j two.s.devices)))
unfolding get text_eq
remove_owned_device_lem_example =
    remove_owned_device_lem (at 2 works) owner (codes "desk") two (refl, (refl, tt))

abbrev torn : Disk
torn = record { file = none; temp = false }

abbrev keyless : StateFile
keyless = record state { admin_key = [] }

abbrev reopened : Store
reopened = record {
  s = record state { admin_key = codes "omadmin-" ++ random_hex (1 ∷ 7 ∷ []) };
  disk = record {
    file = some (record state { admin_key = codes "omadmin-" ++ random_hex (1 ∷ 7 ∷ []) });
    temp = false;
  };
}

history_refines_example :
    LedgerRun net_text range (ledger store.s) (ledger (history net_text plain calls store).s)
unfolding text_eq
history_refines_example = history_refines net_text plain range calls store refl
