-- ===== src/Control/Sound/Enrol.antt =====
-- Enrolment keeps the well-formedness of the machines.
use omniup_vpn.Base.{
  is_blank, refl, inl, inr, Bool, Option, none, some, List, arith, Text, Bool-cases, Option-cases,
  text_key, not, ◌&&◌, text_eq,
}
use omniup_vpn.Base.Map.{get, modify}
use omniup_vpn.NetText.{NetText}
use omniup_vpn.Control.State.{
  Device, AuthKey, Store, Env, SaveSteps, Result, ok, err, persist, Duration,
}
use omniup_vpn.Control.State.Durable.{persist-s}
use omniup_vpn.Control.Alloc.Free.{allocate_ip_cases}
use omniup_vpn.Control.Devices.{
  with_devices, with_keys, create_auth_key_for, create_device, new_device, renamed, set_hostname,
  enroll_with, key_spent, register_device, sso_owner, sso_hostname, sso_changed, updated_sso, saved,
  register_device_sso,
}
use omniup_vpn.Control.Sound.{IsSound, KeepsIdentity, modify-IsSound, put-IsSound}

module _ (t : NetText) where
  pub persist-IsSound {ℓ} :
      {A : Type ℓ} (o : SaveSteps) (a : A) (st : Store)
      → IsSound t st.s
      → IsSound t (persist o a st).1.s
  persist-IsSound o a st h = rw (persist-s o a st) h

  -- The enrolment keys play no part in the well-formedness.
  pub keys-IsSound :
      (st : Store) (ks : List AuthKey) → IsSound t st.s → IsSound t (with_keys st ks).s
  keys-IsSound st ks h = record {
    range = h.range;
    parsed = h.parsed;
    unique = h.unique;
    keyed = h.keyed;
    hosted = h.hosted;
    distinct = h.distinct;
  }

  pub modify-persist-IsSound {ℓ} :
      {A : Type ℓ} (o : SaveSteps) (a : A) (k : Text) (f : Device → Device) (st : Store)
      → KeepsIdentity f
      → IsSound t st.s
      → IsSound t (persist o a (with_devices st (modify k f st.s.devices))).1.s
  modify-persist-IsSound o a k f st keep h =
      persist-IsSound o a (with_devices st (modify k f st.s.devices))
        (modify-IsSound t st.s h k f keep)

  pub create_auth_key_for-IsSound :
      (e : Env) (owner : Text) (reusable : Bool) (ttl : Duration) (st : Store)
      → IsSound t st.s
      → IsSound t (create_auth_key_for e owner reusable ttl st).1.s
  unfolding create_auth_key_for
  create_auth_key_for-IsSound e owner reusable ttl st h = rw persist-s (keys-IsSound st _ h)

  pub create_device-IsSound :
      (e : Env) (hostname pub_key owner : Text) (st : Store)
      → IsSound t st.s
      → IsSound t (create_device t e hostname pub_key owner st).1.s
  unfolding create_device
  create_device-IsSound e hostname pub_key owner st h =
      elim (allocate_ip_cases t st.s h.range h.parsed) [
        | inl (a, found, first) ↦
            rw (found, create_device)
              (put-IsSound t st.s h (new_device e hostname pub_key owner (t.addr_string a)) a first
                refl)
        | inr (full, all) ↦ rw (full, create_device) h
      ]

  pub set_hostname-KeepsIdentity : (n : Text) → KeepsIdentity (set_hostname n)
  set_hostname-KeepsIdentity n = record { same_key = λ d. refl; same_ip = λ d. refl }

  renamed-IsSound :
      (e : Env) (hostname pub_key : Text) (d : Device) (st : Store)
      → IsSound t st.s
      → IsSound t (renamed t e hostname pub_key d st).1.s
  unfolding renamed
  renamed-IsSound e hostname pub_key d st h =
      elim (Bool-cases (not (is_blank hostname) && not (text_eq d.hostname hostname))) [
        | inl q ↦ rw q (
            modify-persist-IsSound e.io (set_hostname hostname d) pub_key (set_hostname hostname) st
              (set_hostname-KeepsIdentity hostname) h)
        | inr q ↦ rw q h
      ]

  key_spent-IsSound :
      (e : Env) (auth : Text) (r : Result Device) (st : Store)
      → IsSound t st.s
      → IsSound t (key_spent t e auth (r, st)).1.s
  key_spent-IsSound e auth (ok d) st h = rw persist-s (keys-IsSound st _ h)
  key_spent-IsSound e auth (err x) st h = h

  enroll_with-IsSound :
      (e : Env) (auth hostname pub_key : Text) (k : Option AuthKey) (st : Store)
      → IsSound t st.s
      → IsSound t (enroll_with t e auth hostname pub_key k st).1.s
  unfolding enroll_with
  enroll_with-IsSound e auth hostname pub_key none st h = h
  enroll_with-IsSound e auth hostname pub_key (some k) st h =
      let (r, st') = create_device t e hostname pub_key k.owner st in
      key_spent-IsSound e auth r st' (create_device-IsSound e hostname pub_key k.owner st h)

  pub register_device-IsSound :
      (e : Env) (auth hostname pub_key : Text) (st : Store)
      → IsSound t st.s
      → IsSound t (register_device t e auth hostname pub_key st).1.s
  unfolding register_device
  register_device-IsSound e auth hostname pub_key st h =
      elim (Option-cases (get pub_key st.s.devices)) [
        | inl q ↦ rw (q, register_device) (enroll_with-IsSound e auth hostname pub_key _ st h)
        | inr (d, q) ↦ rw (q, register_device) (renamed-IsSound e hostname pub_key d st h)
      ]

  pub sso-KeepsIdentity :
      (e : Env) (hostname owner : Text)
      → KeepsIdentity (λ x. sso_owner t e owner (sso_hostname t e hostname x))
  sso-KeepsIdentity e hostname owner = record {
    same_key = λ d. ground arith;
    same_ip = λ d. ground arith;
  }

  saved-IsSound :
      (e : Env) (r : Result Device) (st : Store)
      → IsSound t st.s
      → IsSound t (saved t e (r, st)).1.s
  saved-IsSound e (ok d) st h = rw persist-s h
  saved-IsSound e (err x) st h = h

  updated_sso-IsSound :
      (e : Env) (hostname pub_key owner : Text) (d : Device) (st : Store)
      → IsSound t st.s
      → IsSound t (updated_sso t e hostname pub_key owner d st).1.s
  unfolding updated_sso
  updated_sso-IsSound e hostname pub_key owner d st h =
      elim (Bool-cases (sso_changed t e hostname owner d)) [
        | inl q ↦
            rw q (modify-persist-IsSound e.io _ pub_key _ st (sso-KeepsIdentity e hostname owner) h)
        | inr q ↦ rw q h
      ]

  pub register_device_sso-IsSound :
      (e : Env) (hostname pub_key owner : Text) (st : Store)
      → IsSound t st.s
      → IsSound t (register_device_sso t e hostname pub_key owner st).1.s
  unfolding register_device_sso
  register_device_sso-IsSound e hostname pub_key owner st h =
      elim (Option-cases (get pub_key st.s.devices)) [
        | inl q ↦
            let (r, st') = create_device t e hostname pub_key owner st in
            rw (q, register_device_sso)
              (saved-IsSound e r st' (create_device-IsSound e hostname pub_key owner st h))
        | inr (d, q) ↦
            rw (q, register_device_sso) (updated_sso-IsSound e hostname pub_key owner d st h)
      ]
