-- ===== src/Control/Devices/Retry.antt =====
-- Enrolment again: of a known machine, and after a failed save.
use omniup_vpn.Base.{
  is_blank, ◌≡◌, ◌≢◌, refl, ◌⊎◌, none, some, arith, Text, text_key, text_eq_iff, if◌then◌else◌,
}
use omniup_vpn.Base.Map.{get, get-put}
use omniup_vpn.NetText.{NetText}
use omniup_vpn.Control.State.{
  Device, AuthKey, StateFile, Store, Env, ok, err, save_failed, persist, save,
}
use omniup_vpn.Control.Alloc.{allocate_ip}
use omniup_vpn.Control.Devices.{
  find_usable, create_device, enroll_with, register_device, renamed, set_hostname, new_device,
}

-- A known machine is answered whatever key it shows and however its save goes: the key list stays
-- as it is, and the answer, if the save does not fail, is the machine with the name it gives.
pub register_known :
    (t : NetText) (e : Env) (auth hostname pub_key : Text) (st : Store) (d : Device)
    → get pub_key st.s.devices ≡ some d
    → ((register_device t e auth hostname pub_key st).1.s.auth_keys ≡ st.s.auth_keys)
      × (((register_device t e auth hostname pub_key st).0
            ≡ ok (if is_blank hostname then d else set_hostname hostname d))
          ⊎ ((register_device t e auth hostname pub_key st).0 ≡ err save_failed))
unfolding register_device renamed persist save
register_known t e auth hostname pub_key st d h = ground (arith, text_eq_iff d.hostname hostname)

-- A known machine that keeps its name changes nothing, and no save is made.
pub known_again :
    (t : NetText) (e : Env) (auth hostname pub_key : Text) (st : Store) (d : Device)
    → get pub_key st.s.devices ≡ some d
    → d.hostname ≡ hostname
    → register_device t e auth hostname pub_key st ≡ (ok d, st)
unfolding register_device renamed
known_again t e auth hostname pub_key st d h same = ground (arith, text_eq_iff d.hostname hostname)

allocate_ip-ne-save_failed : (t : NetText) (s : StateFile) → allocate_ip t s ≢ err save_failed
unfolding allocate_ip
allocate_ip-ne-save_failed t s h = ground (arith)

-- What a failed enrolment of an unknown machine leaves in memory.
kept_in_memory :
    (t : NetText) (e : Env) (auth hostname pub_key : Text) (st : Store) (k : AuthKey) (ip : Text)
    → get pub_key st.s.devices ≡ none
    → find_usable auth e.now st.s.auth_keys ≡ some k
    → allocate_ip t st.s ≡ ok ip
    → get pub_key (register_device t e auth hostname pub_key st).1.s.devices
      ≡ some (new_device e hostname pub_key k.owner ip)
unfolding register_device enroll_with create_device persist save
kept_in_memory t e auth hostname pub_key st k ip new f a = ground (
  arith,
  get-put pub_key pub_key (new_device e hostname pub_key k.owner ip) st.s.devices,
  text_eq_iff pub_key pub_key,
)

failed_file :
    (t : NetText) (e : Env) (auth hostname pub_key : Text) (st : Store)
    → get pub_key st.s.devices ≡ none
    → (register_device t e auth hostname pub_key st).0 ≡ err save_failed
    → (register_device t e auth hostname pub_key st).1.disk.file ≡ st.disk.file
unfolding register_device enroll_with create_device persist save
failed_file t e auth hostname pub_key st new h = ground arith

failed_stage :
    (t : NetText) (e : Env) (auth hostname pub_key : Text) (st : Store)
    → get pub_key st.s.devices ≡ none
    → (register_device t e auth hostname pub_key st).0 ≡ err save_failed
    → (k : AuthKey) × (ip : Text) × (find_usable auth e.now st.s.auth_keys ≡ some k)
      × (allocate_ip t st.s ≡ ok ip)
unfolding register_device enroll_with create_device
failed_stage t e auth hostname pub_key st new h = ground (arith, allocate_ip-ne-save_failed t st.s)

-- An enrolment whose save fails leaves the machine in memory: the same machine that asks again
-- under the same name is answered with success, by whatever key and whatever becomes of the disk,
-- while the state file is still the one from before the first request.
pub unsaved_enrolment :
    (t : NetText) (e e' : Env) (auth auth' hostname pub_key : Text) (st : Store)
    → get pub_key st.s.devices ≡ none
    → (register_device t e auth hostname pub_key st).0 ≡ err save_failed
    → (d : Device) × (register_device t e' auth' hostname pub_key
          (register_device t e auth hostname pub_key st).1
        ≡ (ok d, (register_device t e auth hostname pub_key st).1))
      × ((register_device t e auth hostname pub_key st).1.disk.file ≡ st.disk.file)
unsaved_enrolment t e e' auth auth' hostname pub_key st new h =
    let (k, ip, f, a) = failed_stage t e auth hostname pub_key st new h in
    let d = new_device e hostname pub_key k.owner ip in
    (
      d,
      known_again t e' auth' hostname pub_key (register_device t e auth hostname pub_key st).1 d
          (kept_in_memory t e auth hostname pub_key st k ip new f a) refl,
      failed_file t e auth hostname pub_key st new h,
    )
