-- ===== src/Control/Devices/SingleUse.antt =====
-- What an enrolment key is good for.
use omniup_vpn.Base.{
  ℕ, ◌≡◌, ◌≢◌, refl, inl, inr, false, none, some, List, [], ◌∷◌, arith, Text, text_key, text_eq,
  text_eq_iff, Bool-cases,
}
use omniup_vpn.Base.Map.{get}
use omniup_vpn.NetText.{NetText}
use omniup_vpn.Control.State.{Device, AuthKey, Store, Env, ok, err, invalid_auth_key, persist, save}
use omniup_vpn.Control.Devices.{
  usable, find_usable, mark_used, create_device, enroll_with, register_device,
}

-- No key of the list has the text `a`.
abbrev pub KeyAbsent : Text → List AuthKey → Type 0
KeyAbsent a [] = Unit
KeyAbsent a (k ∷ ks) = (k.key ≢ a) × KeyAbsent a ks

-- No two keys have one text: they are drawn at random.
abbrev pub UniqueKeys : List AuthKey → Type 0
UniqueKeys [] = Unit
UniqueKeys (k ∷ ks) = KeyAbsent k.key ks × UniqueKeys ks

find_usable_absent :
    (a : Text) (now : ℕ) (ks : List AuthKey) → KeyAbsent a ks → find_usable a now ks ≡ none
unfolding find_usable usable
find_usable_absent a now [] h = refl
find_usable_absent a now (k ∷ ks) h =
    ground (arith, find_usable_absent a now ks, text_eq_iff k.key a)

-- Once spent, a key that is not reusable opens nothing, at any later or earlier instant.
find_usable-mark_used :
    (a : Text) (now later : ℕ) (ks : List AuthKey) (k : AuthKey)
    → UniqueKeys ks
    → find_usable a now ks ≡ some k
    → k.reusable ≡ false
    → find_usable a later (mark_used a now ks) ≡ none
unfolding find_usable mark_used usable
find_usable-mark_used a now later [] k u f r = absurd (ground arith)
find_usable-mark_used a now later (j ∷ js) k u f r = elim (Bool-cases (text_eq j.key a)) [
  | inl same ↦
      let e : j.key ≡ a = (text_eq_iff j.key a).0 same in
      ground (
        arith,
        find_usable_absent a now js (rw (← e) u.0),
        find_usable_absent a later js (rw (← e) u.0),
      )
  | inr other ↦ ground (arith, find_usable-mark_used a now later js k)
]

module _ (t : NetText) (e : Env) (auth hostname pub_key : Text) (st : Store) where
  -- The keys after an enrolment of an unknown machine that has gone through.
  keys-register_device :
      (k : AuthKey) (d : Device)
      → get pub_key st.s.devices ≡ none
      → find_usable auth e.now st.s.auth_keys ≡ some k
      → (register_device t e auth hostname pub_key st).0 ≡ ok d
      → (register_device t e auth hostname pub_key st).1.s.auth_keys
        ≡ mark_used auth e.now st.s.auth_keys
  unfolding register_device enroll_with create_device persist save
  keys-register_device k d new f r = ground arith

  -- A machine that is not known is refused, and nothing changes, exactly when no key of that text
  -- is unexpired and either reusable or unused.
  pub register_refused :
      get pub_key st.s.devices ≡ none
      → find_usable auth e.now st.s.auth_keys ≡ none
      → register_device t e auth hostname pub_key st ≡ (err invalid_auth_key, st)
  unfolding register_device enroll_with
  register_refused new f = rw (new, register_device) (rw (f, enroll_with))

-- A key that is not reusable enrols one machine: after an enrolment with it that went through, any
-- other unknown machine that shows the key, at any time, is refused, and the store stays as it is.
-- (The first machine was unknown, and no two keys have one text.)
pub single_use :
    (t : NetText) (e e' : Env) (auth hostname hostname' pub_key pub_key' : Text) (st : Store)
    (k : AuthKey) (d : Device)
    → UniqueKeys st.s.auth_keys
    → get pub_key st.s.devices ≡ none
    → find_usable auth e.now st.s.auth_keys ≡ some k
    → k.reusable ≡ false
    → (register_device t e auth hostname pub_key st).0 ≡ ok d
    → get pub_key' (register_device t e auth hostname pub_key st).1.s.devices ≡ none
    → register_device t e' auth hostname' pub_key' (register_device t e auth hostname pub_key st).1
      ≡ (err invalid_auth_key, (register_device t e auth hostname pub_key st).1)
single_use t e e' auth hostname hostname' pub_key pub_key' st k d u new f r q new' =
    register_refused t e' auth hostname' pub_key' (register_device t e auth hostname pub_key st).1
      new'
      (rw (keys-register_device t e auth hostname pub_key st k d new f q)
        (find_usable-mark_used auth e.now e'.now st.s.auth_keys k u f r))
