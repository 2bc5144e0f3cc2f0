-- ===== src/Control/Fleet/Revocation.antt =====
-- What a revocation takes away, and what it leaves.
use omniup_vpn.Base.{
  ℕ, ◌≡◌, refl, ◌⊎◌, inl, inr, Bool, true, none, some, [], ◌∷◌, arith, Text, text_key, text_eq,
  text_eq_iff, Option-cases, if◌then◌else◌,
}
use omniup_vpn.Base.Map.{Map, get, delete, get-delete, Unique}
use omniup_vpn.Control.State.{Device, Store, Env, err, device_not_owned, persist, save}
use omniup_vpn.Control.Fleet.{
  find_entry, designates, owned, remove_device, remove_owned_device, find_token, device_by_token,
}
use omniup_vpn.Control.Fleet.Rotation.{OnlyAt}

-- What the loop finds is in the map, and passes the test.
find_entry-get :
    (test : Device → Bool) (m : Map Text Device) (k : Text) (d : Device)
    → Unique m
    → find_entry test m ≡ some (k, d)
    → (get k m ≡ some d) × (test d ≡ true)
unfolding find_entry get
find_entry-get test [] k d u h = absurd (ground arith)
find_entry-get test ((j, c) ∷ m) k d u h =
    ground (arith, find_entry-get test m k d, text_eq_iff j k)

-- A user's revocation takes at most one machine away, one that is the user's and that the target
-- designates; every other machine stays as it was, whatever is asked for. (The store has no key
-- twice.)
pub remove_owned_device_lem :
    (e : Env) (owner target : Text) (st : Store)
    → Unique st.s.devices
    → ((remove_owned_device e owner target st ≡ (err device_not_owned, st)))
      ⊎ ((k : Text) × (d : Device) × (get k st.s.devices ≡ some d)
          × (d.owner ≡ owner)
          × (designates target d ≡ true)
          × ((j : Text)
              → get j (remove_owned_device e owner target st).1.s.devices
                ≡ (if text_eq k j then none else get j st.s.devices)))
unfolding remove_owned_device persist save
remove_owned_device_lem e owner target st u =
    elim (Option-cases (find_entry (owned e owner target) st.s.devices)) [
      | inl q ↦ inl (rw (q, remove_owned_device))
      | inr ((k, d), q) ↦
          let (g, v) = find_entry-get (owned e owner target) st.s.devices k d u q in
          inr (
            k,
            d,
            g,
            ground (arith, text_eq_iff d.owner owner),
            ground arith,
            λ j. ground (arith, get-delete k j st.s.devices),
          )
    ]

find_token-delete :
    (now : ℕ) (token k : Text) (m : Map Text Device)
    → OnlyAt now token k m
    → find_token now token (delete k m) ≡ none
unfolding find_token delete
find_token-delete now token k [] o = refl
find_token-delete now token k ((j, d) ∷ m) o =
    ground (arith, find_token-delete now token k m, text_eq_iff j k, o.0)

-- A machine that the administrator has revoked is gone, also when the save fails: its key is in
-- the map no more, and no token that it alone accepted is accepted.
pub remove_device_lem :
    (e : Env) (target : Text) (st : Store) (k : Text) (d : Device) (now : ℕ) (token : Text)
    → find_entry (designates target) st.s.devices ≡ some (k, d)
    → OnlyAt now token k st.s.devices
    → (get k (remove_device e target st).1.s.devices ≡ none)
      × (device_by_token now token (remove_device e target st).1 ≡ none)
unfolding remove_device persist save device_by_token
remove_device_lem e target st k d now token h only = (
  ground (arith, get-delete k k st.s.devices, text_eq_iff k k),
  ground (arith, find_token-delete now token k st.s.devices),
)
