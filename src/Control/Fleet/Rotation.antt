-- ===== src/Control/Fleet/Rotation.antt =====
-- Tokens across their rotation.
use omniup_vpn.Base.{
  is_blank, ℕ, suc, ◌+◌, ◌<◌, ◌≡◌, ◌≢◌, ◌↔◌, refl, sym, ◌⊎◌, inl, inr, true, false, none, some, [],
  ◌∷◌, arith, Text, text_key, text_eq_iff, Bool-cases,
}
use omniup_vpn.Base.Map.{Map, get, modify, Unique}
use omniup_vpn.Control.State.{
  Device, Store, Env, ok, persist, save, since_lt, token_rotate_after, token_grace,
}
use omniup_vpn.Control.Fleet.{
  token_valid, find_token, device_by_token, rotated, rotate_token_if_due,
}

-- No machine but the one under `pub_key` accepts the token.
abbrev pub OnlyAt : ℕ → Text → Text → Map Text Device → Type 0
OnlyAt now token pub_key [] = Unit
OnlyAt now token pub_key ((k, d) ∷ m) =
    (k ≢ pub_key → token_valid now token d ≡ false) × OnlyAt now token pub_key m

find_token-none :
    (now : ℕ) (token pub_key : Text) (m : Map Text Device)
    → get pub_key m ≡ none
    → OnlyAt now token pub_key m
    → find_token now token m ≡ none
unfolding get find_token
find_token-none now token pub_key [] g o = refl
find_token-none now token pub_key ((k, d) ∷ m) g o =
    ground (arith, find_token-none now token pub_key m, text_eq_iff k pub_key, o.0)

module _ (now : ℕ) (token pub_key : Text) (f : Device → Device) where
  get-modify-none : (m : Map Text Device) → get pub_key m ≡ none → modify pub_key f m ≡ m
  unfolding get modify
  get-modify-none [] g = refl
  get-modify-none ((k, d) ∷ m) g = ground (arith, get-modify-none m)

  -- The machine that an update makes accept the token is the one that is found.
  find_token-modify :
      (m : Map Text Device) (d : Device)
      → Unique m
      → get pub_key m ≡ some d
      → OnlyAt now token pub_key m
      → token_valid now token (f d) ≡ true
      → find_token now token (modify pub_key f m) ≡ some (f d)
  unfolding get modify find_token
  find_token-modify [] d u g o v = absurd (ground arith)
  find_token-modify ((k, c) ∷ m) d u g o v =
      ground (arith, find_token-modify m d, text_eq_iff k pub_key, o.0)

  -- Nor is any found, if the updated machine refuses it too.
  find_token-modify-none :
      (m : Map Text Device) (d : Device)
      → Unique m
      → get pub_key m ≡ some d
      → OnlyAt now token pub_key m
      → token_valid now token (f d) ≡ false
      → find_token now token (modify pub_key f m) ≡ none
  unfolding get modify find_token
  find_token-modify-none [] d u g o v = refl
  find_token-modify-none ((k, c) ∷ m) d u g o v = ground (
    arith,
    find_token-modify-none m d,
    text_eq_iff k pub_key,
    o.0,
    get-modify-none m,
    find_token-none now token pub_key m,
  )

-- The texts that a rotated machine accepts: its new token at any time, and until the end of the
-- grace period the token that it had.
rotated_accepts :
    (e : Env) (d : Device) (later : ℕ) (token : Text)
    → (token_valid later token (rotated e d) ≡ true)
      ↔ (((rotated e d).token ≡ token) ⊎ ((d.token ≡ token) × (later < e.now + token_grace)))
unfolding token_valid
rotated_accepts e d later token = (
  λ h. ground (arith, text_eq_iff (rotated e d).token token, text_eq_iff d.token token),
  λ h. ground (arith, text_eq_iff (rotated e d).token token, text_eq_iff d.token token),
)

module _ (e : Env) (pub_key : Text) (st : Store) (d : Device) (unique : Unique st.s.devices)
    (known : get pub_key st.s.devices ≡ some d)
    (due : since_lt e.now d.token_issued_at token_rotate_after ≡ false) where
  pub devices-rotate :
      (rotate_token_if_due e pub_key st).1.s.devices ≡ modify pub_key (rotated e) st.s.devices
  unfolding rotate_token_if_due persist save
  devices-rotate = ground arith

  rotate_reply :
      (tok : Text) → (rotate_token_if_due e pub_key st).0 ≡ ok tok → tok ≡ (rotated e d).token
  unfolding rotate_token_if_due persist save
  rotate_reply tok h = ground arith

  refused :
      (later : ℕ)
      → d.token ≢ (rotated e d).token
      → e.now + token_grace < suc later
      → token_valid later d.token (rotated e d) ≡ false
  refused later other late = elim (Bool-cases (token_valid later d.token (rotated e d))) [
    | inl v ↦ elim ((rotated_accepts e d later d.token).0 v) [
      | inl same ↦ absurd (other (sym same))
      | inr (same, early) ↦ absurd (omega arith)
    ]
    | inr v ↦ v
  ]

  -- A poll that rotates a machine's token, which is due: the token that it answers is accepted from
  -- then on and leads to the machine, as long as no other machine accepts it. (The store has the
  -- machine, and no key twice.)
  pub rotation_answer :
      (tok : Text) (later : ℕ)
      → (rotate_token_if_due e pub_key st).0 ≡ ok tok
      → OnlyAt later tok pub_key st.s.devices
      → device_by_token later tok (rotate_token_if_due e pub_key st).1 ≡ some (rotated e d)
  unfolding device_by_token
  rotation_answer tok later reply only =
      let eq : tok ≡ (rotated e d).token = rotate_reply tok reply in
      rw devices-rotate (
        ground (
          arith,
          eq,
          find_token-modify later tok pub_key (rotated e) st.s.devices d unique known only
              ((rotated_accepts e d later tok).1 (inl (sym eq))),
        ))

  -- The token from before a rotation, if it is not blank, still leads to the machine until the grace
  -- period ends, whether or not the rotation was saved, as long as no other machine accepts it. (The
  -- token was due, and the store has the machine, and no key twice.)
  pub rotation_grace :
      (later : ℕ)
      → OnlyAt later d.token pub_key st.s.devices
      → is_blank d.token ≡ false
      → later < e.now + token_grace
      → device_by_token later d.token (rotate_token_if_due e pub_key st).1 ≡ some (rotated e d)
  unfolding device_by_token
  rotation_grace later only nonblank early = rw devices-rotate (
      ground (
        arith,
        find_token-modify later d.token pub_key (rotated e) st.s.devices d unique known only
            ((rotated_accepts e d later d.token).1 (inr (refl, early))),
      ))

  -- From the end of the grace period on the token from before a rotation is refused, if it is not
  -- the new one and no other machine accepts it. (The token was due, and the store has the machine,
  -- and no key twice.)
  pub rotation_expires :
      (later : ℕ)
      → OnlyAt later d.token pub_key st.s.devices
      → d.token ≢ (rotated e d).token
      → e.now + token_grace < suc later
      → device_by_token later d.token (rotate_token_if_due e pub_key st).1 ≡ none
  unfolding device_by_token
  rotation_expires later only other late = rw devices-rotate (
      ground (
        arith,
        find_token-modify-none later d.token pub_key (rotated e) st.s.devices d unique known only
            (refused later other late),
      ))
