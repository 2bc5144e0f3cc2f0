-- ===== src/Control/Sound/Heartbeat.antt =====
-- Heartbeats, tokens, routes and revocations keep the well-formedness of the machines.
use omniup_vpn.Base.{
  ℕ, refl, inl, inr, Option, none, some, List, Text, Bool-cases, Option-cases, text_key,
}
use omniup_vpn.Base.Map.{get}
use omniup_vpn.NetText.{NetText}
use omniup_vpn.Unicode.{Unicode}
use omniup_vpn.Control.State.{Device, Store, Env, Result, ok, err, since_lt, token_rotate_after}
use omniup_vpn.Control.State.Durable.{persist-s}
use omniup_vpn.Control.Fleet.{
  rotated, rotate_token_if_due, touched, touch_device, set_approved, approve, set_approved_routes,
  removed, remove_device, remove_owned_device, find_entry, designates, normalize_all,
}
use omniup_vpn.Control.Sound.{IsSound, KeepsIdentity, delete-IsSound}
use omniup_vpn.Control.Sound.Enrol.{modify-persist-IsSound}

module _ (t : NetText) where
  pub rotated-KeepsIdentity : (e : Env) → KeepsIdentity (rotated e)
  rotated-KeepsIdentity e = record { same_key = λ d. refl; same_ip = λ d. refl }

  pub touched-KeepsIdentity :
      (u : Unicode) (now : ℕ) (endpoint : Text) (reported advertised : Option (List Text))
      → KeepsIdentity (touched t u now endpoint reported advertised)
  touched-KeepsIdentity u now endpoint reported advertised = record {
    same_key = λ d. refl;
    same_ip = λ d. refl;
  }

  pub set_approved-KeepsIdentity : (rs : List Text) → KeepsIdentity (set_approved rs)
  set_approved-KeepsIdentity rs = record { same_key = λ d. refl; same_ip = λ d. refl }

  pub rotate_token_if_due-IsSound :
      (e : Env) (pub_key : Text) (st : Store)
      → IsSound t st.s
      → IsSound t (rotate_token_if_due e pub_key st).1.s
  unfolding rotate_token_if_due
  rotate_token_if_due-IsSound e pub_key st h = elim (Option-cases (get pub_key st.s.devices)) [
    | inl q ↦ rw (q, rotate_token_if_due) h
    | inr (d, q) ↦
        rw (q, rotate_token_if_due)
          (elim (Bool-cases (since_lt e.now d.token_issued_at token_rotate_after)) [
            | inl fresh ↦ rw fresh h
            | inr due ↦ rw due (
                modify-persist-IsSound t e.io (rotated e d).token pub_key (rotated e) st
                  (rotated-KeepsIdentity e) h)
          ])
  ]

  pub touch_device-IsSound :
      (u : Unicode) (e : Env) (pub_key endpoint : Text) (reported advertised : Option (List Text))
      (st : Store)
      → IsSound t st.s
      → IsSound t (touch_device t u e pub_key endpoint reported advertised st).1.s
  unfolding touch_device
  touch_device-IsSound u e pub_key endpoint reported advertised st h =
      elim (Option-cases (get pub_key st.s.devices)) [
        | inl q ↦ rw (q, touch_device) h
        | inr (d, q) ↦
            rw (q, touch_device)
              (modify-persist-IsSound t e.io tt pub_key _ st
                (touched-KeepsIdentity u e.now endpoint reported advertised) h)
      ]

  approve-IsSound :
      (u : Unicode) (e : Env) (target : Text) (st : Store) (r : Result (List Text))
      → IsSound t st.s
      → IsSound t (approve t u e target st r).1.s
  approve-IsSound u e target st (err x) h = h
  approve-IsSound u e target st (ok rs) h =
      elim (Option-cases (find_entry (designates target) st.s.devices)) [
        | inl q ↦ rw (q, approve) h
        | inr ((k, d), q) ↦
            rw (q, approve)
              (modify-persist-IsSound t e.io (set_approved rs d) k (set_approved rs) st
                (set_approved-KeepsIdentity rs) h)
      ]

  pub set_approved_routes-IsSound :
      (u : Unicode) (e : Env) (target : Text) (routes : List Text) (st : Store)
      → IsSound t st.s
      → IsSound t (set_approved_routes t u e target routes st).1.s
  unfolding set_approved_routes
  set_approved_routes-IsSound u e target routes st h =
      approve-IsSound u e target st (normalize_all t u routes) h

  removed-IsSound :
      (e : Env) (missing : Result Device) (st : Store) (o : Option (Text × Device))
      → IsSound t st.s
      → IsSound t (removed e missing st o).1.s
  removed-IsSound e missing st none h = h
  removed-IsSound e missing st (some (k, d)) h = rw persist-s (delete-IsSound t st.s h k)

  pub remove_device-IsSound :
      (e : Env) (target : Text) (st : Store)
      → IsSound t st.s
      → IsSound t (remove_device e target st).1.s
  unfolding remove_device
  remove_device-IsSound e target st h = removed-IsSound e _ st _ h

  pub remove_owned_device-IsSound :
      (e : Env) (owner target : Text) (st : Store)
      → IsSound t st.s
      → IsSound t (remove_owned_device e owner target st).1.s
  unfolding remove_owned_device
  remove_owned_device-IsSound e owner target st h = removed-IsSound e _ st _ h
