-- ===== src/Control/Sound/Refinement.antt =====
-- Every history of calls is a run of the ledger.
use omniup_vpn.Base.{
  ◌≡◌, refl, inl, inr, Bool, not, ◌&&◌, Option, none, some, List, [], ◌∷◌, Text, text_key, text_eq,
  is_blank, Bool-cases, Option-cases,
}
use omniup_vpn.Base.Map.{get}
use omniup_vpn.Net.{Prefix, masked}
use omniup_vpn.NetText.{NetText}
use omniup_vpn.Unicode.{Unicode}
use omniup_vpn.Control.State.{
  Device, AuthKey, Store, Env, Result, ok, err, Duration, since_lt, token_rotate_after,
}
use omniup_vpn.Control.Alloc.Free.{allocate_ip_cases}
use omniup_vpn.Control.Devices.{
  with_keys, mark_used, create_auth_key_for, create_device, new_device, renamed, set_hostname,
  enroll_with, key_spent, register_device, sso_changed, updated_sso, saved, register_device_sso,
}
use omniup_vpn.Control.Fleet.{
  rotated, rotate_token_if_due, touch_device, set_approved, approve, set_approved_routes, removed,
  remove_device, remove_owned_device, find_entry, designates, normalize_all,
}
use omniup_vpn.Control.Sound.Enrol.{set_hostname-KeepsIdentity, sso-KeepsIdentity}
use omniup_vpn.Control.Sound.Heartbeat.{
  rotated-KeepsIdentity, touched-KeepsIdentity, set_approved-KeepsIdentity,
}
use omniup_vpn.Control.Sound.Calls.{
  Call, create_key, register, register_sso, rotate, touch, approve_routes, remove, remove_owned,
  perform, history,
}
use omniup_vpn.Control.Sound.Ledger.{
  Ledger, ledger, LedgerStep, Refines, ledger_same, ledger-persist, ledger-modify, ledger-delete,
  ledger-put,
}

module _ (t : NetText) (range : Prefix) where
  -- The step that a change of the store is.
  abbrev pub Steps : Store → Store → Type 0
  Steps st st' = Refines t (masked range) st.s st'.s

  -- The ledgers that a ledger may become.
  pub data LedgerRun (l : Ledger) : Ledger → Type 0 where
    here : LedgerRun l l
    next : {m n : Ledger} → LedgerRun l m → LedgerStep t (masked range) m n → LedgerRun l n

module _ (t : NetText) (range : Prefix) (e : Env) (st : Store) where
  unchanged : Steps t range st st
  unchanged = ledger_same t (masked range) st.s st.s refl refl

  key_spent-Steps :
      (auth : Text) (r : Result Device) (st' : Store)
      → Steps t range st st'
      → Steps t range st (key_spent t e auth (r, st')).1
  unfolding ledger
  key_spent-Steps auth (ok d) st' h =
      ledger-persist t (masked range) st.s e.io d
        (with_keys st' (mark_used auth e.now st'.s.auth_keys)) h
  key_spent-Steps auth (err x) st' h = h

  saved-Steps :
      (r : Result Device) (st' : Store)
      → Steps t range st st'
      → Steps t range st (saved t e (r, st')).1
  saved-Steps (ok d) st' h = ledger-persist t (masked range) st.s e.io d st' h
  saved-Steps (err x) st' h = h

  create_device-Steps :
      (hostname pub_key owner : Text)
      → t.parse_prefix st.s.cidr ≡ some range
      → get pub_key st.s.devices ≡ none
      → Steps t range st (create_device t e hostname pub_key owner st).1
  unfolding create_device
  create_device-Steps hostname pub_key owner parsed new =
      elim (allocate_ip_cases t st.s range parsed) [
        | inl (a, found, first) ↦
            rw (found, create_device)
              (ledger-put t (masked range) pub_key
                (new_device e hostname pub_key owner (t.addr_string a)) a st.s new first refl)
        | inr (full, all) ↦ rw (full, create_device) unchanged
      ]

  renamed-Steps :
      (hostname pub_key : Text) (d : Device)
      → Steps t range st (renamed t e hostname pub_key d st).1
  unfolding renamed
  renamed-Steps hostname pub_key d =
      elim (Bool-cases (not (is_blank hostname) && not (text_eq d.hostname hostname))) [
        | inl q ↦ rw q (
            ledger-persist t (masked range) st.s e.io (set_hostname hostname d) _ (
              ledger-modify t (masked range) pub_key (set_hostname hostname) st.s
                (set_hostname-KeepsIdentity t hostname)))
        | inr q ↦ rw q unchanged
      ]

  enroll_with-Steps :
      (auth hostname pub_key : Text) (k : Option AuthKey)
      → t.parse_prefix st.s.cidr ≡ some range
      → get pub_key st.s.devices ≡ none
      → Steps t range st (enroll_with t e auth hostname pub_key k st).1
  unfolding enroll_with
  enroll_with-Steps auth hostname pub_key none parsed new = unchanged
  enroll_with-Steps auth hostname pub_key (some k) parsed new =
      let (r, st') = create_device t e hostname pub_key k.owner st in
      key_spent-Steps auth r st' (create_device-Steps hostname pub_key k.owner parsed new)

  register_device-Steps :
      (auth hostname pub_key : Text)
      → t.parse_prefix st.s.cidr ≡ some range
      → Steps t range st (register_device t e auth hostname pub_key st).1
  unfolding register_device
  register_device-Steps auth hostname pub_key parsed =
      elim (Option-cases (get pub_key st.s.devices)) [
        | inl q ↦ rw (q, register_device) (enroll_with-Steps auth hostname pub_key _ parsed q)
        | inr (d, q) ↦ rw (q, register_device) (renamed-Steps hostname pub_key d)
      ]

  updated_sso-Steps :
      (hostname pub_key owner : Text) (d : Device)
      → Steps t range st (updated_sso t e hostname pub_key owner d st).1
  unfolding updated_sso
  updated_sso-Steps hostname pub_key owner d =
      elim (Bool-cases (sso_changed t e hostname owner d)) [
        | inl q ↦ rw q (
            ledger-persist t (masked range) st.s e.io _ _ (
              ledger-modify t (masked range) pub_key _ st.s (sso-KeepsIdentity t e hostname owner)))
        | inr q ↦ rw q unchanged
      ]

  register_device_sso-Steps :
      (hostname pub_key owner : Text)
      → t.parse_prefix st.s.cidr ≡ some range
      → Steps t range st (register_device_sso t e hostname pub_key owner st).1
  unfolding register_device_sso
  register_device_sso-Steps hostname pub_key owner parsed =
      elim (Option-cases (get pub_key st.s.devices)) [
        | inl q ↦
            let (r, st') = create_device t e hostname pub_key owner st in
            rw (q, register_device_sso)
              (saved-Steps r st' (create_device-Steps hostname pub_key owner parsed q))
        | inr (d, q) ↦ rw (q, register_device_sso) (updated_sso-Steps hostname pub_key owner d)
      ]

  create_auth_key_for-Steps :
      (owner : Text) (reusable : Bool) (ttl : Duration)
      → Steps t range st (create_auth_key_for e owner reusable ttl st).1
  unfolding create_auth_key_for
  create_auth_key_for-Steps owner reusable ttl =
      ledger-persist t (masked range) st.s e.io _ _ (ledger_same t (masked range) st.s _ refl refl)

  rotate_token_if_due-Steps :
      (pub_key : Text) → Steps t range st (rotate_token_if_due e pub_key st).1
  unfolding rotate_token_if_due
  rotate_token_if_due-Steps pub_key = elim (Option-cases (get pub_key st.s.devices)) [
    | inl q ↦ rw (q, rotate_token_if_due) unchanged
    | inr (d, q) ↦
        rw (q, rotate_token_if_due)
          (elim (Bool-cases (since_lt e.now d.token_issued_at token_rotate_after)) [
            | inl fresh ↦ rw fresh unchanged
            | inr due ↦ rw due (
                ledger-persist t (masked range) st.s e.io _ _ (
                  ledger-modify t (masked range) pub_key (rotated e) st.s
                    (rotated-KeepsIdentity t e)))
          ])
  ]

  module _ (u : Unicode) where
    touch_device-Steps :
        (pub_key endpoint : Text) (reported advertised : Option (List Text))
        → Steps t range st (touch_device t u e pub_key endpoint reported advertised st).1
    unfolding touch_device
    touch_device-Steps pub_key endpoint reported advertised =
        elim (Option-cases (get pub_key st.s.devices)) [
          | inl q ↦ rw (q, touch_device) unchanged
          | inr (d, q) ↦
              rw (q, touch_device)
                (ledger-persist t (masked range) st.s e.io tt _ (
                  ledger-modify t (masked range) pub_key _ st.s
                    (touched-KeepsIdentity t u e.now endpoint reported advertised)))
        ]

    approve-Steps :
        (target : Text) (r : Result (List Text)) → Steps t range st (approve t u e target st r).1
    approve-Steps target (err x) = unchanged
    approve-Steps target (ok rs) =
        elim (Option-cases (find_entry (designates target) st.s.devices)) [
          | inl q ↦ rw (q, approve) unchanged
          | inr ((k, d), q) ↦
              rw (q, approve)
                (ledger-persist t (masked range) st.s e.io (set_approved rs d) _ (
                  ledger-modify t (masked range) k (set_approved rs) st.s
                    (set_approved-KeepsIdentity t rs)))
        ]

  removed-Steps :
      (missing : Result Device) (o : Option (Text × Device))
      → Steps t range st (removed e missing st o).1
  removed-Steps missing none = unchanged
  removed-Steps missing (some (k, d)) =
      ledger-persist t (masked range) st.s e.io d _ (ledger-delete t (masked range) k st.s)

  -- Every call does to the ledger what an abstract step may do.
  perform-Steps :
      (u : Unicode) (c : Call)
      → t.parse_prefix st.s.cidr ≡ some range
      → Steps t range st (perform t u e c st)
  unfolding perform set_approved_routes remove_device remove_owned_device
  perform-Steps u (create_key owner reusable ttl) p = create_auth_key_for-Steps owner reusable ttl
  perform-Steps u (register auth hostname pub_key) p = register_device-Steps auth hostname pub_key p
  perform-Steps u (register_sso hostname pub_key owner) p =
      register_device_sso-Steps hostname pub_key owner p
  perform-Steps u (rotate pub_key) p = rotate_token_if_due-Steps pub_key
  perform-Steps u (touch pub_key endpoint reported advertised) p =
      touch_device-Steps u pub_key endpoint reported advertised
  perform-Steps u (approve_routes target routes) p =
      approve-Steps u target (normalize_all t u routes)
  perform-Steps u (remove target) p = removed-Steps _ _
  perform-Steps u (remove_owned owner target) p = removed-Steps _ _

module _ (t : NetText) (u : Unicode) (range : Prefix) where
  history_onto :
      (cs : List (Env × Call)) (st : Store) (l : Ledger)
      → t.parse_prefix st.s.cidr ≡ some range
      → LedgerRun t range l (ledger st.s)
      → LedgerRun t range l (ledger (history t u cs st).s)
  unfolding history
  history_onto [] st l p run = run
  history_onto ((e, c) ∷ cs) st l p run =
      let (kept, step) = perform-Steps t range e st u c p in
      history_onto cs (perform t u e c st) l (rw kept p) (next run step)

  -- The store implements a ledger of addresses: seen only by which public key has which address, any
  -- history of calls on a store whose range parses, whatever their saves do, is a run of steps each
  -- of which leaves the ledger alone, gives a machine without an address a host address of the range
  -- that nobody has, or takes one machine out.
  pub history_refines :
      (cs : List (Env × Call)) (st : Store)
      → t.parse_prefix st.s.cidr ≡ some range
      → LedgerRun t range (ledger st.s) (ledger (history t u cs st).s)
  history_refines cs st p = history_onto cs st (ledger st.s) p here
