-- ===== src/Control/Sound/Ledger.antt =====
-- The store as its clients see it, a ledger of addresses: which public key has which address. How
-- the machines are kept, their order and everything else about them is forgotten.
use omniup_vpn.Base.{
  ◌≡◌, ◌≢◌, refl, inl, inr, false, Option, none, some, [], ◌∷◌, arith, Text, text_key, text_eq,
  if◌then◌else◌, Option-cases,
}
use mathlib.Core.Option
use omniup_vpn.Base.Map.{Map, get, put, delete, modify, All-get, get-put, get-delete}
use omniup_vpn.Net.{Prefix, Addr, InWidth}
use omniup_vpn.NetText.{NetText}
use omniup_vpn.Control.State.{Device, Store, StateFile, SaveSteps, persist}
use omniup_vpn.Control.State.Durable.{persist-s}
use omniup_vpn.Control.Alloc.{used_in}
use omniup_vpn.Control.Alloc.Lowest.{IsHost}
use omniup_vpn.Control.Alloc.Whole.{IsFirstFree}
use omniup_vpn.Control.Sound.{KeepsIdentity, OtherIp, in_use-OtherIp}

abbrev pub Ledger : Type 0
Ledger = Text → Option Text

abbrev pub ip_of : Device → Text
ip_of d = d.ip

unfoldable pub ledger : StateFile → Ledger
ledger s k = Option.map ip_of (get k s.devices)

-- What one call may do to the ledger: nothing, give a machine that has no address one that is free,
-- or take a machine out. An address never passes from one machine to another, and none is changed.
pub data LedgerStep (t : NetText) (range : Prefix) : Ledger → Ledger → Type 0 where
  stutter : (l l' : Ledger) → ((j : Text) → l' j ≡ l j) → LedgerStep t range l l'
  assign :
      (l l' : Ledger) (k : Text) (a : Addr)
      → l k ≡ none
      → InWidth a
      → IsHost range a
      → ((j : Text) → l j ≢ some (t.addr_string a))
      → ((j : Text) → l' j ≡ (if text_eq k j then some (t.addr_string a) else l j))
      → LedgerStep t range l l'
  release :
      (l l' : Ledger) (k : Text)
      → ((j : Text) → l' j ≡ (if text_eq k j then none else l j))
      → LedgerStep t range l l'

get-modify_ip :
    (k j : Text) (f : Device → Device) (m : Map Text Device)
    → KeepsIdentity f
    → Option.map ip_of (get j (modify k f m)) ≡ Option.map ip_of (get j m)
unfolding get modify
get-modify_ip k j f [] keep = refl
get-modify_ip k j f ((i, d) ∷ m) keep = ground (arith, get-modify_ip k j f m keep, keep.same_ip d)

module _ (t : NetText) (range : Prefix) where
  -- The range stays, and the ledger makes a step.
  abbrev pub Refines : StateFile → StateFile → Type 0
  Refines s s' = (s'.cidr ≡ s.cidr) × LedgerStep t range (ledger s) (ledger s')

  pub ledger_same : (s s' : StateFile) → s'.cidr ≡ s.cidr → s'.devices ≡ s.devices → Refines s s'
  unfolding ledger
  ledger_same s s' c e = (c, stutter (ledger s) (ledger s') (λ j. rw e refl))

  pub ledger-persist {ℓ} :
      {A : Type ℓ} (s : StateFile) (o : SaveSteps) (a : A) (st : Store)
      → Refines s st.s
      → Refines s (persist o a st).1.s
  ledger-persist s o a st h = rw (persist-s o a st) h

  pub ledger-modify :
      (k : Text) (f : Device → Device) (s : StateFile)
      → KeepsIdentity f
      → Refines s (record s { devices = modify k f s.devices })
  unfolding ledger
  ledger-modify k f s keep = (
    refl,
    stutter (ledger s) (ledger (record s { devices = modify k f s.devices }))
        (λ j. get-modify_ip k j f s.devices keep),
  )

  pub ledger-delete :
      (k : Text) (s : StateFile) → Refines s (record s { devices = delete k s.devices })
  unfolding ledger
  ledger-delete k s = (
    refl,
    release (ledger s) (ledger (record s { devices = delete k s.devices })) k
        (λ j. ground (arith, get-delete k j s.devices)),
  )

  not_leased :
      (s : StateFile) (a : Addr) (j : Text)
      → used_in t s a ≡ false
      → ledger s j ≢ some (t.addr_string a)
  unfolding ledger
  not_leased s a j free h = elim (Option-cases (get j s.devices)) [
    | inl q ↦ absurd (ground (arith, rw q at h))
    | inr (d, q) ↦
        All-get (OtherIp (t.addr_string a)) j s.devices d
          (in_use-OtherIp (t.addr_string a) s.devices free) q (ground (arith, rw q at h))
  ]

  pub ledger-put :
      (k : Text) (d : Device) (a : Addr) (s : StateFile)
      → get k s.devices ≡ none
      → IsFirstFree range (used_in t s) a
      → d.ip ≡ t.addr_string a
      → Refines s (record s { devices = put k d s.devices })
  unfolding ledger
  ledger-put k d a s new first e = (
    refl,
    assign (ledger s) (ledger (record s { devices = put k d s.devices })) k a (rw new refl)
        first.in_width first.is_host (λ j. not_leased s a j first.free)
        (λ j. ground (arith, get-put k j d s.devices)),
  )
