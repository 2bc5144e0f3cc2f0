-- ===== src/Control/Sound.antt =====
-- The well-formedness of the store's machines: the map is keyed by public key, and every machine
-- has a host address of the range that no other machine has.
pub mod Enrol
pub mod Heartbeat
pub mod Calls
pub mod Ledger
pub mod Refinement
use omniup_vpn.Base.{
  ℕ, ◌≡◌, ◌≢◌, refl, sym, ◌∙◌, Bool, true, false, Option, none, some, List, [], ◌∷◌, arith, Text,
  text_key, text_eq, text_eq_iff,
}
use omniup_vpn.Base.Map.{
  Map, get, put, delete, modify, Unique, All, delete-Unique, put-Unique, modify-Unique, All-delete,
  All-modify,
}
use omniup_vpn.Net.{Prefix, Addr, InWidth, masked}
use omniup_vpn.NetText.{NetText}
use omniup_vpn.Control.State.{Device, StateFile}
use omniup_vpn.Control.Alloc.{in_use, used_in}
use omniup_vpn.Control.Alloc.Lowest.{IsHost}
use omniup_vpn.Control.Alloc.Whole.{IsFirstFree}

-- The address of a machine is the text of a host address of the range.
abbrev pub HasHost : NetText → Prefix → Text → Type 0
HasHost t range ip = (a : Addr) × InWidth a × IsHost (masked range) a × (ip ≡ t.addr_string a)

abbrev pub OtherIp : Text → Text → Device → Type 0
OtherIp ip k d = d.ip ≢ ip

abbrev pub DistinctIps : Map Text Device → Type 0
DistinctIps [] = Unit
DistinctIps ((k, d) ∷ m) = All (OtherIp d.ip) m × DistinctIps m

pub record IsSound (t : NetText) (s : StateFile) : Type 0 where
  pub range : Prefix
  pub parsed : t.parse_prefix s.cidr ≡ some range
  pub unique : Unique s.devices
  pub keyed : All (λ k d. d.public_key ≡ k) s.devices
  pub hosted : All (λ k d. HasHost t range d.ip) s.devices
  pub distinct : DistinctIps s.devices

delete-DistinctIps : (k : Text) (m : Map Text Device) → DistinctIps m → DistinctIps (delete k m)
unfolding delete
delete-DistinctIps k [] h = h
delete-DistinctIps k ((j, d) ∷ m) h =
    ground (arith, delete-DistinctIps k m, All-delete (OtherIp d.ip) k m)

-- A field update that leaves the key and the address alone.
pub record KeepsIdentity (f : Device → Device) : Type 0 where
  pub same_key : (d : Device) → (f d).public_key ≡ d.public_key
  pub same_ip : (d : Device) → (f d).ip ≡ d.ip

module _ (k : Text) (f : Device → Device) (keep : KeepsIdentity f) where
  modify-OtherIp :
      (ip : Text) (m : Map Text Device) → All (OtherIp ip) m → All (OtherIp ip) (modify k f m)
  modify-OtherIp ip m h = All-modify (OtherIp ip) k f (λ j v o. rw (keep.same_ip v) o) m h

  modify-DistinctIps : (m : Map Text Device) → DistinctIps m → DistinctIps (modify k f m)
  unfolding modify
  modify-DistinctIps [] h = h
  modify-DistinctIps ((j, d) ∷ m) h = ground (
    arith,
    modify-DistinctIps m,
    modify-OtherIp d.ip m,
    modify-OtherIp (f d).ip m,
    keep.same_ip d,
  )

-- An address that is not in use differs from that of every machine.
in_use-OtherIp : (ip : Text) (m : Map Text Device) → in_use ip m ≡ false → All (OtherIp ip) m
unfolding in_use
in_use-OtherIp ip [] h = tt
in_use-OtherIp ip ((k, d) ∷ m) h =
    (λ p. ground (arith, text_eq_iff d.ip ip), in_use-OtherIp ip m (ground arith))

module _ (t : NetText) (s : StateFile) (h : IsSound t s) where
  pub delete-IsSound : (k : Text) → IsSound t (record s { devices = delete k s.devices })
  delete-IsSound k = record {
    range = h.range;
    parsed = h.parsed;
    unique = delete-Unique k s.devices h.unique;
    keyed = All-delete (λ k d. d.public_key ≡ k) k s.devices h.keyed;
    hosted = All-delete (λ k d. HasHost t h.range d.ip) k s.devices h.hosted;
    distinct = delete-DistinctIps k s.devices h.distinct;
  }

  pub modify-IsSound :
      (k : Text) (f : Device → Device)
      → KeepsIdentity f
      → IsSound t (record s { devices = modify k f s.devices })
  modify-IsSound k f keep = record {
    range = h.range;
    parsed = h.parsed;
    unique = modify-Unique k f s.devices h.unique;
    keyed =
        All-modify (λ k d. d.public_key ≡ k) k f (λ j v p. keep.same_key v ∙ p) s.devices h.keyed;
    hosted =
        All-modify (λ k d. HasHost t h.range d.ip) k f
          (λ j v (a, w, host, p). (a, w, host, keep.same_ip v ∙ p)) s.devices h.hosted;
    distinct = modify-DistinctIps k f keep s.devices h.distinct;
  }

  -- A new machine with the address that the allocation found.
  pub put-IsSound :
      (d : Device) (a : Addr)
      → IsFirstFree (masked h.range) (used_in t s) a
      → d.ip ≡ t.addr_string a
      → IsSound t (record s { devices = put d.public_key d s.devices })
  put-IsSound d a first e =
      unfold put in
      record {
        range = h.range;
        parsed = h.parsed;
        unique = put-Unique d.public_key d s.devices h.unique;
        keyed = (refl, All-delete (λ k d. d.public_key ≡ k) d.public_key s.devices h.keyed);
        hosted = (
          (a, first.in_width, first.is_host, e),
          All-delete (λ k d. HasHost t h.range d.ip) d.public_key s.devices h.hosted,
        );
        distinct = (
          All-delete (OtherIp d.ip) d.public_key s.devices
              (rw e (in_use-OtherIp (t.addr_string a) s.devices first.free)),
          delete-DistinctIps d.public_key s.devices h.distinct,
        );
      }
