-- ===== src/Control/Oidc/Steps.antt =====
-- internal/control/oidc.go: the handlers as they interleave. A callback holds the lock twice, and the
-- store's lock in between, and other requests run between those regions: each region is a step.
use omniup_vpn.Base.{ℕ, ◌≡◌, ◌≢◌, some, List, [], ◌∷◌, ◌++◌, Text, text_key}
use omniup_vpn.Base.Map.{modify}
use omniup_vpn.NetText.{NetText}
use omniup_vpn.Unicode.{Unicode}
use omniup_vpn.Control.State.{Device, Store, Env, Error, ok, err}
use omniup_vpn.Control.Devices.{register_device_sso}
use omniup_vpn.Control.Sound.Calls.{Call, perform}
use omniup_vpn.Control.Oidc.Sessions.{
  OidcProvider, EnrollSession, EnrollStartRequest, Refusal, enrol_failed, open_enrolment,
  valid_session, with_enrolments,
}
use omniup_vpn.Control.Oidc.Identity.{Identity, judge, refused, accepted}
use omniup_vpn.Control.Oidc.Callback.{set_failure, approve}

-- A callback between two of its regions, with the session that its first one found.
pub data Flight : Type 0 where
  checking : Text → EnrollSession → Flight
  refusing : Text → Refusal → Flight
  approving : Text → EnrollSession → Text → Device → Flight

pub record World : Type 0 where
  pub provider : OidcProvider
  pub store : Store
  pub flights : List Flight

abbrev pub world : OidcProvider → Store → List Flight → World
world p st fs = record { provider = p; store = st; flights = fs }

abbrev pub flight_id : Flight → Text
flight_id (checking id s) = id
flight_id (refusing id r) = id
flight_id (approving id s email d) = id

-- The identifier that is drawn is in nobody's hands.
abbrev pub NotFlying : Text → List Flight → Type 0
NotFlying id [] = Unit
NotFlying id (f ∷ fs) = (flight_id f ≢ id) × NotFlying id fs

module _ (t : NetText) (u : Unicode) where
  -- A request of the four handlers, or a locked region of one.
  pub data Region : World → World → Type 0 where
    started :
        (now : ℕ) (id : Text) (r : EnrollStartRequest) (p : OidcProvider) (st : Store)
        (fs : List Flight)
        → NotFlying id fs
        → Region (world p st fs) (world (open_enrolment now id r p) st fs)
    began :
        (now : ℕ) (id : Text) (s : EnrollSession) (p : OidcProvider) (st : Store) (fs : List Flight)
        → valid_session now id p ≡ some s
        → Region (world p st fs) (world p st (checking id s ∷ fs))
    rejected :
        (who : Identity) (id : Text) (s : EnrollSession) (r : Refusal) (p : OidcProvider)
        (st : Store) (fs gs : List Flight)
        → judge u p.cfg who ≡ refused r
        → Region (world p st (fs ++ checking id s ∷ gs)) (world p st (fs ++ refusing id r ∷ gs))
    registered :
        (who : Identity) (e : Env) (id : Text) (s : EnrollSession) (email : Text) (d : Device)
        (p : OidcProvider) (st st' : Store) (fs gs : List Flight)
        → judge u p.cfg who ≡ accepted email
        → register_device_sso t e s.hostname s.public_key email st ≡ (ok d, st')
        → Region
            (world p st (fs ++ checking id s ∷ gs))
            (world p st' (fs ++ approving id s email d ∷ gs))
    unregistered :
        (who : Identity) (e : Env) (id : Text) (s : EnrollSession) (email : Text) (x : Error)
        (p : OidcProvider) (st st' : Store) (fs gs : List Flight)
        → judge u p.cfg who ≡ accepted email
        → register_device_sso t e s.hostname s.public_key email st ≡ (err x, st')
        → Region
            (world p st (fs ++ checking id s ∷ gs))
            (world p st' (fs ++ refusing id enrol_failed ∷ gs))
    gave_up :
        (id : Text) (r : Refusal) (p : OidcProvider) (st : Store) (fs gs : List Flight)
        → Region
            (world p st (fs ++ refusing id r ∷ gs))
            (world (with_enrolments p (modify id (set_failure r) p.sessions)) st (fs ++ gs))
    approved :
        (id : Text) (s : EnrollSession) (email : Text) (d : Device) (p : OidcProvider) (st : Store)
        (fs gs : List Flight)
        → Region (world p st (fs ++ approving id s email d ∷ gs)) (
            world
              (with_enrolments p (modify id (approve email d st.s.cidr) p.sessions))
              st
              (fs ++ gs))

  -- Between the regions the other handlers run: any call of the store's operations on machines.
  pub data Step : World → World → Type 0 where
    region : {v w : World} → Region v w → Step v w
    called :
        (e : Env) (c : Call) (p : OidcProvider) (st : Store) (fs : List Flight)
        → Step (world p st fs) (world p (perform t u e c st) fs)

  pub data Run (w : World) : World → Type 0 where
    here : Run w w
    then_step : {v x : World} → Run w v → Step v x → Run w x
