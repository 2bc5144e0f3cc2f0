-- ===== src/Control/Oidc/Vouched.antt =====
-- Who vouches for a machine that enrols through the identity provider.
use omniup_vpn.Base.{
  ℕ, ◌≡◌, refl, sym, ◌∙◌, inl, inr, true, none, some, List, [], ◌∷◌, ◌++◌, arith, Text, text_key,
  Bool-cases, text_eq, text_eq_iff,
}
use omniup_vpn.Base.Map.{Map, get, put, modify, Unique, All, All-delete, All-modify, All-modify_at}
use omniup_vpn.NetText.{NetText}
use omniup_vpn.Unicode.{Unicode}
use omniup_vpn.Control.State.{Device, Store, Env, ok}
use omniup_vpn.Control.Devices.{register_device_sso}
use omniup_vpn.Control.Oidc.Sessions.{
  OidcConfig, OidcProvider, EnrollSession, prune, is_expired, valid_session,
}
use omniup_vpn.Control.Oidc.Identity.{Identity, judge, accepted}
use omniup_vpn.Control.Oidc.Callback.{approve, response}
use omniup_vpn.Control.Oidc.Steps.{Flight, checking, refusing, approving, World, NotFlying}

module _ (t : NetText) (u : Unicode) (c : OidcConfig) where
  -- The machine was registered for an identity that the provider gave and the configuration admits.
  pub record Earned (public_key owner : Text) (d : Device) : Type 0 where
    pub who : Identity
    pub judged : judge u c who ≡ accepted owner
    pub env : Env
    pub hostname : Text
    pub before : Store
    pub after : Store
    pub registered : register_device_sso t env hostname public_key owner before ≡ (ok d, after)

  abbrev pub Vouched : EnrollSession → Type 0
  Vouched s =
      s.approved ≡ true
      → (d : Device) × (cidr : Text) × Earned s.public_key s.owner d
        × (s.result ≡ some (response d cidr))

  abbrev pub SameMachine : Text → EnrollSession → Text → EnrollSession → Type 0
  SameMachine id s k s' = k ≡ id → s'.public_key ≡ s.public_key

  abbrev pub IsBacked : Map Text EnrollSession → Flight → Type 0
  IsBacked m (checking id s) = All (SameMachine id s) m
  IsBacked m (refusing id r) = Unit
  IsBacked m (approving id s email d) = All (SameMachine id s) m × Earned s.public_key email d

  abbrev pub AllBacked : Map Text EnrollSession → List Flight → Type 0
  AllBacked m [] = Unit
  AllBacked m (f ∷ fs) = IsBacked m f × AllBacked m fs

  pub record IsGuarded (w : World) : Type 0 where
    pub same_cfg : w.provider.cfg ≡ c
    pub unique : Unique w.provider.sessions
    pub vouched : All (λ k s. Vouched s) w.provider.sessions
    pub backed : AllBacked w.provider.sessions w.flights

  pub IsBacked-front :
      (m : Map Text EnrollSession) (fs gs : List Flight) (f : Flight)
      → AllBacked m (fs ++ f ∷ gs)
      → IsBacked m f
  IsBacked-front m [] gs f h = h.0
  IsBacked-front m (g ∷ fs) gs f h = IsBacked-front m fs gs f h.1

  -- A flight may be replaced.
  pub backed_with :
      (m : Map Text EnrollSession) (fs gs : List Flight) (f g : Flight)
      → AllBacked m (fs ++ f ∷ gs)
      → IsBacked m g
      → AllBacked m (fs ++ g ∷ gs)
  backed_with m [] gs f g h new = (new, h.1)
  backed_with m (k ∷ fs) gs f g h new = (h.0, backed_with m fs gs f g h.1 new)

  pub backed_without :
      (m : Map Text EnrollSession) (fs gs : List Flight) (f : Flight)
      → AllBacked m (fs ++ f ∷ gs)
      → AllBacked m (fs ++ gs)
  backed_without m [] gs f h = h.1
  backed_without m (k ∷ fs) gs f h = (h.0, backed_without m fs gs f h.1)

  -- An update of sessions that keeps their machines.
  pub modify-AllBacked :
      (m : Map Text EnrollSession) (id : Text) (f : EnrollSession → EnrollSession)
      → ((s : EnrollSession) → (f s).public_key ≡ s.public_key)
      → (fs : List Flight) → AllBacked m fs
      → AllBacked (modify id f m) fs
  modify-AllBacked m id f keep [] h = h
  modify-AllBacked m id f keep (checking j s ∷ fs) h = (
    All-modify (SameMachine j s) id f (λ k v same e. keep v ∙ same e) m h.0,
    modify-AllBacked m id f keep fs h.1,
  )
  modify-AllBacked m id f keep (refusing j r ∷ fs) h = (tt, modify-AllBacked m id f keep fs h.1)
  modify-AllBacked m id f keep (approving j s email d ∷ fs) h = (
    (All-modify (SameMachine j s) id f (λ k v same e. keep v ∙ same e) m h.0.0, h.0.1),
    modify-AllBacked m id f keep fs h.1,
  )

  both :
      (m : Map Text EnrollSession) (id : Text) (s : EnrollSession)
      → All (λ k v. Vouched v) m
      → All (SameMachine id s) m
      → All (λ k v. Vouched v × SameMachine id s k v) m
  both [] id s hv hs = tt
  both ((k, v) ∷ m) id s hv hs = ((hv.0, hs.0), both m id s hv.1 hs.1)

  vouched_of :
      (m : Map Text EnrollSession) (id : Text) (s : EnrollSession)
      → All (λ k v. Vouched v × SameMachine id s k v) m
      → All (λ k v. Vouched v) m
  vouched_of [] id s h = tt
  vouched_of ((k, v) ∷ m) id s h = (h.0.0, vouched_of m id s h.1)

  -- The last region of a callback.
  pub approve-Vouched :
      (m : Map Text EnrollSession) (id : Text) (s : EnrollSession) (email : Text) (d : Device)
      (cidr : Text)
      → All (λ k v. Vouched v) m
      → All (SameMachine id s) m
      → Earned s.public_key email d
      → All (λ k v. Vouched v) (modify id (approve email d cidr) m)
  approve-Vouched m id s email d cidr hv hs earned =
      vouched_of (modify id (approve email d cidr) m) id s (
        All-modify_at (λ k v. Vouched v × SameMachine id s k v) id (approve email d cidr)
          (λ v h. ((λ yes. (d, cidr, rw (h.1 refl) earned, refl)), h.1)) m (both m id s hv hs))

  pub prune-All {κ} :
      (P : Text → EnrollSession → Type κ) (now : ℕ) (m : Map Text EnrollSession)
      → All P m
      → All P (prune now m)
  unfolding prune
  prune-All P now [] h = h
  prune-All P now ((k, s) ∷ m) h = elim (Bool-cases (is_expired now s)) [
    | inl q ↦ rw q (prune-All P now m h.1)
    | inr q ↦ rw q (h.0, prune-All P now m h.1)
  ]

  absent-prune :
      (k : Text) (now : ℕ) (m : Map Text EnrollSession)
      → get k m ≡ none
      → get k (prune now m) ≡ none
  unfolding prune get
  absent-prune k now [] h = refl
  absent-prune k now ((j, s) ∷ m) h = ground (arith, absent-prune k now m)

  pub prune-Unique : (now : ℕ) (m : Map Text EnrollSession) → Unique m → Unique (prune now m)
  unfolding prune
  prune-Unique now [] h = h
  prune-Unique now ((k, s) ∷ m) h = ground (arith, prune-Unique now m, absent-prune k now m)

  -- A new session under an identifier that no flight has.
  pub put-AllBacked :
      (m : Map Text EnrollSession) (now : ℕ) (id : Text) (new : EnrollSession) (fs : List Flight)
      → NotFlying id fs
      → AllBacked m fs
      → AllBacked (put id new (prune now m)) fs
  unfolding put
  put-AllBacked m now id new [] n h = h
  put-AllBacked m now id new (checking j s ∷ fs) n h = (
    (
      (λ e. absurd (n.0 (sym e))),
      All-delete (SameMachine j s) id (prune now m) (prune-All (SameMachine j s) now m h.0),
    ),
    put-AllBacked m now id new fs n.1 h.1,
  )
  put-AllBacked m now id new (refusing j r ∷ fs) n h = (tt, put-AllBacked m now id new fs n.1 h.1)
  put-AllBacked m now id new (approving j s email d ∷ fs) n h = (
    (
      (
        (λ e. absurd (n.0 (sym e))),
        All-delete (SameMachine j s) id (prune now m) (prune-All (SameMachine j s) now m h.0.0),
      ),
      h.0.1,
    ),
    put-AllBacked m now id new fs n.1 h.1,
  )

  absent-SameMachine :
      (m : Map Text EnrollSession) (id : Text) (s : EnrollSession)
      → get id m ≡ none
      → All (SameMachine id s) m
  unfolding get
  absent-SameMachine [] id s g = tt
  absent-SameMachine ((k, v) ∷ m) id s g =
      ((λ e. absurd (ground (arith, text_eq_iff k id))), absent-SameMachine m id s (ground arith))

  -- The session that a callback finds is the one under its identifier.
  pub found-SameMachine :
      (m : Map Text EnrollSession) (id : Text) (s : EnrollSession)
      → Unique m
      → get id m ≡ some s
      → All (SameMachine id s) m
  unfolding get
  found-SameMachine [] id s n g = tt
  found-SameMachine ((k, v) ∷ m) id s n g = elim (Bool-cases (text_eq k id)) [
    | inl q ↦
        let same : v ≡ s = ground (arith, rw q at g) in
        ((λ e. rw same refl), absent-SameMachine m id s (rw (← ((text_eq_iff k id).0 q)) n.0))
    | inr q ↦ (
      (λ e. absurd (ground (arith, text_eq_iff k id))),
      found-SameMachine m id s n.1 (ground (arith, rw q at g)),
    )
  ]

  pub valid_session-get :
      (now : ℕ) (id : Text) (p : OidcProvider) (s : EnrollSession)
      → valid_session now id p ≡ some s
      → get id p.sessions ≡ some s
  unfolding valid_session
  valid_session-get now id p s h = ground arith
