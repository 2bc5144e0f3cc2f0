-- ===== src/Agent/Endpoints/Fallback.antt =====
-- When a peer is moved to the relay.
use omniup_vpn.Base.{
  ℕ, ◌+◌, ◌≤◌, ◌≡◌, ◌≢◌, refl, inl, inr, ◌∙◌, Bool, true, false, not, ◌&&◌, ◌||◌, Option, none,
  some, List, [], ◌∷◌, ltb, arith, Text, text_key, text_eq, text_eq_iff, Bool-cases,
}
use omniup_vpn.Base.Map.{Map, get, Unique, get-put, get-delete}
use omniup_vpn.Net.{AddrPort}
use omniup_vpn.Control.Fleet.{mem_text}
use omniup_vpn.Wgnet.Device.Routes.{mem-cons}
use omniup_vpn.Agent.Routes.Filtered.{mem_nil, mem-append}
use omniup_vpn.Agent.Endpoints.Probe.{moved, move_all, pinged, send_all, probe}
use omniup_vpn.Agent.Endpoints.{
  EndpointManager, Plan, relay_failed, ping_sent, or_zero, is_relayed, is_fresh, visit, visit_all,
  plan, count_round, relay_after_rounds,
}

-- What a manager says of one peer.
abbrev pub rounds : Text → EndpointManager → ℕ
rounds k m = or_zero (get k m.disconnected)

-- The same as far as the peer `k` is concerned.
pub record SameFor (k : Text) (m m' : EndpointManager) : Type 0 where
  pub same_rounds : rounds k m' ≡ rounds k m
  pub same_relayed : is_relayed k m' ≡ is_relayed k m
  pub same_relay_ok : m'.relay_ok ≡ m.relay_ok

module _ (parse : Text → Option AddrPort) (now : ℕ) (handshakes : Map Text ℕ) (k : Text) where
  told-visit :
      (j : Text) (cs : List Text) (p : Plan)
      → j ≢ k
      → mem_text k (visit parse now handshakes j cs p).to_relay ≡ mem_text k p.to_relay
  unfolding visit count_round
  told-visit j cs p other = ground (
    arith,
    text_eq_iff j k,
    mem-append k p.to_relay (j ∷ []),
    mem-append k p.to_relay [],
    mem-cons k j [],
    mem_nil k,
  )

  told-visit_all :
      (ps : Map Text (List Text)) (p : Plan)
      → get k ps ≡ none
      → mem_text k (visit_all parse now handshakes ps p).to_relay ≡ mem_text k p.to_relay
  unfolding visit_all get
  told-visit_all [] p g = refl
  told-visit_all ((j, cs) ∷ ps) p g =
      told-visit_all ps (visit parse now handshakes j cs p) (ground (arith, text_eq_iff j k))
      ∙ told-visit j cs p (λ e. ground (arith, text_eq_iff j k))

  visit-SameFor :
      (j : Text) (cs : List Text) (p : Plan)
      → j ≢ k
      → SameFor k p.manager (visit parse now handshakes j cs p).manager
  unfolding visit count_round
  visit-SameFor j cs p other = record {
    same_rounds = ground (
      arith,
      text_eq_iff j k,
      get-put j k 0 p.manager.disconnected,
      get-put j k (or_zero (get j p.manager.disconnected) + 1) p.manager.disconnected,
    );
    same_relayed = ground (arith, text_eq_iff j k, get-put j k true p.manager.on_relay);
    same_relay_ok = ground arith;
  }

  visit_all-SameFor :
      (ps : Map Text (List Text)) (p : Plan)
      → get k ps ≡ none
      → SameFor k p.manager (visit_all parse now handshakes ps p).manager
  unfolding visit_all get
  visit_all-SameFor [] p g = record {
    same_rounds = refl;
    same_relayed = refl;
    same_relay_ok = refl;
  }
  visit_all-SameFor ((j, cs) ∷ ps) p g =
      let other : j ≢ k = λ e. ground (arith, text_eq_iff j k) in
      let one = visit-SameFor j cs p other in
      let rest =
        visit_all-SameFor ps (visit parse now handshakes j cs p)
          (ground (arith, text_eq_iff j k)) in
      record {
        same_rounds = rest.same_rounds ∙ one.same_rounds;
        same_relayed = rest.same_relayed ∙ one.same_relayed;
        same_relay_ok = rest.same_relay_ok ∙ one.same_relay_ok;
      }

  -- A round for a peer without a fresh handshake, from a plan that does not have it moved yet.
  abbrev pub Counted : EndpointManager → Plan → Type 0
  Counted m p =
      let m' = p.manager in
      (rounds k m' ≡ rounds k m + 1)
      × (is_relayed k m'
          ≡ (is_relayed k m || (m.relay_ok && ltb relay_after_rounds (rounds k m + 1))))
      × (mem_text k p.to_relay
          ≡ (not (is_relayed k m) && (m.relay_ok && ltb relay_after_rounds (rounds k m + 1))))

  visit-Counted :
      (cs : List Text) (p : Plan)
      → is_fresh now (get k handshakes) ≡ false
      → mem_text k p.to_relay ≡ false
      → Counted p.manager (visit parse now handshakes k cs p)
  unfolding visit count_round
  visit-Counted cs p stale new = (
    ground (
      arith,
      stale,
      text_eq_iff k k,
      get-put k k (or_zero (get k p.manager.disconnected) + 1) p.manager.disconnected,
    ),
    ground (arith, stale, text_eq_iff k k, get-put k k true p.manager.on_relay),
    ground (
      arith,
      stale,
      new,
      text_eq_iff k k,
      mem-append k p.to_relay (k ∷ []),
      mem-append k p.to_relay [],
      mem-cons k k [],
      mem_nil k,
    ),
  )

  visit_all-Counted :
      (ps : Map Text (List Text)) (cs : List Text) (p : Plan)
      → Unique ps
      → get k ps ≡ some cs
      → is_fresh now (get k handshakes) ≡ false
      → mem_text k p.to_relay ≡ false
      → Counted p.manager (visit_all parse now handshakes ps p)
  unfolding visit_all get
  visit_all-Counted [] cs p u g stale new = absurd (ground arith)
  visit_all-Counted ((j, ds) ∷ ps) cs p u g stale new = elim (Bool-cases (text_eq j k)) [
    | inl q ↦
        let same : j ≡ k = (text_eq_iff j k).0 q in
        let one = visit-Counted ds p stale new in
        let absent : get k ps ≡ none = rw (← same) u.0 in
        let rest = visit_all-SameFor ps (visit parse now handshakes k ds p) absent in
        let told = told-visit_all ps (visit parse now handshakes k ds p) absent in
        rw same (rest.same_rounds ∙ one.0, rest.same_relayed ∙ one.1, told ∙ one.2)
    | inr q ↦
        let other : j ≢ k = λ e. ground (arith, text_eq_iff j k) in
        let one = visit-SameFor j ds p other in
        let rest =
          visit_all-Counted ps cs (visit parse now handshakes j ds p) u.1
            (ground (arith, rw q at g)) stale (told-visit j ds p other ∙ new) in
        ground (arith, one.same_rounds, one.same_relayed, one.same_relay_ok, rest)
  ]

-- The engine's answers to the moves leave the peer's rounds alone, and take its mark back if it is one
-- of those moved and the engine refuses.
rounds-move_all :
    (set_ok : Text → Bool) (k : Text) (ks : List Text) (m : EndpointManager)
    → rounds k (move_all set_ok ks m) ≡ rounds k m
unfolding move_all relay_failed
rounds-move_all set_ok k [] m = refl
rounds-move_all set_ok k (j ∷ ks) m =
    ground (arith, rounds-move_all set_ok k ks (moved (set_ok j) j m))

relayed-moved :
    (set_ok : Text → Bool) (k j : Text) (m : EndpointManager)
    → is_relayed k (moved (set_ok j) j m) ≡ (is_relayed k m && not (text_eq j k && not (set_ok k)))
unfolding relay_failed
relayed-moved set_ok k j m = ground (arith, text_eq_iff j k, get-delete j k m.on_relay)

relayed-move_all :
    (set_ok : Text → Bool) (k : Text) (ks : List Text) (m : EndpointManager)
    → is_relayed k (move_all set_ok ks m)
      ≡ (is_relayed k m && not (mem_text k ks && not (set_ok k)))
unfolding move_all
relayed-move_all set_ok k [] m = ground (arith, mem_nil k)
relayed-move_all set_ok k (j ∷ ks) m = ground (
  arith,
  relayed-move_all set_ok k ks (moved (set_ok j) j m),
  relayed-moved set_ok k j m,
  mem-cons k j ks,
)

-- Sending the probes changes neither.
sent-SameFor :
    (now : ℕ) (k : Text) (ps : List (Text × AddrPort)) (ids : List (Option Text))
    (m : EndpointManager)
    → (rounds k (send_all now ps ids m) ≡ rounds k m)
      × (is_relayed k (send_all now ps ids m) ≡ is_relayed k m)
unfolding send_all ping_sent
sent-SameFor now k [] ids m = (refl, refl)
sent-SameFor now k (p ∷ ps) [] m = (refl, refl)
sent-SameFor now k (p ∷ ps) (none ∷ ids) m = sent-SameFor now k ps ids m
sent-SameFor now k ((j, ap) ∷ ps) (some id ∷ ids) m =
    sent-SameFor now k ps ids (pinged now (j, ap) (some id) m)

-- No handshake is known, or the last one is 135 seconds old or older; the clock counts nanoseconds.
abbrev pub IsStale : ℕ → Option ℕ → Type 0
IsStale now none = Unit
IsStale now (some hs) = hs + 135_000_000_000 ≤ now

is_fresh-IsStale : (now : ℕ) (h : Option ℕ) → IsStale now h → is_fresh now h ≡ false
is_fresh-IsStale now none s = refl
is_fresh-IsStale now (some hs) s = ground arith

-- Without a handshake of the last 135 seconds, a whole call of Probe counts one more round for the
-- peer. The engine is told to reach it through the relay exactly when it is not on the relay yet, the
-- relay answers, and this is at least the third such round; and the peer is on the relay from then on
-- exactly when it already was, or when the engine is told so and takes it. (The peer is on the map,
-- where no key stands twice.)
pub probe_fallback :
    (parse : Text → Option AddrPort) (now : ℕ) (set_ok : Text → Bool) (ids : List (Option Text))
    (handshakes : Map Text ℕ) (m : EndpointManager) (k : Text) (cs : List Text)
    → Unique m.peers
    → get k m.peers ≡ some cs
    → IsStale now (get k handshakes)
    → let n = rounds k m + 1 in
      let told = not (is_relayed k m) && (m.relay_ok && ltb 2 n) in
      let after = probe parse now set_ok ids (some handshakes) m in
      (rounds k after ≡ n)
      × (mem_text k (plan parse now handshakes m).to_relay ≡ told)
      × (is_relayed k after ≡ (is_relayed k m || (told && set_ok k)))
unfolding plan probe
probe_fallback parse now set_ok ids handshakes m k cs u g stale =
    let p = plan parse now handshakes m in
    let (counted, marked, told) =
      visit_all-Counted parse now handshakes k m.peers cs _ u g
        (is_fresh-IsStale now (get k handshakes) stale) (mem_nil k) in
    let moved = move_all set_ok p.to_relay p.manager in
    let sent = sent-SameFor now k p.to_send ids moved in
    (
      sent.0 ∙ rounds-move_all set_ok k p.to_relay p.manager ∙ counted,
      told,
      ground (arith, sent.1, relayed-move_all set_ok k p.to_relay p.manager, marked, told),
    )
