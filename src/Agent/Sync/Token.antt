-- ===== src/Agent/Sync/Token.antt =====
-- The token of the agent and that of the server, over the polls that are answered.
use omniup_vpn.Base.{
  ℕ, ◌≡◌, refl, sym, ◌∙◌, ap, inl, inr, Bool, true, false, Option, some, List, [], arith, Text,
  text_key, is_blank, if◌then◌else◌, Bool-cases,
}
use omniup_vpn.Base.Map.{get, modify, get-modify_same}
use omniup_vpn.NetText.{NetText}
use omniup_vpn.Unicode.{Unicode}
use omniup_vpn.Control.State.{
  Device, Store, Env, Result, ok, err, persist, since_lt, token_rotate_after,
}
use omniup_vpn.Control.State.{Disk, SaveSteps, persist_result, save}
use omniup_vpn.Control.Devices.{with_devices}
use omniup_vpn.Control.State.Durable.{persist-s}
use omniup_vpn.Control.Fleet.{rotated, rotate_token_if_due, touched, touch_device}
use omniup_vpn.Control.Api.{
  NetMap, PollRequest, reply, handle_poll, after_touch, answer_map, net_map, observed,
}
use omniup_vpn.Agent.Client.{done, call}
use omniup_vpn.Agent.Sync.{
  Agent, Setup, Round, Parsers, poll_request, with_relay, with_stun, with_token, with_map,
  after_peers, applied, sync, ready,
}

-- The machine's token in the store is the agent's.
abbrev pub InStep : Text → Store → Text → Type 0
InStep pub_key st token = (d : Device) × (get pub_key st.s.devices ≡ some d) × (d.token ≡ token)

-- What the agent goes on with.
abbrev pub next_token : Text → Text → Text
next_token old tok = if is_blank tok then old else tok

answered_token :
    (now : ℕ) (self : Device) (tok : Text) (st : Store) (nm : NetMap) (b : Bool × Disk)
    → (answer_map now self (persist_result tok st b)).0 ≡ reply nm
    → nm.new_token ≡ tok
unfolding net_map
answered_token now self tok st nm (true, d) h = ground arith
answered_token now self tok st nm (false, d) h = absurd (ground arith)

answered_persist :
    (io : SaveSteps) (now : ℕ) (self : Device) (tok : Text) (st : Store) (nm : NetMap)
    → (answer_map now self (persist io tok st)).0 ≡ reply nm
    → nm.new_token ≡ tok
unfolding persist
answered_persist io now self tok st nm h =
    answered_token now self tok st nm (save io st.s st.disk) h

InStep-rotate_token_if_due :
    (e : Env) (now : ℕ) (self d : Device) (st : Store) (nm : NetMap)
    → get self.public_key st.s.devices ≡ some d
    → (answer_map now self (rotate_token_if_due e self.public_key st)).0 ≡ reply nm
    → InStep self.public_key
        (rotate_token_if_due e self.public_key st).1
        (next_token d.token nm.new_token)
unfolding rotate_token_if_due
InStep-rotate_token_if_due e now self d st nm known h =
    elim (Bool-cases (since_lt e.now d.token_issued_at token_rotate_after)) [
      | inl young ↦
          let answered : reply (net_map now [] self st) ≡ reply nm =
            rw (known, rotate_token_if_due, young) at h in
          let blank : [] ≡ nm.new_token = unfold net_map in (ground arith) in
          rw (known, rotate_token_if_due) (rw (young, ← blank) (d, known, refl))
      | inr due ↦
          let f = rotated e in
          let st' = with_devices st (modify self.public_key f st.s.devices) in
          let tok : nm.new_token ≡ (f d).token =
            answered_persist e.io now self (f d).token st' nm
              (rw (known, rotate_token_if_due, due) at h) in
          rw (known, rotate_token_if_due)
            (rw (due, tok)
              (f d, rw persist-s (get-modify_same self.public_key f st.s.devices d known), refl))
    ]

-- The answer leaves the store as the rotation did.
InStep-answer_map :
    (now : ℕ) (self : Device) (nm : NetMap) (old : Text) (res : Result Text) (st : Store)
    → InStep self.public_key st (next_token old nm.new_token)
    → InStep self.public_key (answer_map now self (res, st)).1 (next_token old nm.new_token)
InStep-answer_map now self nm old (ok tok) st h = h
InStep-answer_map now self nm old (err x) st h = h

InStep-after_touch :
    (e : Env) (now : ℕ) (self d : Device) (st : Store) (nm : NetMap) (r : Result (Unit {0}))
    → get self.public_key st.s.devices ≡ some d
    → (after_touch e now self (r, st)).0 ≡ reply nm
    → InStep self.public_key (after_touch e now self (r, st)).1 (next_token d.token nm.new_token)
InStep-after_touch e now self d st nm (err x) known h = absurd (ground arith)
InStep-after_touch e now self d st nm (ok _) known h =
    let (res, st') = rotate_token_if_due e self.public_key st in
    InStep-answer_map now self nm d.token res st'
      (InStep-rotate_token_if_due e now self d st nm known h)

module _ (t : NetText) (u : Unicode) where
  InStep-handle_poll :
      (e e' : Env) (now : ℕ) (host : Option Text) (r : PollRequest) (self d : Device) (st : Store)
      (nm : NetMap)
      → get self.public_key st.s.devices ≡ some d
      → (handle_poll t u e e' now host (some r) self st).0 ≡ reply nm
      → InStep self.public_key
          (handle_poll t u e e' now host (some r) self st).1
          (next_token d.token nm.new_token)
  unfolding handle_poll touch_device
  InStep-handle_poll e e' now host r self d st nm known h =
      let f = touched t u e.now (observed host r.listen_port) r.endpoints r.advertised_routes in
      let out =
        touch_device t u e self.public_key (observed host r.listen_port) r.endpoints
          r.advertised_routes st in
      let known' : get self.public_key out.1.s.devices ≡ some (f d) =
        rw (known, touch_device)
          (rw persist-s (get-modify_same self.public_key f st.s.devices d known)) in
      InStep-after_touch e' now self (f d) out.1 nm out.0 known' h

module _ (ps : Parsers) (u : Unicode) (o : Setup) (r : Round) where
  token-after_peers :
      (nm : NetMap) (subnets : List Text) (a : Agent) (out : Bool × List Text)
      → (after_peers ps u o r nm subnets a out).token ≡ a.token
  unfolding applied
  token-after_peers nm subnets a (true, known) = ground arith
  token-after_peers nm subnets a (false, known) = refl

  token-with_map : (nm : NetMap) (a : Agent) → (with_map ps u o r nm a).token ≡ a.token
  unfolding with_map
  token-with_map nm a = token-after_peers nm _ a _

  token-ready : (a : Agent) → (ready ps u o r a).token ≡ a.token
  unfolding with_stun with_relay
  token-ready a = ground arith

  token-with_token :
      (tok : Text) (a : Agent) → (with_token r.io tok a).token ≡ next_token a.token tok
  unfolding with_token
  token-with_token tok a = ground arith

  -- After a round whose poll is answered, the agent goes on with the new token, or with its old one
  -- if the answer has none, whatever else fails in the round.
  token-sync :
      (a : Agent) (nm : NetMap)
      → call (r.exchange (poll_request o (ready ps u o r a))) ≡ done nm
      → (sync ps u o r a).token ≡ next_token a.token nm.new_token
  unfolding sync
  token-sync a nm h =
      rw (h, sync)
        (token-with_map nm (with_token r.io nm.new_token (ready ps u o r a))
          ∙ token-with_token nm.new_token (ready ps u o r a)
          ∙ ap (λ old. next_token old nm.new_token) (token-ready a))

-- The agent and the server stay in step: when the agent has the token that the store has for its
-- machine, and the server's handler of the poll answers the request that the agent sends in a round,
-- and that answer arrives, then after the round the agent again has the token that the store has
-- for the machine, whether or not the token was rotated and whatever else failed on either side, the
-- saves among it.
pub sync-InStep :
    (t : NetText) (u u' : Unicode) (ps : Parsers) (o : Setup) (r : Round) (a : Agent) (e e' : Env)
    (now : ℕ) (host : Option Text) (self : Device) (st : Store) (nm : NetMap)
    → InStep self.public_key st a.token
    → (handle_poll t u e e' now host (some (poll_request o (ready ps u' o r a))) self st).0
      ≡ reply nm
    → call (r.exchange (poll_request o (ready ps u' o r a))) ≡ done nm
    → InStep self.public_key
        (handle_poll t u e e' now host (some (poll_request o (ready ps u' o r a))) self st).1
        (sync ps u' o r a).token
sync-InStep t u u' ps o r a e e' now host self st nm (d, known, same) h got =
    let (d', g, e'') =
      InStep-handle_poll t u e e' now host (poll_request o (ready ps u' o r a)) self d st nm known
        h in
    (
      d',
      g,
      e'' ∙ ap (λ old. next_token old nm.new_token) same ∙ sym (token-sync ps u' o r a nm got),
    )
