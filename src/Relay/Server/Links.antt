-- ===== src/Relay/Server/Links.antt =====
-- The two maps of the relay agree, so that a relayed packet bears the key of its sender.
use omniup_vpn.Base.{
  ℕ, ◌≡◌, refl, sym, inl, inr, Option, none, some, List, [], ◌∷◌, arith, Text, text_eq, text_eq_iff,
  text_key, Bool-cases, Option-cases,
}
use omniup_vpn.Base.Map.{Map, get, put, delete, get-put, get-delete}
use omniup_vpn.Net.{AddrPort, addr_port_eq, addr_port_eq_iff, addr_port_key}
use omniup_vpn.Relay.Frames.{parse_keyed, ProofFrame, parse_proof}
use omniup_vpn.Relay.Proof.{Crypto, verify_proof}
use omniup_vpn.Relay.Server.{
  Client, Server, Env, is_refresh, register, answers, forget_old, enter, prove, forward,
  on_register, on_forward, on_proof, handle, serve,
}

-- The key that an address stands for is registered at that address.
pub record IsLinked (s : Server) : Type 0 where
  pub link :
      (a : AddrPort) (k : Text)
      → get a s.by_addr ≡ some k
      → (c : Client) × (get k s.clients ≡ some c) × (c.addr ≡ a)

-- A write to the client of a key that stays at its address, or is at the address asked for.
put_client :
    (key k : Text) (new : Client) (a : AddrPort) (m : Map Text Client) (c : Client)
    → get k m ≡ some c
    → c.addr ≡ a
    → (key ≡ k → new.addr ≡ a)
    → (c' : Client) × (get k (put key new m) ≡ some c') × (c'.addr ≡ a)
put_client key k new a m c g at moved = elim (Bool-cases (text_eq key k)) [
  | inl same ↦ (new, rw (get-put, same), moved ((text_eq_iff key k).0 same))
  | inr other ↦ (c, rw (get-put, other) g, at)
]

register-IsLinked :
    (e : Env) (src : AddrPort) (key : Text) (s : Server)
    → IsLinked s
    → IsLinked (register e src key s).0
unfolding register
register-IsLinked e src key s h = elim (Bool-cases (is_refresh e.now src (get key s.clients))) [
  | inl q ↦ rw q (record {
    link = λ a k g.
        let (c, gc, at) = h.link a k g in
        put_client key k (record { addr = src; last_seen = e.now }) a s.clients c gc at
          (λ same. ground (arith, addr_port_eq_iff c.addr src));
  })
  | inr q ↦ rw q (elim (Option-cases e.nonce) [
    | inl n ↦ rw n h
    | inr (nonce, n) ↦ rw n (record { link = h.link })
  ])
]

-- Where the address stood for a key before, unless the key was registered elsewhere.
get-forget_old :
    (src a : AddrPort) (k : Text) (o : Option Client) (m : Map AddrPort Text)
    → get a (forget_old src o m) ≡ some k
    → (get a m ≡ some k) × ((c : Client) → o ≡ some c → c.addr ≡ a → a ≡ src)
get-forget_old src a k none m g = (g, λ c p q. ground arith)
get-forget_old src a k (some old) m g = (
  ground (arith, get-delete old.addr a m),
  λ c p q.
      ground (
        arith,
        get-delete old.addr a m,
        addr_port_eq_iff old.addr src,
        addr_port_eq_iff old.addr a,
      ),
)

enter-IsLinked :
    (now : ℕ) (src : AddrPort) (key : Text) (s : Server)
    → IsLinked s
    → IsLinked (enter now src key s)
unfolding enter
enter-IsLinked now src key s h = record {
  link = λ a k g. elim (Bool-cases (addr_port_eq src a)) [
    | inl here ↦ (
      record { addr = src; last_seen = now },
      ground (
        arith,
        get-put src a key (forget_old src (get key s.clients) s.by_addr),
        get-put key k (record { addr = src; last_seen = now }) s.clients,
        text_eq_iff key k,
      ),
      (addr_port_eq_iff src a).0 here,
    )
    | inr elsewhere ↦
        let (g', old) =
          get-forget_old src a k (get key s.clients) s.by_addr
            (ground (arith, get-put src a key (forget_old src (get key s.clients) s.by_addr))) in
        let (c, gc, at) = h.link a k g' in
        put_client key k (record { addr = src; last_seen = now }) a s.clients c gc at
          (λ same. sym (old c (rw same gc) at))
  ];
}

module _ (c : Crypto) where
  prove-IsLinked :
      (e : Env) (src : AddrPort) (p : ProofFrame) (s : Server)
      → IsLinked s
      → IsLinked (prove c e src p s).0
  unfolding prove
  prove-IsLinked e src p s h = elim (Bool-cases (answers e.now p.nonce (get src s.pending))) [
    | inl q ↦
        let s' = record s { pending = delete src s.pending } in
        let h' : IsLinked s' = record { link = h.link } in
        rw q (elim (Bool-cases (verify_proof c s.priv p.client_pub p.nonce p.mac)) [
          | inl v ↦ rw v (enter-IsLinked e.now src p.client_pub s' h')
          | inr v ↦ rw v h'
        ])
    | inr q ↦ rw q h
  ]

  on_register-IsLinked :
      (e : Env) (src : AddrPort) (s : Server) (o : Option (Text × Text))
      → IsLinked s
      → IsLinked (on_register e src s o).0
  on_register-IsLinked e src s none h = h
  on_register-IsLinked e src s (some (key, rest)) h = register-IsLinked e src key s h

  on_proof-IsLinked :
      (e : Env) (src : AddrPort) (s : Server) (o : Option ProofFrame)
      → IsLinked s
      → IsLinked (on_proof c e src s o).0
  on_proof-IsLinked e src s none h = h
  on_proof-IsLinked e src s (some p) h = prove-IsLinked e src p s h

  on_forward-s :
      (e : Env) (src : AddrPort) (s : Server) (o : Option (Text × Text))
      → (on_forward e src s o).0 ≡ s
  unfolding forward
  on_forward-s e src s none = refl
  on_forward-s e src s (some (k, [])) = refl
  on_forward-s e src s (some (k, b ∷ bs)) = refl

  pub handle-IsLinked :
      (e : Env) (pkt : Text) (src : AddrPort) (s : Server)
      → IsLinked s
      → IsLinked (handle c e pkt src s).0
  unfolding handle
  handle-IsLinked e pkt src s h = grind (
    arith,
    on_register-IsLinked e src s (parse_keyed pkt) h,
    on_proof-IsLinked e src s (parse_proof pkt) h,
    on_forward-s e src s (parse_keyed pkt),
  )

  -- From a well-formed server, whatever packets come from whatever addresses: each address that
  -- stands for a key is the address at which that key is registered.
  pub serve-IsLinked :
      (packets : List (Env × Text × AddrPort)) (s : Server)
      → IsLinked s
      → IsLinked (serve c packets s)
  unfolding serve
  serve-IsLinked [] s h = h
  serve-IsLinked ((e, pkt, src) ∷ rest) s h =
      serve-IsLinked rest (handle c e pkt src s).0 (handle-IsLinked e pkt src s h)
