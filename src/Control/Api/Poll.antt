-- ===== src/Control/Api/Poll.antt =====
-- Who learns of whom by a poll.
use omniup_vpn.Base.{
  ℕ, ◌≡◌, ◌≢◌, ◌↔◌, refl, sym, ◌∙◌, ◌⊎◌, inl, inr, Bool, true, false, ◌||◌, Option, some, List, [],
  ◌∷◌, arith, Text, text_key, text_eq, text_eq_iff, Bool-cases,
}
use omniup_vpn.Base.Map.{Map, get, All, Unique}
use omniup_vpn.Control.State.{Device, Store, AclPolicy}
use omniup_vpn.Control.Acl.{visible}
use omniup_vpn.Control.Acl.Meaning.{Meets, visible-Meets, visible_symm, clone_self}
use omniup_vpn.Control.Fleet.{insert_by_ip, sorted_by_ip, devices, text_lt}
use omniup_vpn.Control.Api.{Peer, peer_view, peers_of, net_map}

unfoldable pub has_peer : Text → List Peer → Bool
has_peer k [] = false
has_peer k (p ∷ ps) = text_eq p.public_key k || has_peer k ps

-- Some machine of a list, or of a map, has the property.
abbrev pub AnyDevice : (Device → Type 0) → List Device → Type 0
AnyDevice P [] = ⊥
AnyDevice P (d ∷ ds) = P d ⊎ AnyDevice P ds

abbrev pub AnyEntry : (Device → Type 0) → Map Text Device → Type 0
AnyEntry P [] = ⊥
AnyEntry P ((k, d) ∷ m) = P d ⊎ AnyEntry P m

-- The machine has the key `k`, is not the one that asks, and the policy lets one of the two reach the
-- other.
abbrev pub IsPeer : Option AclPolicy → Device → Text → Device → Type 0
IsPeer acl self k d = (d.public_key ≡ k) × (d.public_key ≢ self.public_key) × Meets acl self d

module _ (P : Device → Type 0) where
  insert-any :
      (d : Device) (xs : List Device) → AnyDevice P (insert_by_ip d xs) ↔ (P d ⊎ AnyDevice P xs)
  unfolding insert_by_ip
  insert-any d [] = (λ h. h, λ h. h)
  insert-any d (x ∷ xs) = elim (Bool-cases (text_lt x.ip d.ip)) [
    | inr q ↦ rw q (λ h. h, λ h. h)
    | inl q ↦
        let ih = insert-any d xs in
        rw q (
          λ h. elim h [
            | inl a ↦ inr (inl a)
            | inr a ↦ elim (ih.0 a) [ inl b ↦ inl b | inr b ↦ inr (inr b) ]
          ],
          λ h. elim h [
            | inl a ↦ inr (ih.1 (inl a))
            | inr (inl a) ↦ inl a
            | inr (inr a) ↦ inr (ih.1 (inr a))
          ],
        )
  ]

  pub sorted-any : (m : Map Text Device) → AnyDevice P (sorted_by_ip m) ↔ AnyEntry P m
  unfolding sorted_by_ip
  sorted-any [] = (λ h. h, λ h. h)
  sorted-any ((k, d) ∷ m) =
      let ih = sorted-any m in
      let one = insert-any d (sorted_by_ip m) in
      (
        λ h. elim (one.0 h) [ inl a ↦ inl a | inr a ↦ inr (ih.0 a) ],
        λ h. elim h [ inl a ↦ one.1 (inl a) | inr a ↦ one.1 (inr (ih.1 a)) ],
      )

has_peer_iff :
    (acl : Option AclPolicy) (now : ℕ) (self : Device) (k : Text) (ds : List Device)
    → (has_peer k (peers_of acl now self ds) ≡ true) ↔ AnyDevice (IsPeer acl self k) ds
unfolding has_peer peers_of peer_view
has_peer_iff acl now self k [] = (λ h. ground arith, λ h. elim h [ ])
has_peer_iff acl now self k (d ∷ ds) =
    let ih = has_peer_iff acl now self k ds in
    let own = text_eq_iff d.public_key self.public_key in
    let asked = text_eq_iff d.public_key k in
    (
      λ h. elim (Bool-cases (text_eq d.public_key self.public_key)) [
        | inl a ↦ inr (ih.0 (rw a at h))
        | inr a ↦ elim (Bool-cases (visible acl self d)) [
          | inr b ↦ inr (ih.0 (rw (a, b) at h))
          | inl b ↦ elim (Bool-cases (text_eq d.public_key k)) [
            | inl c ↦ inl (asked.0 c, (λ p. ground (arith, own)), (visible-Meets acl self d).0 b)
            | inr c ↦ inr (ih.0 (rw (a, b, c) at h))
          ]
        ]
      ],
      λ h. elim h [
        | inl (same, other, meets) ↦
            let seen = (visible-Meets acl self d).1 meets in ground (arith, own, asked, other)
        | inr rest ↦ let found = ih.1 rest in ground arith
      ],
    )

-- The map that a machine gets by a poll names a key exactly when some machine of the store has
-- that key, it is not the machine's own, and one of the two may reach the other: there is no policy,
-- or it has no rule, or one of its rules has the one among its sources and the other among its
-- destinations, by "*", name or address.
pub net_map_peers :
    (now : ℕ) (new_token : Text) (self : Device) (st : Store) (k : Text)
    → (has_peer k (net_map now new_token self st).peers ≡ true)
      ↔ AnyEntry (IsPeer st.s.acl self k) st.s.devices
unfolding net_map devices
net_map_peers now new_token self st k =
    let sorted = sorted-any (IsPeer st.s.acl self k) st.s.devices in
    let listed = has_peer_iff st.s.acl now self k (sorted_by_ip st.s.devices) in
    rw clone_self (λ h. sorted.0 (listed.0 h), λ h. listed.1 (sorted.1 h))

one_of :
    (P : Device → Type 0) (k : Text) (m : Map Text Device) (d : Device)
    → get k m ≡ some d
    → P d
    → AnyEntry P m
unfolding get
one_of P k [] d g p = absurd (ground arith)
one_of P k ((j, c) ∷ m) d g p = elim (Bool-cases (text_eq j k)) [
  | inl same ↦ let e : c ≡ d = ground arith in inl (rw e p)
  | inr other ↦ inr (one_of P k m d (rw other at g) p)
]

bool_ext : (a b : Bool) → (a ≡ true → b ≡ true) → (b ≡ true → a ≡ true) → a ≡ b
bool_ext true b f g = sym (f refl)
bool_ext false true f g = g refl
bool_ext false false f g = refl

pub entry_of :
    (P : Device → Type 0) (k : Text) (m : Map Text Device)
    → All (λ j d. d.public_key ≡ j) m
    → Unique m
    → ((d : Device) → P d → d.public_key ≡ k)
    → AnyEntry P m
    → (d : Device) × (get k m ≡ some d) × P d
unfolding get
entry_of P k [] keyed unique names h = elim h [ ]
entry_of P k ((j, c) ∷ m) keyed unique names (inl p) =
    (c, ground (arith, text_eq_iff j k, keyed.0, names c p), p)
entry_of P k ((j, c) ∷ m) keyed unique names (inr rest) =
    let (d, g, p) = entry_of P k m keyed.1 unique.1 names rest in
    (d, ground (arith, text_eq_iff j k, unique.0), p)

module _ (st : Store) (keyed : All (λ k d. d.public_key ≡ k) st.s.devices)
    (unique : Unique st.s.devices) where
  pair_iff :
      (now : ℕ) (token : Text) (a b : Device)
      → get b.public_key st.s.devices ≡ some b
      → (has_peer b.public_key (net_map now token a st).peers ≡ true)
        ↔ ((b.public_key ≢ a.public_key) × (visible st.s.acl a b ≡ true))
  pair_iff now token a b gb =
      let named = net_map_peers now token a st b.public_key in
      (
        λ h.
            let (d, g, (same, other, seen)) =
              entry_of (IsPeer st.s.acl a b.public_key) b.public_key st.s.devices keyed unique
                (λ d p. p.0) (named.0 h) in
            let e : b ≡ d = ground arith in
            (λ p. other (same ∙ p), rw e ((visible-Meets st.s.acl a d).1 seen)),
        λ h. named.1 (
            one_of (IsPeer st.s.acl a b.public_key) b.public_key st.s.devices b gb
              (refl, h.0, (visible-Meets st.s.acl a b).0 h.1)),
      )

  -- Tunnels are symmetric: of two machines of the store, one is in the other's map exactly when
  -- the other is in its own, by whatever polls, as long as both are as the store has them, the
  -- store is keyed by public key and no key stands twice.
  pub net_map_symm :
      (now now' : ℕ) (token token' : Text) (a b : Device)
      → get a.public_key st.s.devices ≡ some a
      → get b.public_key st.s.devices ≡ some b
      → has_peer b.public_key (net_map now token a st).peers
        ≡ has_peer a.public_key (net_map now' token' b st).peers
  net_map_symm now now' token token' a b ga gb =
      let there = pair_iff now token a b gb in
      let back = pair_iff now' token' b a ga in
      let both = visible_symm st.s.acl a b in
      bool_ext _ _
        (λ h. let (other, seen) = there.0 h in back.1 (λ p. other (sym p), sym both ∙ seen))
        (λ h. let (other, seen) = back.0 h in there.1 (λ p. other (sym p), both ∙ seen))
