-- ===== src/Dnssrv/Names.antt =====
-- What the server answers after an update.
use omniup_vpn.Base.{
  ℕ, ◌≡◌, ◌↔◌, ◌⊎◌, refl, inl, inr, true, not, ◌&&◌, ◌||◌, ◌==◌, ==_iff, Option, none, some, List,
  [], ◌∷◌, ◌++◌, arith, Text, codes, text_key, text_eq, text_eq_iff, is_blank, Bool-cases,
  Option-cases, if◌then◌else◌,
}
use omniup_vpn.Base.Suffix.{has_suffix_iff}
use omniup_vpn.Base.Map.{Map, get, get-put}
use omniup_vpn.Unicode.{Unicode}
use omniup_vpn.Control.Api.{Peer, NetMap}
use omniup_vpn.Dnssrv.{
  DnsServer, entry_of, record_name, add_record, add_all, update, serve_dns, Question, record_answer,
  bare, refused, in_zone, Rcode, DnsAnswer, success, name_error, sanitize_label,
}

module _ (u : Unicode) (parse_ip : Text → Option Text) (zone name : Text) where
  -- The address of the peer, if it is the one of that name.
  abbrev pub named : Peer → Option Text
  named p =
      let label = sanitize_label u p.hostname in
      if text_eq (label ++ (codes "." ++ zone)) name && not (is_blank label)
      then parse_ip p.ip
      else none

  abbrev pub or_else : Option Text → Option Text → Option Text
  or_else none b = b
  or_else (some a) b = some a

  -- The address of the last peer of that name.
  unfoldable pub last_named : List Peer → Option Text
  last_named [] = none
  last_named (p ∷ ps) = or_else (last_named ps) (named p)

  get-add_record :
      (p : Peer) (m : Map Text Text)
      → get name (add_record u parse_ip zone p m) ≡ or_else (named p) (get name m)
  unfolding add_record
  get-add_record p m = elim (Option-cases (entry_of u parse_ip p)) [
    | inl q ↦ ground arith
    | inr (ip, q) ↦ rw q (ground (arith, get-put (record_name u parse_ip zone p) name ip m))
  ]

  get-add_all :
      (ps : List Peer) (m : Map Text Text)
      → get name (add_all u parse_ip zone ps m) ≡ or_else (last_named ps) (get name m)
  unfolding add_all last_named
  get-add_all [] m = refl
  get-add_all (p ∷ ps) m =
      ground (arith, get-add_all ps (add_record u parse_ip zone p m), get-add_record p m)

-- A name of the zone: the zone's own, or one that ends in a dot and the zone.
abbrev pub InZone : Text → Text → Type 0
InZone zone name = (name ≡ zone) ⊎ ((host : Text) × (name ≡ host ++ (codes "." ++ zone)))

in_zone_iff :
    (u : Unicode) (to4 : Text → Option Text) (zone name : Text)
    → (in_zone u to4 zone name ≡ true) ↔ InZone zone name
in_zone_iff u to4 zone name =
    let suffix = has_suffix_iff name (codes "." ++ zone) in
    let whole = text_eq_iff name zone in
    (
      λ h. elim (Bool-cases (text_eq name zone)) [
        | inl q ↦ inl (whole.0 q)
        | inr q ↦ inr (suffix.0 (ground arith))
      ],
      λ h. elim h [
        | inl e ↦ let q = whole.1 e in ground arith
        | inr e ↦ let q = suffix.1 e in ground arith
      ],
    )

-- The type of a question that asks for an IPv4 address: A (1) or ANY (255).
abbrev pub AsksAddress : ℕ → Type 0
AsksAddress qtype = (qtype ≡ 1) ⊎ (qtype ≡ 255)

abbrev pub answer : Rcode → List (Text × Option Text) → DnsAnswer
answer r given = record { rcode = r; answers = given }

-- The answer to a question, where `found` is the address of the name, if it has one: a refusal
-- outside the zone, a denial without an address, the address for the types that ask for it, and an
-- empty success for any other type.
abbrev pub Answered :
    (Text → Option Text) → Text → Text → Question → Option Text → DnsAnswer → Type 0
Answered to4 zone lower q found a =
    (¬ InZone zone lower × (a ≡ answer refused []))
    ⊎ (InZone zone lower × (found ≡ none) × (a ≡ answer name_error []))
    ⊎ ((ip : Text) × InZone zone lower
        × (found ≡ some ip)
        × AsksAddress q.qtype
        × (a ≡ answer success ((q.name, to4 ip) ∷ [])))
    ⊎ ((ip : Text) × InZone zone lower
        × (found ≡ some ip)
        × ¬ AsksAddress q.qtype
        × (a ≡ answer success []))

record_answer-Answered :
    (u : Unicode) (to4 : Text → Option Text) (zone lower : Text) (q : Question)
    (found : Option Text)
    → Answered to4 zone lower q found
        (if in_zone u to4 zone lower then record_answer u to4 q found else bare refused)
record_answer-Answered u to4 zone lower q found =
    let zoned = in_zone_iff u to4 zone lower in
    elim (Bool-cases (in_zone u to4 zone lower)) [
      | inr out ↦ inl ((λ inside. let h = zoned.1 inside in ground arith), rw out refl)
      | inl inside ↦ elim (Option-cases found) [
        | inl q ↦ inr (inl (zoned.0 inside, q, rw (inside, q) refl))
        | inr (ip, e) ↦ elim (Bool-cases ((q.qtype == 1) || (q.qtype == 255))) [
          | inl asks ↦ inr (
              inr (
                inl (
                  ip,
                  zoned.0 inside,
                  e,
                  ground (arith, ==_iff q.qtype 1, ==_iff q.qtype 255),
                  rw (inside, e, asks) refl,
                )))
          | inr other ↦ inr (
              inr (
                inr (
                  ip,
                  zoned.0 inside,
                  e,
                  (λ h. ground (arith, ==_iff q.qtype 1, ==_iff q.qtype 255)),
                  rw (inside, e, other) refl,
                )))
        ]
      ]
    ]

-- After an update with a map of the network, a query for one name takes the name in lower case and
-- looks for the last machine of the map, itself first and then its peers in their order, whose label
-- in the zone is that name and whose address parses. A query of type A or ANY is answered with that
-- address, in the IPv4 form that To4 gives; another type gets an empty success. Without such a
-- machine the name is denied, and a name that is neither the zone nor ends in a dot and the zone is
-- refused. No machine of an earlier map is answered.
pub serve_dns-update :
    (u : Unicode) (parse_ip to4 : Text → Option Text) (nm : NetMap) (s : DnsServer) (q : Question)
    → let lower = u.to_lower q.name in
      Answered to4 s.zone lower q
        (last_named u parse_ip s.zone lower (nm.self ∷ nm.peers))
        (serve_dns u to4 (update u parse_ip nm s) (q ∷ []))
unfolding serve_dns update get
serve_dns-update u parse_ip to4 nm s q =
    let lower = u.to_lower q.name in
    let all = nm.self ∷ nm.peers in
    let found : get lower (add_all u parse_ip s.zone all [])
        ≡ last_named u parse_ip s.zone lower all =
      ground (arith, get-add_all u parse_ip s.zone lower all []) in
    rw found (record_answer-Answered u to4 s.zone lower q (last_named u parse_ip s.zone lower all))
