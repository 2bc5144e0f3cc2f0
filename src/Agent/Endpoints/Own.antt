-- ===== src/Agent/Endpoints/Own.antt =====
-- Which candidates the agent reports for itself.
use omniup_vpn.Base.{
  ℕ, ◌≡◌, inl, inr, not, ◌&&◌, ◌||◌, Option, List, [], ◌∷◌, ◌++◌, ◌==◌, if◌then◌else◌, Text, arith,
  text_eq, text_eq_iff, Bool-cases, ◌∙◌,
}
use omniup_vpn.Control.Fleet.{mem_text}
use omniup_vpn.Wgnet.Device.Routes.{mem-cons}
use omniup_vpn.Agent.Routes.Filtered.{Distinct, Distinct-append, mem-append, mem_nil}
use omniup_vpn.Agent.Endpoints.Discover.{
  Iface, dedup, dedup_onto, discover_endpoints, first_mapped, with_port, local_ipv4,
}

abbrev onto_seen : List Text → Text → List Text
onto_seen out s = if mem_text s out then out else out ++ s ∷ []

mem-onto_seen :
    (r s : Text) (out : List Text) → mem_text r (onto_seen out s) ≡ (mem_text r out || text_eq s r)
mem-onto_seen r s out =
    ground (arith, mem-append r out (s ∷ []), mem-cons r s [], mem_nil r, text_eq_iff s r)

mem-dedup_onto :
    (r : Text) (out ss : List Text)
    → mem_text r (dedup_onto out ss) ≡ (mem_text r out || mem_text r ss)
unfolding dedup_onto
mem-dedup_onto r out [] = ground (arith, mem_nil r)
mem-dedup_onto r out (s ∷ ss) =
    ground (arith, mem-dedup_onto r (onto_seen out s) ss, mem-onto_seen r s out, mem-cons r s ss)

Distinct-onto_seen : (out : List Text) (s : Text) → Distinct out → Distinct (onto_seen out s)
Distinct-onto_seen out s d = ground (arith, Distinct-append s out)

Distinct-dedup_onto : (out ss : List Text) → Distinct out → Distinct (dedup_onto out ss)
unfolding dedup_onto
Distinct-dedup_onto out [] d = d
Distinct-dedup_onto out (s ∷ ss) d =
    Distinct-dedup_onto (onto_seen out s) ss (Distinct-onto_seen out s d)

-- On an open socket the agent reports exactly the address that the first STUN server to answer has
-- seen, if one answers, and its usable local addresses with the socket's port, each once; on a
-- closed one, nothing.
pub discover_endpoints_lem :
    (port : ℕ) (stun : List (Option Text)) (skip : Text) (ifaces : Option (List Iface)) (r : Text)
    → (mem_text r (discover_endpoints port stun skip ifaces) ≡ (
        not (port == 0)
        && (mem_text r (first_mapped stun)
            || mem_text r (with_port port (local_ipv4 skip ifaces)))))
      × Distinct (discover_endpoints port stun skip ifaces)
unfolding discover_endpoints dedup
discover_endpoints_lem port stun skip ifaces r = elim (Bool-cases (port == 0)) [
  | inl q ↦ rw q (mem_nil r, tt)
  | inr q ↦
      let ours = with_port port (local_ipv4 skip ifaces) in
      rw q (
        mem-dedup_onto r [] (first_mapped stun ++ ours)
            ∙ ground (arith, mem_nil r, mem-append r (first_mapped stun) ours),
        Distinct-dedup_onto [] (first_mapped stun ++ ours) tt,
      )
]
