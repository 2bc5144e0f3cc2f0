-- ===== src/Stun/Panics.antt =====
-- How the parsing of a response ends: always, and for some packets by a panic.
use omniup_vpn.Base.{
  ℕ, zero, suc, ◌+◌, ◌<◌, ◌≢◌, inl, inr, Option, none, some, Text, length, take, drop, arith,
  length-drop, length-take, Bool-cases, ltb,
}
use omniup_vpn.Net.{AddrPort}
use omniup_vpn.Stun.{
  attr_loop, parse_response, out_of_fuel, Parsed, uint16_at, aligned, kept, xor_answer,
  unless_answered, at_end,
}

at_end-ne : (id : Text) (o : Option AddrPort) → at_end id o ≢ out_of_fuel
at_end-ne id none h = cc
at_end-ne id (some a) h = cc

unless-ne :
    (id : Text) (o : Option AddrPort) (r : Parsed (Text × AddrPort))
    → r ≢ out_of_fuel
    → unless_answered id o r ≢ out_of_fuel
unless-ne id none r h = h
unless-ne id (some a) r h = λ e. cc

-- Each round drops an attribute's header at least.
attr_loop-ne-out_of_fuel :
    (fuel : ℕ) (id attrs : Text) (mapped : Option AddrPort)
    → length attrs < fuel
    → attr_loop fuel id attrs mapped ≢ out_of_fuel
unfolding attr_loop
attr_loop-ne-out_of_fuel zero id attrs mapped h = absurd (omega arith)
attr_loop-ne-out_of_fuel (suc fuel) id attrs mapped h =
    let len = uint16_at attrs 2 in
    let value = take len (drop 4 attrs) in
    let ih =
      attr_loop-ne-out_of_fuel fuel id (drop (4 + aligned len) attrs)
        (kept (uint16_at attrs 0) id value mapped) in
    elim (Bool-cases (ltb (length attrs) 4)) [
      | inl a ↦ rw a (at_end-ne id mapped)
      | inr a ↦ rw a (elim (Bool-cases (ltb (length attrs) (4 + len))) [
        | inl b ↦ rw b (at_end-ne id mapped)
        | inr b ↦ rw b (
            unless-ne id (xor_answer (uint16_at attrs 0) id value) _
              (elim (Bool-cases (ltb (length attrs) (4 + aligned len))) [
                | inl d ↦ rw d (λ e. cc)
                | inr d ↦ rw d (ih (ground (arith, length-drop (4 + aligned len) attrs)))
              ]))
      ])
    ]

-- The parsing of a response ends on every packet: the loop never runs out of fuel.
pub parse_response-ends : (b : Text) → parse_response b ≢ out_of_fuel
unfolding parse_response
parse_response-ends b =
    let loop =
      attr_loop-ne-out_of_fuel (suc (uint16_at b 2)) (take 12 (drop 8 b))
        (take (uint16_at b 2) (drop 20 b)) none
        (omega (arith, length-take {0} (uint16_at b 2) (drop 20 b))) in
    λ e. ground (arith, loop)
