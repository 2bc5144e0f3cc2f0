-- ===== src/Control/Alloc/Lowest.antt =====
-- The scan of a prefix finds its first free host address, and always ends.
use omniup_vpn.Base.{
  ℕ, zero, suc, ◌+◌, ◌-◌, ◌*◌, ◌/◌, ◌≤◌, ◌<◌, ◌≡◌, ◌≢◌, ◌⊎◌, inl, inr, sym, ◌∙◌, Bool, true, false,
  arith,
}
use native.Mathlib.Nat.{one-le-pow}
use native.Mathlib.Decide.{ℕ_discrete}
use omniup_vpn.Net.{Family, Addr, ip, InWidth, number, width, Prefix, next, contains, block}
use omniup_vpn.Control.Alloc.{found, exhausted, out_of_fuel, scan}

-- In the prefix, and so is the address behind it: not the broadcast address.
abbrev pub IsInner : Prefix → Addr → Type 0
IsInner p a = (contains p a ≡ true) × (contains p (next a) ≡ true)

-- A host address of a masked prefix: not the network address, and not the broadcast address.
abbrev pub IsHost : Prefix → Addr → Type 0
IsHost p a = IsInner p a × (number p.addr < number a)

abbrev pub at : Family → ℕ → ℕ → Prefix
at f base bits = record { addr = ip f base; bits = bits }

div_mono : (a b s : ℕ) → a ≤ b → a / s ≤ b / s
div_mono a b s h = grind arith

-- The numbers with one quotient by `s` are one block of `s` numbers.
lt-of_div-eq : (a q s : ℕ) → 0 < s → a / s ≡ q * s / s → a < q * s + s
lt-of_div-eq a q s h e = grind arith

pub block_pos : (f : Family) (bits : ℕ) → 0 < block f bits
block_pos f bits = one-le-pow (width f - bits) 2 (omega arith)

module _ (f : Family) (used : Addr → Bool) (base bits : ℕ) where
  -- What the scan from `n` finds.
  pub record Finds (n : ℕ) (a : Addr) : Type 0 where
    pub where_found : ℕ
    pub is_at : a ≡ ip f where_found
    pub from_start : n ≤ where_found
    pub in_width : InWidth (ip f where_found)
    pub inner : IsInner (at f base bits) (ip f where_found)
    pub free : used (ip f where_found) ≡ false
    pub lowest : (m : ℕ) → n ≤ m → m < where_found → used (ip f m) ≡ true

  inner_next :
      (n : ℕ) → contains (at f base bits) (next (ip f n)) ≡ true → next (ip f n) ≡ ip f (suc n)
  unfolding next contains
  inner_next n h = ground arith

  next-InWidth :
      (n : ℕ)
      → InWidth (ip f n)
      → contains (at f base bits) (next (ip f n)) ≡ true
      → InWidth (ip f (suc n))
  unfolding next contains
  next-InWidth n w h = ground arith

  -- The scan stops at an address that is free, or where the inner addresses end.
  scan_step :
      (fuel n : ℕ)
      → (IsInner (at f base bits) (ip f n)
          × (used (ip f n) ≡ false)
          × (scan (suc fuel) used (at f base bits) (ip f n) ≡ found (ip f n)))
        ⊎ (IsInner (at f base bits) (ip f n)
            × (used (ip f n) ≡ true)
            × (scan (suc fuel) used (at f base bits) (ip f n)
                ≡ scan fuel used (at f base bits) (ip f (suc n))))
        ⊎ ((¬ IsInner (at f base bits) (ip f n))
            × (scan (suc fuel) used (at f base bits) (ip f n) ≡ exhausted))
  unfolding scan
  scan_step fuel n = ground (arith, inner_next n)

  pub scan_found :
      (fuel n : ℕ) (a : Addr)
      → InWidth (ip f n)
      → scan fuel used (at f base bits) (ip f n) ≡ found a
      → Finds n a
  scan_found zero n a w h = unfold scan in absurd (ground arith)
  scan_found (suc fuel) n a w h = elim (scan_step fuel n) [
    | inl (inner, free, e) ↦ record {
      where_found = n;
      is_at = ground arith;
      from_start = omega arith;
      in_width = w;
      inner = inner;
      free = free;
      lowest = λ m lo hi. absurd (omega arith);
    }
    | inr (inl (inner, taken, e)) ↦
        let ih = scan_found fuel (suc n) a (next-InWidth n w inner.1) (sym e ∙ h) in
        record {
          where_found = ih.where_found;
          is_at = ih.is_at;
          from_start = omega (arith, ih.from_start);
          in_width = ih.in_width;
          inner = ih.inner;
          free = ih.free;
          lowest = λ m lo hi. elim (ℕ_discrete n m) [
            | yes p ↦ rw (← p) taken
            | no p ↦ ih.lowest m (omega arith) hi
          ];
        }
    | inr (inr (out, e)) ↦ absurd (ground arith)
  ]

  -- Below an inner address of the family's width, from the base on, every address is inner.
  IsInner-below :
      (n m : ℕ)
      → InWidth (ip f m)
      → base ≤ n
      → n ≤ m
      → IsInner (at f base bits) (ip f m)
      → IsInner (at f base bits) (ip f n)
  unfolding contains next
  IsInner-below n m w lo hi h =
      let s : ℕ = block f bits in
      ground (
        arith,
        div_mono base n s,
        div_mono n m s,
        div_mono base (n + 1) s,
        div_mono (n + 1) (m + 1) s,
      )

  pub scan_exhausted :
      (fuel n : ℕ)
      → base ≤ n
      → scan fuel used (at f base bits) (ip f n) ≡ exhausted
      → (m : ℕ) → n ≤ m
      → InWidth (ip f m)
      → IsInner (at f base bits) (ip f m)
      → used (ip f m) ≡ true
  scan_exhausted zero n b h m lo w i = unfold scan in absurd (ground arith)
  scan_exhausted (suc fuel) n b h m lo w i = elim (scan_step fuel n) [
    | inl (inner, free, e) ↦ absurd (ground arith)
    | inr (inl (inner, taken, e)) ↦ elim (ℕ_discrete n m) [
      | yes p ↦ rw (← p) taken
      | no p ↦ scan_exhausted fuel (suc n) (omega arith) (sym e ∙ h) m (omega arith) w i
    ]
    | inr (inr (out, e)) ↦ absurd (out (IsInner-below n m w b lo i))
  ]

  inner_lt :
      (n q : ℕ)
      → base ≡ q * block f bits
      → contains (at f base bits) (next (ip f n)) ≡ true
      → n + 1 < q * block f bits + block f bits
  unfolding contains next
  inner_lt n q e h =
      lt-of_div-eq (n + 1) q (block f bits) (block_pos f bits) (rw (← e) (ground arith))

  -- With a round for every address up to the end of the prefix, the scan ends.
  pub scan_ends :
      (fuel n : ℕ) (q : ℕ)
      → base ≡ q * block f bits
      → 0 < fuel
      → q * block f bits + block f bits ≤ n + fuel
      → base ≤ n
      → scan fuel used (at f base bits) (ip f n) ≢ out_of_fuel
  scan_ends zero n q e pos enough b h = absurd (omega arith)
  scan_ends (suc fuel) n q e pos enough b h = elim (scan_step fuel n) [
    | inl (inner, free, e') ↦ ground arith
    | inr (inl (inner, taken, e')) ↦
        let room : n + 1 < q * block f bits + block f bits = inner_lt n q e inner.1 in
        scan_ends fuel (suc n) q e (omega arith) (omega arith) (omega arith) (sym e' ∙ h)
    | inr (inr (out, e')) ↦ ground arith
  ]
