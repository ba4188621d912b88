-- ===== src/UrlFilter/Address/Ranges.antt =====
-- The public addresses as ranges: the masks of the source cut out exactly the special-purpose ranges.
use Prim.Native.Nat.{bit_and}
use native.Mathlib.Nat.{div-add-mod', mod-lt, one-le-pow}
use sjmb_slack.Prelude.{
  ℕ, ◌+◌, ◌-◌, ◌*◌, ◌/◌, ◌^◌, ◌≤◌, ◌<◌, ◌≡◌, refl, ap, ◌∙◌, Bool, true, false, not, ◌&&◌, ◌||◌,
  List, [], ◌∷◌, any, ◌==◌, leb, if◌then◌else◌, arith,
}
use sjmb_slack.Prelude.Bits.{bit_and-high}
use sjmb_slack.UrlFilter.Address.{
  IpAddr, v4, v6, is_public_address, Block, quad, groups, mask, in_block, blocked_v4, blocked_v6,
  public_v4, public_v6,
}

-- The first and the last address of a range.
pub record Range : Type 0 where
  pub first : ℕ
  pub last : ℕ

abbrev pub within : ℕ → Range → Bool
within n r = leb r.first n && leb n r.last

next_multiple : (m q d : ℕ) → m < q → m * d + d ≤ q * d
next_multiple m q d h = grind arith

-- Rounding down to a multiple of `d` gives `q * d` exactly on the `d` numbers from `q * d` on.
round_down : (n q d : ℕ) → 0 < d → (n / d * d == q * d) ≡ (leb (q * d) n && leb n (q * d + d - 1))
round_down n q d h =
    let split = div-add-mod' n d in
    let small = mod-lt n h in
    ground (arith, split, small, next_multiple (n / d) q d, next_multiple q (n / d) d)

-- A test that a range is the one of a block: the block's base has no bit beyond its prefix.
same_range : ℕ → Block → Range → Bool
same_range width b r =
    let size = 2 ^ (width - b.bits) in
    mask width b.bits == (2 ^ b.bits - 1) * size
    && 2 ^ width == 2 ^ b.bits * size
    && b.base == b.base / size * size
    && r.first == b.base
    && r.last == b.base + size - 1

in_block-within :
    (width n : ℕ) (b : Block) (r : Range)
    → n < 2 ^ width
    → same_range width b r ≡ true
    → in_block width n b ≡ within n r
unfolding same_range
in_block-within width n b r h same =
    let size = 2 ^ (width - b.bits) in
    let ones : mask width b.bits ≡ (2 ^ b.bits - 1) * size = ground arith in
    let whole : 2 ^ width ≡ 2 ^ b.bits * size = ground arith in
    let first : r.first ≡ b.base / size * size = ground arith in
    let last : r.last ≡ b.base / size * size + size - 1 = ground arith in
    let base : b.base ≡ b.base / size * size = ground arith in
    ap (λ m. bit_and n m == b.base) ones
    ∙ ap (λ m. m == b.base) (bit_and-high (width - b.bits) b.bits n (rw (← whole) h))
    ∙ ap (λ m. n / size * size == m) base
    ∙ round_down n (b.base / size) size (one-le-pow (width - b.bits) 2 (omega arith))
    ∙ rw (first, last)

same_ranges : ℕ → List Block → List Range → Bool
same_ranges width [] [] = true
same_ranges width (b ∷ bs) (r ∷ rs) = same_range width b r && same_ranges width bs rs
same_ranges width _ _ = false

any-in_block :
    (width n : ℕ) (bs : List Block) (rs : List Range)
    → n < 2 ^ width
    → same_ranges width bs rs ≡ true
    → any (in_block width n) bs ≡ any (within n) rs
unfolding same_ranges
any-in_block width n [] [] h same = refl
any-in_block width n [] (r ∷ rs) h same = cc
any-in_block width n (b ∷ bs) [] h same = cc
any-in_block width n (b ∷ bs) (r ∷ rs) h same =
    ground (arith, in_block-within width n b r h, any-in_block width n bs rs h)

-- The special-purpose ranges of IPv4.
abbrev pub special_v4 : List Range
special_v4 =
    record { first = quad 0 0 0 0; last = quad 0 255 255 255 }
    ∷ record { first = quad 10 0 0 0; last = quad 10 255 255 255 }
    ∷ record { first = quad 100 64 0 0; last = quad 100 127 255 255 }
    ∷ record { first = quad 127 0 0 0; last = quad 127 255 255 255 }
    ∷ record { first = quad 169 254 0 0; last = quad 169 254 255 255 }
    ∷ record { first = quad 172 16 0 0; last = quad 172 31 255 255 }
    ∷ record { first = quad 192 0 0 0; last = quad 192 0 0 255 }
    ∷ record { first = quad 192 0 2 0; last = quad 192 0 2 255 }
    ∷ record { first = quad 192 88 99 0; last = quad 192 88 99 255 }
    ∷ record { first = quad 192 168 0 0; last = quad 192 168 255 255 }
    ∷ record { first = quad 198 18 0 0; last = quad 198 19 255 255 }
    ∷ record { first = quad 198 51 100 0; last = quad 198 51 100 255 }
    ∷ record { first = quad 203 0 113 0; last = quad 203 0 113 255 }
    ∷ record { first = quad 224 0 0 0; last = quad 239 255 255 255 }
    ∷ record { first = quad 240 0 0 0; last = quad 255 255 255 255 }
    ∷ []

public_v4-ranges : (n : ℕ) → n < 2 ^ 32 → public_v4 n ≡ not (any (within n) special_v4)
unfolding public_v4 same_ranges same_range
public_v4-ranges n h = ap not (any-in_block 32 n blocked_v4 special_v4 h refl)

-- Global unicast, and what of it has a special purpose.
abbrev pub unicast_v6 : Range
unicast_v6 = record {
  first = groups 0x2000 0 0 0 0 0 0 0;
  last = groups 0x3fff 0xffff 0xffff 0xffff 0xffff 0xffff 0xffff 0xffff;
}

abbrev pub special_v6 : List Range
special_v6 =
    record {
      first = groups 0x2001 0 0 0 0 0 0 0;
      last = groups 0x2001 0x01ff 0xffff 0xffff 0xffff 0xffff 0xffff 0xffff;
    }
    ∷ record {
      first = groups 0x2001 0xdb8 0 0 0 0 0 0;
      last = groups 0x2001 0xdb8 0xffff 0xffff 0xffff 0xffff 0xffff 0xffff;
    }
    ∷ record {
      first = groups 0x2002 0 0 0 0 0 0 0;
      last = groups 0x2002 0xffff 0xffff 0xffff 0xffff 0xffff 0xffff 0xffff;
    }
    ∷ record {
      first = groups 0x3fff 0 0 0 0 0 0 0;
      last = groups 0x3fff 0x0fff 0xffff 0xffff 0xffff 0xffff 0xffff 0xffff;
    }
    ∷ []

both :
    (a b p q : Bool)
    → (a || false) ≡ (b || false)
    → p ≡ q
    → (if not a then false else not p) ≡ (b && not q)
both a b p q e f = ground arith

public_v6-ranges :
    (n : ℕ) → n < 2 ^ 128 → public_v6 n ≡ (within n unicast_v6 && not (any (within n) special_v6))
unfolding public_v6 same_ranges same_range
public_v6-ranges n h =
    let unicast =
      any-in_block 128 n (record { base = unicast_v6.first; bits = 3 } ∷ []) (unicast_v6 ∷ []) h
        refl in
    let special = any-in_block 128 n blocked_v6 special_v6 h refl in
    both (in_block 128 n (record { base = unicast_v6.first; bits = 3 })) (within n unicast_v6)
      (any (in_block 128 n) blocked_v6) (any (within n) special_v6) unicast special

-- An address has 32 or 128 bits.
abbrev pub IsAddress : IpAddr → Type 0
IsAddress (v4 n) = n < 2 ^ 32
IsAddress (v6 n) = n < 2 ^ 128

-- The public addresses by the ranges that have a special purpose.
abbrev pub outside_special : IpAddr → Bool
outside_special (v4 n) = not (any (within n) special_v4)
outside_special (v6 n) = within n unicast_v6 && not (any (within n) special_v6)

-- An IPv4 address is public exactly if it lies in none of the fifteen special-purpose ranges, and an
-- IPv6 address exactly if it is global unicast and in none of the four ranges there that have a special
-- purpose.
pub is_public_address-ranges : (a : IpAddr) → IsAddress a → is_public_address a ≡ outside_special a
unfolding is_public_address
is_public_address-ranges (v4 n) h = public_v4-ranges n h
is_public_address-ranges (v6 n) h = public_v6-ranges n h
