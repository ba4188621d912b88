-- ===== src/UrlFilter/Address.antt =====
-- `is_public_address` of src/url_filter.rs. An address is the number of its 32 or 128 bits.
pub mod Ranges
use Prim.Native.Nat.{bit_and}
use sjmb_slack.Prelude.{
  ℕ, ◌+◌, ◌-◌, ◌*◌, ◌%◌, ◌^◌, Bool, true, false, not, List, [], ◌∷◌, any, ◌==◌, if◌then◌else◌,
}

pub data IpAddr : Type 0 where
  v4 : ℕ → IpAddr
  v6 : ℕ → IpAddr

-- `Ipv4Addr::new` and `Ipv6Addr::new`, by octets and by groups of 16 bits.
abbrev pub quad : ℕ → ℕ → ℕ → ℕ → ℕ
quad a b c d = ((a * 2 ^ 8 + b) * 2 ^ 8 + c) * 2 ^ 8 + d

abbrev pub groups : ℕ → ℕ → ℕ → ℕ → ℕ → ℕ → ℕ → ℕ → ℕ
groups a b c d e f g h =
    ((((((a * 2 ^ 16 + b) * 2 ^ 16 + c) * 2 ^ 16 + d) * 2 ^ 16 + e) * 2 ^ 16 + f) * 2 ^ 16 + g)
      * 2 ^ 16
    + h

-- A base address and the length of its prefix.
pub record Block : Type 0 where
  pub base : ℕ
  pub bits : ℕ

-- `u32::MAX << (32 - bits)` and `u128::MAX << (128 - bits)`: the bits shifted out are lost.
abbrev pub mask : ℕ → ℕ → ℕ
mask width bits = (2 ^ width - 1) * 2 ^ (width - bits) % 2 ^ width

abbrev pub in_block : ℕ → ℕ → Block → Bool
in_block width n b = bit_and n (mask width b.bits) == b.base

abbrev pub blocked_v4 : List Block
blocked_v4 =
    record { base = quad 0 0 0 0; bits = 8 }
    ∷ record { base = quad 10 0 0 0; bits = 8 }
    ∷ record { base = quad 100 64 0 0; bits = 10 }
    ∷ record { base = quad 127 0 0 0; bits = 8 }
    ∷ record { base = quad 169 254 0 0; bits = 16 }
    ∷ record { base = quad 172 16 0 0; bits = 12 }
    ∷ record { base = quad 192 0 0 0; bits = 24 }
    ∷ record { base = quad 192 0 2 0; bits = 24 }
    ∷ record { base = quad 192 88 99 0; bits = 24 }
    ∷ record { base = quad 192 168 0 0; bits = 16 }
    ∷ record { base = quad 198 18 0 0; bits = 15 }
    ∷ record { base = quad 198 51 100 0; bits = 24 }
    ∷ record { base = quad 203 0 113 0; bits = 24 }
    ∷ record { base = quad 224 0 0 0; bits = 4 }
    ∷ record { base = quad 240 0 0 0; bits = 4 }
    ∷ []

unfoldable pub public_v4 : ℕ → Bool
public_v4 n = not (any (in_block 32 n) blocked_v4)

abbrev pub blocked_v6 : List Block
blocked_v6 =
    record { base = groups 0x2001 0 0 0 0 0 0 0; bits = 23 }
    ∷ record { base = groups 0x2001 0xdb8 0 0 0 0 0 0; bits = 32 }
    ∷ record { base = groups 0x2002 0 0 0 0 0 0 0; bits = 16 }
    ∷ record { base = groups 0x3fff 0 0 0 0 0 0 0; bits = 20 }
    ∷ []

unfoldable pub public_v6 : ℕ → Bool
public_v6 n =
    if not (in_block 128 n (record { base = groups 0x2000 0 0 0 0 0 0 0; bits = 3 }))
    then false
    else not (any (in_block 128 n) blocked_v6)

unfoldable pub is_public_address : IpAddr → Bool
unfolding public_v4 public_v6
is_public_address (v4 ip) = public_v4 ip
is_public_address (v6 ip) = public_v6 ip
