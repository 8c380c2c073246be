-- ===== src/Validation/Ssrf/Ranges.antt =====
-- Addresses and their ranges, as Go's package net has them. An address of IPv4 is below 2 ^ 32 and one of
-- IPv6 below 2 ^ 128.
use mcpdrill.Prelude.{ℕ, ◌+◌, ◌-◌, ◌*◌, ◌/◌, ◌%◌, ◌^◌, Bool, false, ◌&&◌, ◌==◌}

pub data Ip : Type 0 where
  v4 : ℕ → Ip
  v6 : ℕ → Ip

-- The leading bits that the addresses share, and how many bits follow.
pub data Range : Type 0 where
  range4 : ℕ → ℕ → Range
  range6 : ℕ → ℕ → Range

-- `IPNet.Contains`
unfoldable pub contains : Range → Ip → Bool
contains (range4 rest top) (v4 a) = a / 2 ^ rest == top
contains (range6 rest top) (v6 a) = a / 2 ^ rest == top
contains (range4 rest top) (v6 a) = false
contains (range6 rest top) (v4 a) = false

-- The network a.b.c.d/prefix.
abbrev pub cidr4 : ℕ → ℕ → ℕ → ℕ → ℕ → Range
cidr4 a b c d prefix =
    range4 (32 - prefix) ((((a * 256 + b) * 256 + c) * 256 + d) / 2 ^ (32 - prefix))

-- The network of eight groups of 16 bits, and its prefix.
abbrev pub cidr6 : ℕ → ℕ → ℕ → ℕ → ℕ → ℕ → ℕ → ℕ → ℕ → Range
cidr6 g h i j k l m n prefix = range6 (128 - prefix) (
    (((((((g * 65536 + h) * 65536 + i) * 65536 + j) * 65536 + k) * 65536 + l) * 65536 + m) * 65536
      + n)
    / 2 ^ (128 - prefix))

-- ::ffff:0:0/96: its address is one of IPv4, so `Contains` takes it for a network of IPv4, which has all.
abbrev pub mapped_range : Range
mapped_range = range4 32 0

abbrev pub is_loopback : Ip → Bool
is_loopback (v4 a) = a / 2 ^ 24 == 127
is_loopback (v6 a) = a == 1

abbrev pub is_link_local_unicast : Ip → Bool
is_link_local_unicast (v4 a) = a / 2 ^ 16 == 43518
is_link_local_unicast (v6 a) = a / 2 ^ 118 == 1018

abbrev pub is_link_local_multicast : Ip → Bool
is_link_local_multicast (v4 a) = a / 2 ^ 8 == 14680064
is_link_local_multicast (v6 a) = a / 2 ^ 120 == 255 && (a / 2 ^ 112) % 16 == 2

abbrev pub is_multicast : Ip → Bool
is_multicast (v4 a) = a / 2 ^ 28 == 14
is_multicast (v6 a) = a / 2 ^ 120 == 255
