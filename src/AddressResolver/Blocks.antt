-- ===== src/AddressResolver/Blocks.antt =====
-- The tests on bytes against address blocks.
use libre_connect.Base.{
  ℕ, ◌*◌, ◌/◌, ◌<◌, ◌≡◌, refl, ap, ◌∙◌, Bool, true, false, not, ◌||◌, ◌&&◌, leb, ◌==◌,
  if◌then◌else◌, arith,
}
use libre_connect.AddressResolver.{
  IpAddress, v4, v6, byte_1, byte_2, byte_3, between, is_address_private_v4, is_address_public_v4,
  is_address_public_v6, is_address_private_v6, first_byte, is_address_public, is_address_private,
}

-- A block in the notation prefix/bits: the addresses that agree with it in the first bits.
abbrev pub in_block : ℕ → ℕ → ℕ → Bool
in_block network size ip = ip / size == network / size

-- 10.0.0.0/8, 172.16.0.0/12 and 192.168.0.0/16
abbrev pub private_blocks : ℕ → Bool
private_blocks ip =
    in_block 167772160 16777216 ip || in_block 2886729728 1048576 ip || in_block 3232235520 65536 ip

private_block_2 :
    (ip : ℕ)
    → ip < 4294967296
    → (byte_1 ip == 172 && between 16 31 (byte_2 ip)) ≡ in_block 2886729728 1048576 ip
private_block_2 ip h = ground arith

-- An IPv4 address is private exactly if it lies in one of the blocks 10.0.0.0/8, 172.16.0.0/12 and
-- 192.168.0.0/16.
pub is_address_private_v4_lem :
    (ip : ℕ) → ip < 4294967296 → is_address_private_v4 ip ≡ private_blocks ip
unfolding is_address_private_v4
is_address_private_v4_lem ip h = ground arith

-- In order: loopback, link-local, carrier-grade NAT, the three blocks for documentation, multicast,
-- reserved; and the address 0.0.0.0.
abbrev pub public_blocks : ℕ → Bool
public_blocks ip =
    not (private_blocks ip)
    && (not (in_block 2130706432 16777216 ip)
        && (not (in_block 2851995648 65536 ip)
            && (not (in_block 1681915904 4194304 ip)
                && (not (in_block 3221225984 256 ip)
                    && (not (in_block 3325256704 256 ip)
                        && (not (in_block 3405803776 256 ip)
                            && (not (in_block 3758096384 268435456 ip)
                                && (not (in_block 4026531840 268435456 ip) && not (ip == 0)))))))))

if_false : (g x y z : Bool) → g ≡ y → x ≡ z → (if g then false else x) ≡ not y && z
if_false true x true z e f = refl
if_false true x false z e f = cc
if_false false x true z e f = cc
if_false false x false z e f = f

last_test :
    (ip : ℕ)
    → (if leb 240 (byte_1 ip) then false else if ip == 4294967295 || ip == 0 then false else true)
      ≡ not (leb 240 (byte_1 ip)) && not (ip == 0)
last_test ip = ground arith

module _ (ip : ℕ) (h : ip < 4294967296) where
  loopback : (byte_1 ip == 127) ≡ in_block 2130706432 16777216 ip
  loopback = ground arith

  link_local : (byte_1 ip == 169 && byte_2 ip == 254) ≡ in_block 2851995648 65536 ip
  link_local = ground arith

  carrier_nat : (byte_1 ip == 100 && between 64 127 (byte_2 ip)) ≡ in_block 1681915904 4194304 ip
  carrier_nat = ground arith

  test_net_1 : (byte_1 ip == 192 && byte_2 ip == 0 && byte_3 ip == 2) ≡ in_block 3221225984 256 ip
  test_net_1 = ground arith

  test_net_2 :
      (byte_1 ip == 198 && byte_2 ip == 51 && byte_3 ip == 100) ≡ in_block 3325256704 256 ip
  test_net_2 = ground arith

  test_net_3 : (byte_1 ip == 203 && byte_2 ip == 0 && byte_3 ip == 113) ≡ in_block 3405803776 256 ip
  test_net_3 = ground arith

  multicast : between 224 239 (byte_1 ip) ≡ in_block 3758096384 268435456 ip
  multicast = ground arith

  reserved : leb 240 (byte_1 ip) ≡ in_block 4026531840 268435456 ip
  reserved = ground arith

  last :
      (if leb 240 (byte_1 ip) then false else if ip == 4294967295 || ip == 0 then false else true)
      ≡ not (in_block 4026531840 268435456 ip) && not (ip == 0)
  last = last_test ip ∙ ap (λ (g : Bool). not g && not (ip == 0)) reserved

public-blocks : (ip : ℕ) → ip < 4294967296 → is_address_public_v4 ip ≡ public_blocks ip
unfolding is_address_public_v4
public-blocks ip h = if_false _ _ _ _ (is_address_private_v4_lem ip h) (
    if_false _ _ _ _ (loopback ip h) (
      if_false _ _ _ _ (link_local ip h) (
        if_false _ _ _ _ (carrier_nat ip h) (
          if_false _ _ _ _ (test_net_1 ip h) (
            if_false _ _ _ _ (test_net_2 ip h) (
              if_false _ _ _ _ (test_net_3 ip h)
                (if_false _ _ _ _ (multicast ip h) (last ip h))))))))

-- 192.0.0.0/24 and 198.18.0.0/15, and 0.0.0.0/8 but for its first address: blocks for special use that
-- have no test.
abbrev pub untested_blocks : ℕ → Bool
untested_blocks ip =
    in_block 3221225472 256 ip
    || in_block 3323068416 131072 ip
    || (in_block 0 16777216 ip && not (ip == 0))

untested-public : (ip : ℕ) → (untested_blocks ip && public_blocks ip) ≡ untested_blocks ip
untested-public ip = ground arith

-- An IPv4 address is called public exactly if it lies in no private block (10.0.0.0/8, 172.16.0.0/12,
-- 192.168.0.0/16) and in none of 127.0.0.0/8, 169.254.0.0/16, 100.64.0.0/10, 192.0.2.0/24,
-- 198.51.100.0/24, 203.0.113.0/24, 224.0.0.0/4 and 240.0.0.0/4, and is not 0.0.0.0. So the addresses of
-- 192.0.0.0/24 and 198.18.0.0/15, and those of 0.0.0.0/8 other than 0.0.0.0, are called public.
pub is_address_public_v4_lem :
    (ip : ℕ)
    → ip < 4294967296
    → (is_address_public_v4 ip ≡ public_blocks ip)
      × ((untested_blocks ip && is_address_public_v4 ip) ≡ untested_blocks ip)
is_address_public_v4_lem ip h = (
  public-blocks ip h,
  ap (λ (b : Bool). untested_blocks ip && b) (public-blocks ip h) ∙ untested-public ip,
)

v4_disjoint : (ip : ℕ) → is_address_private_v4 ip ≡ true → is_address_public_v4 ip ≡ false
unfolding is_address_public_v4
v4_disjoint ip h = rw h refl

v6_disjoint : (b : ℕ) → (b / 2 * 2 == 252) ≡ true → (b / 32 * 32 == 32) ≡ false
v6_disjoint b h = ground arith

-- No address, of either version, is both private and public.
pub private-not_public : (a : IpAddress) → is_address_private a ≡ true → is_address_public a ≡ false
unfolding is_address_private is_address_public is_address_private_v6 is_address_public_v6
private-not_public (v4 ip) h = v4_disjoint ip h
private-not_public (v6 bytes) h = v6_disjoint (first_byte bytes) h
