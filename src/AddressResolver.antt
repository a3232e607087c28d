-- ===== src/AddressResolver.antt =====
-- utilities/network/src/AddressResolver.cpp: which addresses are public and which are private, and the
-- lists of them. An IPv4 address is the number `to_uint()`, an IPv6 address its 16 bytes. The system
-- calls that enumerate the interfaces are not read: the addresses that they yield are an argument.
pub mod Blocks
pub mod Lists
mod Tests
use libre_connect.Base.{
  ℕ, ◌+◌, ◌*◌, ◌/◌, ◌%◌, ◌^◌, ◌≡◌, Bool, true, false, not, ◌||◌, ◌&&◌, List, [], ◌∷◌, ◌++◌, ltb,
  leb, ◌==◌, if◌then◌else◌,
}

pub data IpAddress : Type 0 where
  v4 : ℕ → IpAddress
  v6 : List ℕ → IpAddress

-- `(ip >> 24) & 0xFF` and so on
abbrev pub byte_1 : ℕ → ℕ
byte_1 ip = ip / 16777216 % 256

abbrev pub byte_2 : ℕ → ℕ
byte_2 ip = ip / 65536 % 256

abbrev pub byte_3 : ℕ → ℕ
byte_3 ip = ip / 256 % 256

-- `b >= low && b <= high`
abbrev pub between : ℕ → ℕ → ℕ → Bool
between low high b = leb low b && leb b high

unfoldable pub is_address_private_v4 : ℕ → Bool
is_address_private_v4 ip =
    let b1 = byte_1 ip in
    let b2 = byte_2 ip in
    if b1 == 10
    then true
    else if b1 == 172 && between 16 31 b2
    then true
    else if b1 == 192 && b2 == 168
    then true
    else false

unfoldable pub is_address_public_v4 : ℕ → Bool
is_address_public_v4 ip =
    let b1 = byte_1 ip in
    let b2 = byte_2 ip in
    if is_address_private_v4 ip
    then false
    else if b1 == 127
    then false
    else if b1 == 169 && b2 == 254
    then false
    else if b1 == 100 && between 64 127 b2
    then false
    else if b1 == 192 && b2 == 0 && byte_3 ip == 2
    then false
    else if b1 == 198 && b2 == 51 && byte_3 ip == 100
    then false
    else if b1 == 203 && b2 == 0 && byte_3 ip == 113
    then false
    else if between 224 239 b1
    then false
    else if leb 240 b1
    then false
    else if ip == 4294967295 || ip == 0
    then false
    else true

-- `to_bytes()[0]`
unfoldable pub first_byte : List ℕ → ℕ
first_byte [] = 0
first_byte (b ∷ bytes) = b

-- `(b & 0xE0) == 0x20` keeps the three high bits, `(b & 0xFE) == 0xFC` the seven.
unfoldable pub is_address_public_v6 : List ℕ → Bool
is_address_public_v6 bytes = first_byte bytes / 32 * 32 == 32

unfoldable pub is_address_private_v6 : List ℕ → Bool
is_address_private_v6 bytes = first_byte bytes / 2 * 2 == 252

unfoldable pub is_address_public : IpAddress → Bool
is_address_public (v4 ip) = is_address_public_v4 ip
is_address_public (v6 bytes) = is_address_public_v6 bytes

unfoldable pub is_address_private : IpAddress → Bool
is_address_private (v4 ip) = is_address_private_v4 ip
is_address_private (v6 bytes) = is_address_private_v6 bytes

abbrev pub same_bytes : List ℕ → List ℕ → Bool
same_bytes [] [] = true
same_bytes [] (y ∷ ys) = false
same_bytes (x ∷ xs) [] = false
same_bytes (x ∷ xs) (y ∷ ys) = (x == y) && same_bytes xs ys

unfoldable pub same_address : IpAddress → IpAddress → Bool
same_address (v4 a) (v4 b) = a == b
same_address (v4 a) (v6 b) = false
same_address (v6 a) (v4 b) = false
same_address (v6 a) (v6 b) = same_bytes a b

-- `for (auto &x : out) if (x == a) return; out.push_back(a);`
unfoldable pub push_unique : List IpAddress → IpAddress → List IpAddress
push_unique [] a = a ∷ []
push_unique (x ∷ out) a =
    let rest = push_unique out a in if same_address x a then x ∷ out else x ∷ rest

-- The loops over the interfaces, from the addresses that pass their tests.
unfoldable pub enumerate_from : List IpAddress → List IpAddress → List IpAddress
enumerate_from result [] = result
enumerate_from result (a ∷ found) = enumerate_from (push_unique result a) found

unfoldable pub enumerate_all_addresses : List IpAddress → List IpAddress
enumerate_all_addresses found = enumerate_from [] found

-- `for (const auto& a : all) if (test) out.push_back(a);`
abbrev pub keep : (IpAddress → Bool) → List IpAddress → List IpAddress
keep test [] = []
keep test (a ∷ all) = let out = keep test all in if test a then a ∷ out else out

abbrev pub is_v4 : IpAddress → Bool
is_v4 (v4 ip) = true
is_v4 (v6 bytes) = false

abbrev pub is_v6 : IpAddress → Bool
is_v6 (v4 ip) = false
is_v6 (v6 bytes) = true

unfoldable pub get_all_ipv4 : List IpAddress → List IpAddress
get_all_ipv4 found = keep is_v4 (enumerate_all_addresses found)

unfoldable pub get_all_ipv6 : List IpAddress → List IpAddress
get_all_ipv6 found = keep is_v6 (enumerate_all_addresses found)

unfoldable pub get_all_public_ipv4 : List IpAddress → List IpAddress
get_all_public_ipv4 found = keep is_address_public (get_all_ipv4 found)

unfoldable pub get_all_private_ipv4 : List IpAddress → List IpAddress
get_all_private_ipv4 found = keep is_address_private (get_all_ipv4 found)

unfoldable pub get_all_public_ipv6 : List IpAddress → List IpAddress
get_all_public_ipv6 found = keep is_address_public (get_all_ipv6 found)

unfoldable pub get_all_private_ipv6 : List IpAddress → List IpAddress
get_all_private_ipv6 found = keep is_address_private (get_all_ipv6 found)
