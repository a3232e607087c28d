-- ===== src/AddressResolver/Tests.antt =====
-- Some addresses.
use libre_connect.Base.{ℕ, ◌≡◌, ◌&&◌, refl, true, List, [], ◌∷◌, arith}
use libre_connect.AddressResolver.{
  IpAddress, v4, v6, is_address_private, is_address_private_v4, is_address_public_v4,
}
use libre_connect.AddressResolver.Blocks.{public_blocks, untested_blocks, is_address_public_v4_lem}

-- 192.168.1.7, 8.8.8.8
abbrev home : ℕ
home = 3232235783

abbrev resolver : ℕ
resolver = 134744072

abbrev found : List IpAddress
found = v4 home ∷ v4 resolver ∷ v4 home ∷ v6 (253 ∷ 0 ∷ []) ∷ []

-- 198.18.0.1
abbrev benchmark : ℕ
benchmark = 3323068417

is_address_public_v4_lem_example :
    (is_address_public_v4 benchmark ≡ public_blocks benchmark)
    × ((untested_blocks benchmark && is_address_public_v4 benchmark) ≡ untested_blocks benchmark)
is_address_public_v4_lem_example = is_address_public_v4_lem benchmark (omega arith)

home_private : is_address_private (v4 home) ≡ true
unfolding is_address_private is_address_private_v4
home_private = refl
