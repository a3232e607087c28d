-- ===== src/AddressResolver/Lists.antt =====
-- The lists of addresses.
use libre_connect.Base.{
  ℕ, ◌≡◌, refl, ap, ◌∙◌, Bool, true, false, ◌&&◌, List, [], ◌∷◌, ◌==◌, All, Bool-cases, inl, inr,
  ◌⊎◌, ==→eq,
}
use libre_connect.AddressResolver.{
  IpAddress, v4, v6, is_v4, same_bytes, same_address, push_unique, enumerate_from,
  enumerate_all_addresses, keep, is_address_public, is_address_private, get_all_ipv4,
  get_all_public_ipv4, get_all_private_ipv4, get_all_ipv6, get_all_public_ipv6,
  get_all_private_ipv6,
}

-- No two addresses of the list are the same.
abbrev pub IsDistinct : List IpAddress → Type 0
IsDistinct [] = Unit
IsDistinct (x ∷ xs) = All (λ y. same_address x y ≡ false) xs × IsDistinct xs

abbrev Avoids : IpAddress → List IpAddress → Type 0
Avoids x = All (λ y. same_address x y ≡ false)

push_unique-Avoids :
    (x : IpAddress) (out : List IpAddress) (a : IpAddress)
    → same_address x a ≡ false
    → Avoids x out
    → Avoids x (push_unique out a)
unfolding push_unique
push_unique-Avoids x [] a e h = (e, tt)
push_unique-Avoids x (y ∷ out) a e h = elim (Bool-cases (same_address y a)) [
  | inl old ↦ rw old h
  | inr new ↦ rw new (h.0, push_unique-Avoids x out a e h.1)
]

push_unique-IsDistinct :
    (out : List IpAddress) (a : IpAddress) → IsDistinct out → IsDistinct (push_unique out a)
unfolding push_unique
push_unique-IsDistinct [] a h = (tt, tt)
push_unique-IsDistinct (x ∷ out) a h = elim (Bool-cases (same_address x a)) [
  | inl old ↦ rw old h
  | inr new ↦ rw new (push_unique-Avoids x out a new h.0, push_unique-IsDistinct out a h.1)
]

enumerate_from-IsDistinct :
    (found result : List IpAddress) → IsDistinct result → IsDistinct (enumerate_from result found)
unfolding enumerate_from
enumerate_from-IsDistinct [] result h = h
enumerate_from-IsDistinct (a ∷ found) result h =
    enumerate_from-IsDistinct found (push_unique result a) (push_unique-IsDistinct result a h)

keep-Avoids :
    (test : IpAddress → Bool) (x : IpAddress) (all : List IpAddress)
    → Avoids x all
    → Avoids x (keep test all)
keep-Avoids test x [] h = tt
keep-Avoids test x (a ∷ all) h = elim (Bool-cases (test a)) [
  | inl kept ↦ rw kept (h.0, keep-Avoids test x all h.1)
  | inr gone ↦ rw gone (keep-Avoids test x all h.1)
]

keep-IsDistinct :
    (test : IpAddress → Bool) (all : List IpAddress) → IsDistinct all → IsDistinct (keep test all)
keep-IsDistinct test [] h = tt
keep-IsDistinct test (a ∷ all) h = elim (Bool-cases (test a)) [
  | inl kept ↦ rw kept (keep-Avoids test a all h.0, keep-IsDistinct test all h.1)
  | inr gone ↦ rw gone (keep-IsDistinct test all h.1)
]

-- However often the interfaces report an address, the lists of all addresses and of the public and
-- private ones of both versions hold it once at most.
pub addresses-IsDistinct :
    (found : List IpAddress)
    → IsDistinct (enumerate_all_addresses found)
      × (IsDistinct (get_all_public_ipv4 found)
          × (IsDistinct (get_all_private_ipv4 found)
              × (IsDistinct (get_all_public_ipv6 found) × IsDistinct (get_all_private_ipv6 found))))
unfolding enumerate_all_addresses get_all_ipv4 get_all_ipv6 get_all_public_ipv4 get_all_private_ipv4
    get_all_public_ipv6 get_all_private_ipv6
addresses-IsDistinct found =
    let all = enumerate_from-IsDistinct found [] tt in
    (
      all,
      (
        keep-IsDistinct is_address_public _ (keep-IsDistinct _ _ all),
        (
          keep-IsDistinct is_address_private _ (keep-IsDistinct _ _ all),
          (
            keep-IsDistinct is_address_public _ (keep-IsDistinct _ _ all),
            keep-IsDistinct is_address_private _ (keep-IsDistinct _ _ all),
          ),
        ),
      ),
    )

-- Membership.
abbrev pub In : IpAddress → List IpAddress → Type 0
In a [] = ⊥
In a (x ∷ xs) = (x ≡ a) ⊎ In a xs

same_bytes→≡ : (a b : List ℕ) → same_bytes a b ≡ true → a ≡ b
same_bytes→≡ [] [] h = refl
same_bytes→≡ [] (y ∷ ys) h = cc
same_bytes→≡ (x ∷ xs) [] h = cc
same_bytes→≡ (x ∷ xs) (y ∷ ys) h =
    let (p, q) = both (x == y) (same_bytes xs ys) h in λ i. ==→eq x y p i ∷ same_bytes→≡ xs ys q i
  where
    both : (g k : Bool) → (g && k) ≡ true → (g ≡ true) × (k ≡ true)
    both true k e = (refl, e)
    both false k e = cc

same_address→≡ : (a b : IpAddress) → same_address a b ≡ true → a ≡ b
unfolding same_address
same_address→≡ (v4 a) (v4 b) h = ap v4 (==→eq a b h)
same_address→≡ (v4 a) (v6 b) h = cc
same_address→≡ (v6 a) (v4 b) h = cc
same_address→≡ (v6 a) (v6 b) h = ap v6 (same_bytes→≡ a b h)

In-push_unique :
    (a : IpAddress) (out : List IpAddress) (b : IpAddress)
    → (b ≡ a) ⊎ In a out
    → In a (push_unique out b)
unfolding push_unique
In-push_unique a [] b h = h
In-push_unique a (x ∷ out) b h = elim (Bool-cases (same_address x b)) [
  | inl old ↦ rw old (from_old h (same_address→≡ x b old))
  | inr new ↦ rw new (from_new h (In-push_unique a out b))
]
  where
    from_old : (b ≡ a) ⊎ In a (x ∷ out) → x ≡ b → In a (x ∷ out)
    from_old (inl e) s = inl (s ∙ e)
    from_old (inr k) s = k

    from_new :
        (b ≡ a) ⊎ In a (x ∷ out)
        → ((b ≡ a) ⊎ In a out → In a (push_unique out b))
        → In a (x ∷ push_unique out b)
    from_new (inl e) f = inr (f (inl e))
    from_new (inr (inl e)) f = inl e
    from_new (inr (inr k)) f = inr (f (inr k))

In-enumerate_from :
    (a : IpAddress) (found result : List IpAddress)
    → In a found ⊎ In a result
    → In a (enumerate_from result found)
unfolding enumerate_from
In-enumerate_from a [] result (inl h) = absurd h
In-enumerate_from a [] result (inr h) = h
In-enumerate_from a (x ∷ found) result (inl (inl e)) =
    In-enumerate_from a found (push_unique result x) (inr (In-push_unique a result x (inl e)))
In-enumerate_from a (x ∷ found) result (inl (inr h)) =
    In-enumerate_from a found (push_unique result x) (inl h)
In-enumerate_from a (x ∷ found) result (inr h) =
    In-enumerate_from a found (push_unique result x) (inr (In-push_unique a result x (inr h)))

In-keep :
    (test : IpAddress → Bool) (a : IpAddress) (all : List IpAddress)
    → test a ≡ true
    → In a all
    → In a (keep test all)
In-keep test a [] t h = absurd h
In-keep test a (x ∷ all) t (inl e) = rw (ap test e ∙ t) (inl e)
In-keep test a (x ∷ all) t (inr h) = elim (Bool-cases (test x)) [
  | inl kept ↦ rw kept (inr (In-keep test a all t h))
  | inr gone ↦ rw gone (In-keep test a all t h)
]

-- No address is lost: one that the interfaces report is in the list of all addresses, and if it is an
-- IPv4 address that the tests call public or private, it is in the list of those.
pub addresses_complete :
    (found : List IpAddress) (a : IpAddress)
    → In a found
    → In a (enumerate_all_addresses found)
      × ((is_v4 a ≡ true → is_address_public a ≡ true → In a (get_all_public_ipv4 found))
          × (is_v4 a ≡ true → is_address_private a ≡ true → In a (get_all_private_ipv4 found)))
unfolding enumerate_all_addresses get_all_ipv4 get_all_public_ipv4 get_all_private_ipv4
addresses_complete found a h =
    let there = In-enumerate_from a found [] (inl h) in
    (
      there,
      (
        λ v t. In-keep is_address_public a _ t (In-keep is_v4 a _ v there),
        λ v t. In-keep is_address_private a _ t (In-keep is_v4 a _ v there),
      ),
    )
