-- ===== src/Base/Results.antt =====
-- C++ code that may throw: a value or the exception. `boost`, `asio` and the standard library throw
-- some of these, the sources the rest.
use mathlib.Core.Path.{◌≡◌, refl}
use mathlib.Core.Bool.{Bool, true, false}

pub data Fault : Type 0 where
  serialize_out_of_bounds : Fault
  primitive_out_of_bounds : Fault
  string_out_of_bounds : Fault
  vector_out_of_bounds : Fault
  vector_exceeds_payload : Fault
  bad_uuid : Fault
  end_of_stream : Fault
  channel_unavailable : Fault
  bad_header : Fault
  transfer_failed : Fault
  path_error : Fault
  length_error : Fault

-- What a call comes back with.
pub data Result {ℓ} (A : Type ℓ) : Type ℓ where
  ok : (value : A) → Result A
  err : (fault : Fault) → Result A

-- `if (test) throw fault;`
abbrev pub throw_if : Bool → Fault → Result (Unit {0})
throw_if true fault = err fault
throw_if false fault = ok tt

-- The rest of a function runs on the value; an exception leaves it.
infixl 5 ◌>>=◌
abbrev pub ◌>>=◌ {ℓ κ} : {A : Type ℓ} {B : Type κ} → Result A → (A → Result B) → Result B
err fault >>= rest = err fault
ok value >>= rest = rest value

infixl 5 ◌>>◌
abbrev pub ◌>>◌ {κ} : {B : Type κ} → Result (Unit {0}) → Result B → Result B
check >> rest = check >>= λ _. rest

pub throw_if-eq-ok : (t : Bool) (fault : Fault) → throw_if t fault ≡ ok tt → t ≡ false
throw_if-eq-ok true fault h = cc
throw_if-eq-ok false fault h = refl

module _ {ℓ κ} {A : Type ℓ} {B : Type κ} where
  -- Where a chain has ended well, its first step has.
  pub >>=-eq-ok :
      (first : Result A) (rest : A → Result B) {b : B}
      → (first >>= rest) ≡ ok b
      → (a : A) × (first ≡ ok a) × (rest a ≡ ok b)
  >>=-eq-ok (err fault) rest h = cc
  >>=-eq-ok (ok value) rest h = (value, refl, h)
