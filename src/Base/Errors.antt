-- ===== src/Base/Errors.antt =====
-- What a call of fallible code ends in: `Result<A, eyre::Error>`, or the panic of a `todo!()` or an
-- `unwrap`. `abbrev`, so that a bind computes wherever it stands.
use mathlib.Core.Path.{◌≡◌, refl}
use mathlib.Core.Option.{Option, none, some}
use Prim.Native.Nat.{ℕ}

-- The messages of the source's own errors, and `foreign` for an error that external code returned.
pub data Error : Type 0 where
  missing_config no_tls_config no_upstream no_servers no_backends : Error
  no_backends_available unsupported_protocol no_certificates no_private_key : Error
  invalid_nameserver invalid_search_domain invalid_address invalid_utf8 : Error
  foreign : ℕ → Error

pub data Outcome {ℓ} (A : Type ℓ) : Type ℓ where
  ok : A → Outcome A
  err : Error → Outcome A
  panic : Outcome A

-- `?` on the first, then the rest.
infixl 5 ◌>>=◌ ◌>>◌
abbrev pub ◌>>=◌ {ℓ κ} : {A : Type ℓ} → {B : Type κ} → Outcome A → (A → Outcome B) → Outcome B
panic >>= rest = panic
err message >>= rest = err message
ok value >>= rest = rest value

abbrev pub ◌>>◌ {κ} : {B : Type κ} → Outcome (Unit {0}) → Outcome B → Outcome B
first >> rest = first >>= λ u. rest

-- `Option::ok_or_else`
abbrev pub ok_or {ℓ} : {A : Type ℓ} → Option A → Error → Outcome A
ok_or none message = err message
ok_or (some value) message = ok value

module _ {ℓ κ} {A : Type ℓ} {B : Type κ} where
  -- Where the whole succeeds, so does the first, and the rest on its value.
  pub >>=-eq-ok :
      (first : Outcome A) (rest : A → Outcome B) {answer : B}
      → (first >>= rest) ≡ ok answer
      → (value : A) × (first ≡ ok value) × (rest value ≡ ok answer)
  >>=-eq-ok panic rest whole = cc
  >>=-eq-ok (err message) rest whole = cc
  >>=-eq-ok (ok value) rest whole = (value, refl, whole)

module _ {ℓ} {A : Type ℓ} where
  pub ok-injective : (a b : A) → ok a ≡ ok b → a ≡ b
  ok-injective a b e = cc
