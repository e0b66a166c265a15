-- ===== src/Result.antt =====
-- The exceptions that the program throws, or lets through, as values.
use okx_cpp_api.Prelude.{
  ℕ, ◌≡◌, refl, ◌⊎◌, inl, inr, Bool, true, false, not, Option, none, some, Bytes,
}

-- `bad_response` is `checkResponse`'s, `api_error` that of `handleOKXResponse`, `download_failed`
-- that of `downloadBinary`; `foreign` is thrown by a library, with its text; `undefined` is undefined
-- behaviour, which is no exception and which nothing catches.
pub data Error : Type 0 where
  bad_response : ℕ → Bytes → Error
  api_error : Bytes → Bytes → Error
  download_failed : ℕ → Error
  runtime_error : Bytes → Error
  foreign : Bytes → Error
  undefined : Error

unfoldable pub is_undefined : Error → Bool
is_undefined undefined = true
is_undefined _ = false

pub data Result {ℓ} (A : Type ℓ) : Type ℓ where
  ok : A → Result A
  err : Error → Result A

-- `abbrev`, so that `ok a >>= f` computes wherever it stands.
infixl 5 ◌>>=◌
abbrev pub ◌>>=◌ {ℓ κ} : {A : Type ℓ} {B : Type κ} → Result A → (A → Result B) → Result B
ok a >>= f = f a
err e >>= f = err e

pub Result-cases {ℓ} :
    {A : Type ℓ} (r : Result A) → ((a : A) × (r ≡ ok a)) ⊎ ((e : Error) × (r ≡ err e))
Result-cases (ok a) = inl (a, refl)
Result-cases (err e) = inr (e, refl)

-- Whether a result is undefined behaviour, whether it is an exception, and what a `catch` of exceptions leaves
-- of it.
unfoldable pub ends_undefined {ℓ} : {A : Type ℓ} → Result A → Bool
unfolding is_undefined
ends_undefined (ok a) = false
ends_undefined (err e) = is_undefined e

unfoldable pub throws {ℓ} : {A : Type ℓ} → Result A → Bool
unfolding is_undefined
throws (ok a) = false
throws (err e) = not (is_undefined e)

abbrev pub caught {ℓ} : {A : Type ℓ} → Result A → Option A
caught (ok a) = some a
caught (err e) = none
