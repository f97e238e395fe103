-- ===== src/Kube/Meta.antt =====
-- Errors of API calls and results of fallible calls. An `error` is its text; an error of the API
-- server keeps the kind that `errors.IsNotFound` and `errors.IsAlreadyExists` ask for.
use automatic_db_upgrades.Common.{String, Bool, true, false, ◌≡◌, refl, ◌⊎◌, inl, inr}

-- `(T, error)`
pub data Result {ℓ} (E A : Type ℓ) : Type ℓ where
  ok : A → Result E A
  err : E → Result E A

pub data ApiError : Type 0 where
  not_found already_exists api_failure : String → ApiError

-- `err.Error()`
abbrev pub text : ApiError → String
text (not_found m) = m
text (already_exists m) = m
text (api_failure m) = m

abbrev pub is_not_found : ApiError → Bool
is_not_found (not_found _) = true
is_not_found _ = false

abbrev pub is_already_exists : ApiError → Bool
is_already_exists (already_exists _) = true
is_already_exists _ = false

pub Result-cases {ℓ} :
    {E A : Type ℓ} (r : Result E A) → ((e : E) × (r ≡ err e)) ⊎ ((a : A) × (r ≡ ok a))
Result-cases (ok a) = inr (a, refl)
Result-cases (err e) = inl (e, refl)
