-- ===== src/Prelude/Result.antt =====
-- A Python call that may raise: its value, or the exception's class.
use strategy_gpt.Prelude.{◌≡◌, ◌⊎◌, inl, inr, refl}

pub data Error : Type 0 where
  value_error type_error key_error index_error runtime_error not_implemented attribute_error
        os_error overflow_error :
      Error

pub data Result {ℓ} (A : Type ℓ) : Type ℓ where
  ok : A → Result A
  raise : Error → Result A

infixl 5 ◌>>=◌
abbrev pub ◌>>=◌ {ℓ κ} : {A : Type ℓ} {B : Type κ} → Result A → (A → Result B) → Result B
ok a >>= f = f a
raise e >>= f = raise e

pub Result-cases {ℓ} :
    {A : Type ℓ} (r : Result A) → ((a : A) × (r ≡ ok a)) ⊎ ((e : Error) × (r ≡ raise e))
Result-cases (ok a) = inl (a, refl)
Result-cases (raise e) = inr (e, refl)
