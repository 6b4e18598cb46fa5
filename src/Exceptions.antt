-- ===== src/Exceptions.antt =====
-- What the code throws: one constructor for each type that `BasicHttpSession::ioLoop` catches
-- (src/server/streams.cpp), and the result of code that may throw.
use getodac.Common.Bytes.{Bytes}
use getodac.Common.Int.{ℤ}
use getodac.Common.{ℕ, ◌≡◌, refl, ◌⊎◌, inl, inr}
use getodac.Http.Response.{Response}

pub data Thrown : Type 0 where
  int_error : ℤ → Thrown
  response_error : Response → Thrown
  std_exception : (what : Bytes) → Thrown
  error_code : (errno : ℕ) → Thrown
  unknown : Thrown

pub data Result {ℓ} (A : Type ℓ) : Type ℓ where
  ok : A → Result A
  throw : Thrown → Result A

infixl 5 ◌>>=◌
abbrev pub ◌>>=◌ {ℓ κ} : {A : Type ℓ} {B : Type κ} → Result A → (A → Result B) → Result B
ok a >>= f = f a
throw e >>= f = throw e

-- If a chain has a result, so has its first step, and the rest gives the result from that.
pub >>=-eq-ok {ℓ κ} :
    {X : Type ℓ} {Y : Type κ} (first : Result X) (rest : X → Result Y) {y : Y}
    → first >>= rest ≡ ok y
    → (x : X) × (first ≡ ok x) × (rest x ≡ ok y)
>>=-eq-ok (throw t) rest e = cc
>>=-eq-ok (ok x) rest e = (x, refl, e)

pub Result-cases {ℓ} :
    {A : Type ℓ} (r : Result A) → ((a : A) × (r ≡ ok a)) ⊎ ((e : Thrown) × (r ≡ throw e))
Result-cases (ok a) = inl (a, refl)
Result-cases (throw e) = inr (e, refl)
