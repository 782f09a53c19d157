-- ===== src/Json/Sound/Outcome.antt =====
-- src/domain/RawJson.cpp: the steps of a parse that ends well.
use arkham_horror_linux.Common.{Bool, true, false, if◌then◌else◌, ◌≡◌, refl, arith, subst}
use arkham_horror_linux.Json.{Bytes}
use arkham_horror_linux.Json.Parser.{JsonError, Result, ok, failed, ◌>>=◌}

module _ {A B : Type 0} where
  pub ok_inv :
      (r : Result A) (f : A → Result B) (y : B)
      → (r >>= f) ≡ ok y
      → (a : A) × (r ≡ ok a) × (f a ≡ ok y)
  ok_inv (ok a) f y e = (a, refl, e)
  ok_inv (failed x b) f y e = absurd (ground (arith, e))

module _ {A : Type 0} where
  pub past_inv :
      (b : Bool) (x : JsonError) (at : Bytes) (r : Result A) (y : A)
      → (if b then failed x at else r) ≡ ok y
      → (b ≡ false) × (r ≡ ok y)
  past_inv true x at r y e = absurd (ground (arith, e))
  past_inv false x at r y e = (refl, e)

  pub passed_inv :
      (b : Bool) (x : JsonError) (at : Bytes) (r : Result A) (y : A)
      → (if b then r else failed x at) ≡ ok y
      → (b ≡ true) × (r ≡ ok y)
  passed_inv false x at r y e = absurd (ground (arith, e))
  passed_inv true x at r y e = (refl, e)

-- What holds of the result named holds of the one it is equal to.
pub ok_subst : {A : Type 0} (P : A → Type 0) (a c : A) → ok a ≡ ok c → P a → P c
ok_subst P a c e h = let same : a ≡ c = ground (arith, e) in subst P same h

pub either_way :
    {A P : Type 0} {r s : Result A} {y : A} (b : Bool)
    → (r ≡ ok y → P)
    → (s ≡ ok y → P)
    → (if b then r else s) ≡ ok y
    → P
either_way true f g e = f e
either_way false f g e = g e
