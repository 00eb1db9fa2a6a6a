-- ===== src/Prelude/Fallible.antt =====
-- Go's `(value, error)` as a sum: the value, or the error.
use mathlib.Core.Path.{◌≡◌, refl}
use mathlib.Core.Bool.{Bool, true, false}

pub data Result {ℓ} (E : Type ℓ) (A : Type ℓ) : Type ℓ where
  ok : A → Result E A
  err : E → Result E A

module _ {E B : Type 0} where
  infixl 5 ◌>>=◌ ◌>>◌
  abbrev pub ◌>>=◌ : {A : Type 0} → Result E A → (A → Result E B) → Result E B
  (ok value) >>= next = next value
  (err why) >>= next = err why

  abbrev pub ◌>>◌ : Result E (Unit {0}) → Result E B → Result E B
  check >> after = check >>= λ _. after

-- `if bad { return err }`.
abbrev pub refuse : {E : Type 0} → Bool → E → Result E (Unit {0})
refuse false why = ok tt
refuse true why = err why

-- A chain that returned a value got one from its first part.
pub bind_inv :
    {E A B : Type 0} (first : Result E A) (next : A → Result E B) {out : B}
    → (first >>= next) ≡ ok out
    → (mid : A) × (first ≡ ok mid) × (next mid ≡ ok out)
bind_inv (err why) next returned = cc
bind_inv (ok mid) next returned = (mid, refl, returned)

pub refuse_inv :
    {E B : Type 0} (bad : Bool) (why : E) (after : Result E B) {out : B}
    → (refuse bad why >> after) ≡ ok out
    → (bad ≡ false) × (after ≡ ok out)
refuse_inv false why after returned = (refl, returned)
refuse_inv true why after returned = cc

pub ok-injective : {E A : Type 0} {a b : A} → ◌≡◌ {A = Result E A} (ok a) (ok b) → a ≡ b
ok-injective h = cc
