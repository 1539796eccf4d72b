-- ===== src/Prelude/Fallible.antt =====
-- What a Rust call that can fail does: it returns `Ok`, it returns `Err`, or it panics (an index or a
-- slice out of range, an `assert!`, an `unwrap`). `diverge` is no Rust outcome: a loop of the model
-- ran out of fuel.
use mathlib.Core.Path.{◌≡◌, refl}
use mathlib.Core.Bool.{Bool, true, false}
use mathlib.Core.Option.{Option, none, some}

pub data Outcome {ℓ κ} (E : Type κ) (A : Type ℓ) : Type (ℓ ⊔ κ) where
  ok : A → Outcome E A
  err : E → Outcome E A
  panic : Outcome E A
  diverge : Outcome E A

-- `if !test { return Err(e) }`.
abbrev pub ensure {μ} : {E : Type μ} → Bool → E → Outcome E (Unit {0})
ensure true e = ok tt
ensure false e = err e

-- A bounds check or an `assert!`.
abbrev pub check {μ} : {E : Type μ} → Bool → Outcome E (Unit {0})
check true = ok tt
check false = panic

-- `ok_or(e)?`.
abbrev pub ok_or {ℓ μ} : {E : Type μ} {A : Type ℓ} → Option A → E → Outcome E A
ok_or (some a) e = ok a
ok_or none e = err e

-- `unwrap()`.
abbrev pub unwrap {ℓ μ} : {E : Type μ} {A : Type ℓ} → Option A → Outcome E A
unwrap (some a) = ok a
unwrap none = panic

-- `map_err(f)`.
abbrev pub map_err {ℓ κ μ} :
    {D : Type κ} {E : Type μ} {A : Type ℓ} → (D → E) → Outcome D A → Outcome E A
map_err f (ok a) = ok a
map_err f (err e) = err (f e)
map_err f panic = panic
map_err f diverge = diverge

-- `call?` followed by what uses its value. A failure skips the rest.
infixl 5 ◌>>=◌ ◌>>◌
abbrev pub ◌>>=◌ {ℓ κ μ} :
    {E : Type μ} {A : Type ℓ} {B : Type κ} → Outcome E A → (A → Outcome E B) → Outcome E B
panic >>= next = panic
diverge >>= next = diverge
err why >>= next = err why
ok value >>= next = next value

abbrev pub ◌>>◌ {ℓ μ} : {E : Type μ} {B : Type ℓ} → Outcome E (Unit {0}) → Outcome E B → Outcome E B
first >> second = first >>= λ done. second

-- The call returns: it neither panics nor runs for ever.
abbrev pub Returns {ℓ μ} : {E : Type μ} {A : Type ℓ} → Outcome E A → Type 0
Returns (ok a) = Unit {0}
Returns (err e) = Unit {0}
Returns panic = ⊥
Returns diverge = ⊥

pub >>=-eq-ok {ℓ κ μ} :
    {E : Type μ} {A : Type ℓ} {B : Type κ} (call : Outcome E A) (next : A → Outcome E B) {out : B}
    → call >>= next ≡ ok out
    → (value : A) × (call ≡ ok value) × (next value ≡ ok out)
>>=-eq-ok panic next h = cc
>>=-eq-ok diverge next h = cc
>>=-eq-ok (err why) next h = cc
>>=-eq-ok (ok value) next h = (value, refl, h)

pub >>=-Returns {ℓ κ μ} :
    {E : Type μ} {A : Type ℓ} {B : Type κ} (call : Outcome E A) (next : A → Outcome E B)
    → Returns call
    → ((value : A) → Returns (next value))
    → Returns (call >>= next)
>>=-Returns (ok value) next h k = k value
>>=-Returns (err why) next h k = tt
>>=-Returns panic next h k = absurd h
>>=-Returns diverge next h k = absurd h

pub ensure-Returns {μ} : {E : Type μ} (test : Bool) (e : E) → Returns (ensure test e)
ensure-Returns true e = tt
ensure-Returns false e = tt

pub ok_or-Returns {ℓ μ} : {E : Type μ} {A : Type ℓ} (o : Option A) (e : E) → Returns (ok_or o e)
ok_or-Returns (some a) e = tt
ok_or-Returns none e = tt

pub map_err-Returns {ℓ κ μ} :
    {D : Type κ} {E : Type μ} {A : Type ℓ} (f : D → E) (call : Outcome D A)
    → Returns call
    → Returns (map_err f call)
map_err-Returns f (ok a) h = tt
map_err-Returns f (err e) h = tt
map_err-Returns f panic h = absurd h
map_err-Returns f diverge h = absurd h
