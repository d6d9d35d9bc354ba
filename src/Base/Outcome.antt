-- ===== src/Base/Outcome.antt =====
-- What a call of the kernel's code comes to: a value, a failed `assert` (lib/macros.h: the
-- kernel logs it and exits), or a memory access outside an array, which C leaves undefined.
use Prim.Native.Nat.{ℕ, ◌<◌}
use mathlib.Core.Path.{◌≡◌}
use mathlib.Core.Bool.{Bool, true, false}
use mathlib.Core.Option.{Option, none, some}
use mathlib.Core.List.{List}
use native.Mathlib.Omega.{arith}
use dumboss.Base.Tests.{ltb, if◌then◌else◌}
use dumboss.Base.Lists.{length, get_elem?, get_or, get_elem?-eq-get_or, set}

pub data Res {ℓ} (A : Type ℓ) : Type ℓ where
  ok : A → Res A
  panic fault : Res A

infixl 5 ◌>>=◌ ◌>>◌
abbrev pub ◌>>=◌ {ℓ κ} : {A : Type ℓ} {B : Type κ} → Res A → (A → Res B) → Res B
ok a >>= f = f a
panic >>= f = panic
fault >>= f = fault

abbrev pub ◌>>◌ {ℓ} : {B : Type ℓ} → Res (Unit {0}) → Res B → Res B
m >> k = m >>= λ _. k

abbrev pub assert : Bool → Res (Unit {0})
assert true = ok tt
assert false = panic

-- `data[i]`, read and written.
abbrev pub of_option {ℓ} : {A : Type ℓ} → Option A → Res A
of_option none = fault
of_option (some a) = ok a

abbrev pub load {ℓ} : {A : Type ℓ} → List A → ℕ → Res A
load xs i = of_option (get_elem? xs i)

abbrev pub store {ℓ} : {A : Type ℓ} → List A → ℕ → A → Res (List A)
store xs i v = if ltb i (length xs) then ok (set xs i v) else fault

pub load-ok {ℓ} :
    {A : Type ℓ} (xs : List A) (i : ℕ) (d : A) → i < length xs → load xs i ≡ ok (get_or xs i d)
load-ok xs i d h = rw (get_elem?-eq-get_or xs i d h)

pub store-ok {ℓ} :
    {A : Type ℓ} (xs : List A) (i : ℕ) (v : A) → i < length xs → store xs i v ≡ ok (set xs i v)
store-ok xs i v h = ground arith
