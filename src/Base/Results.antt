-- ===== src/Base/Results.antt =====
-- What a Rust computation comes to: a value, an error value, a panic, or fuel that ran out.
use Prim.Native.Nat.{ℕ, ◌+◌, ◌-◌, ◌*◌, ◌^◌}
use mathlib.Core.Path.{◌≡◌, ap}
use native.Mathlib.Omega.{arith}
use mathlib.Core.Bool.{Bool, true, false}
use mathlib.Core.Option.{Option, none, some}
use mathlib.Core.List.{List}
use package.ruq.Base.Tests.{ltb, leb, if◌then◌else◌, le→leb}
use package.ruq.Base.Lists.{length, get_elem?, take, drop}

-- `out_of_fuel` is no Rust behaviour: it marks a loop whose bound was too small.
pub data Outcome {ℓ κ} (E : Type ℓ) (A : Type κ) : Type (ℓ ⊔ κ) where
  ok : A → Outcome E A
  err : E → Outcome E A
  panic : Outcome E A
  out_of_fuel : Outcome E A

-- The `?` operator, and sequencing: an error or a panic skips what follows.
infixl 5 ◌>>=◌
abbrev pub ◌>>=◌ {ℓ κ μ} :
    {E : Type ℓ} {A : Type κ} {B : Type μ} → Outcome E A → (A → Outcome E B) → Outcome E B
ok a >>= f = f a
err e >>= f = err e
panic >>= f = panic
out_of_fuel >>= f = out_of_fuel

-- `Result::map_err`.
abbrev pub map_err {ℓ κ μ} :
    {E : Type ℓ} {F : Type κ} {A : Type μ} → (E → F) → Outcome E A → Outcome F A
map_err f (ok a) = ok a
map_err f (err e) = err (f e)
map_err f panic = panic
map_err f out_of_fuel = out_of_fuel

-- `Option::ok_or`.
abbrev pub ok_or {ℓ κ} : {E : Type ℓ} {A : Type κ} → E → Option A → Outcome E A
ok_or e none = err e
ok_or e (some a) = ok a

module _ {ℓ κ} {E : Type ℓ} {A : Type κ} where
  -- `xs[i]`, `&xs[a..]` and `&xs[a..b]`: out of range they panic.
  abbrev pub index : List A → ℕ → Outcome E A
  index xs i = elim (get_elem? xs i) [ none ↦ panic | some x ↦ ok x ]

  abbrev pub slice_from : List A → ℕ → Outcome E (List A)
  slice_from xs a = if leb a (length xs) then ok (drop a xs) else panic

  abbrev pub slice : List A → ℕ → ℕ → Outcome E (List A)
  slice xs a b =
      if leb a b then if leb b (length xs) then ok (take (b - a) (drop a xs)) else panic else panic

-- `a - b` on an unsigned type, with overflow checks.
abbrev pub checked_sub {ℓ} : {E : Type ℓ} → ℕ → ℕ → Outcome E ℕ
checked_sub a b = if leb b a then ok (a - b) else panic

-- `a + b` on a type of the given number of bits, with overflow checks.
abbrev pub checked_add {ℓ} : {E : Type ℓ} → ℕ → ℕ → ℕ → Outcome E ℕ
checked_add width a b = if ltb (a + b) (2 ^ width) then ok (a + b) else panic

-- `xs.get(a..)` and `xs.get(a..b)`.
module _ {ℓ} {A : Type ℓ} where
  abbrev pub get_from : List A → ℕ → Option (List A)
  get_from xs a = if leb a (length xs) then some (drop a xs) else none

  abbrev pub get_range : List A → ℕ → ℕ → Option (List A)
  get_range xs a b =
      if leb a b then if leb b (length xs) then some (take (b - a) (drop a xs)) else none else none

-- `a * b` on such a type.
abbrev pub checked_mul {ℓ} : {E : Type ℓ} → ℕ → ℕ → ℕ → Outcome E ℕ
checked_mul width a b = if ltb (a * b) (2 ^ width) then ok (a * b) else panic

-- To follow a run whose next action is known to succeed, or whose next test is known.
pub bind_step {ℓ κ μ} :
    {E : Type ℓ} {A : Type κ} {B : Type μ} (m : Outcome E A) (f : A → Outcome E B) {a : A}
    {r : Outcome E B}
    → m ≡ ok a
    → f a ≡ r
    → (m >>= f) ≡ r
bind_step m f e k = rw e k

pub else_step {ℓ} :
    {A : Type ℓ} (b : Bool) (x y : A) {r : A} → b ≡ false → y ≡ r → (if b then x else y) ≡ r
else_step b x y e k = rw e k

pub then_step {ℓ} :
    {A : Type ℓ} (b : Bool) (x y : A) {r : A} → b ≡ true → x ≡ r → (if b then x else y) ≡ r
then_step b x y e k = rw e k

pub checked_sub_eq {ℓ} : {E : Type ℓ} (a b c : ℕ) → a ≡ b + c → checked_sub {E = E} a b ≡ ok c
checked_sub_eq a b c h = rw (le→leb b a (omega arith)) (ap ok (omega arith))

pub ok_count {ℓ κ} :
    {E : Type ℓ} {A : Type κ} (a : A) {m n : ℕ}
    → m ≡ n
    → ◌≡◌ {A = Outcome E (A × ℕ)} (ok (a, m)) (ok (a, n))
ok_count a e = ap (λ (k : ℕ). ok (a, k)) e
