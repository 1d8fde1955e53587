-- ===== src/Base/Gives.antt =====
-- What the result of a Rust computation is like, when there is one; with rules for `search`.
use mathlib.Core.Path.{◌≡◌, refl, subst}
use mathlib.Core.Bool.{Bool, true, false}
use package.ruq.Base.Tests.{if◌then◌else◌}
use package.ruq.Base.Results.{Outcome, ok, err, panic, out_of_fuel, ◌>>=◌, map_err}

pub record Gives {E A : Type 0} (Q : A → Type 0) (m : Outcome E A) : Type 0 where
  pub given : (a : A) → m ≡ ok a → Q a

module _ {E A : Type 0} {Q : A → Type 0} where
  pub Gives-ok : (a : A) → Q a → Gives {E = E} Q (ok a)
  Gives-ok a h = record { given = λ b e. subst Q (let q : a ≡ b = cc e in q) h }

  pub Gives-err : (e : E) → Gives {E = E} Q (err e)
  Gives-err x = record { given = λ b e. cc e }

  pub Gives-panic : Gives {E = E} Q panic
  Gives-panic = record { given = λ b e. cc e }

  pub Gives-fuel : Gives {E = E} Q out_of_fuel
  Gives-fuel = record { given = λ b e. cc e }

  pub Gives-if :
      (b : Bool) (x y : Outcome E A) → Gives Q x → Gives Q y → Gives Q (if b then x else y)
  Gives-if true x y h k = h
  Gives-if false x y h k = k

  pub Gives-bind :
      {B : Type 0} {R : B → Type 0} (m : Outcome E A) (f : A → Outcome E B)
      → Gives Q m
      → ((a : A) → Q a → Gives R (f a))
      → Gives R (m >>= f)
  Gives-bind (ok a) f h k = k a (h.given a refl)
  Gives-bind (err x) f h k = record { given = λ b e. cc e }
  Gives-bind panic f h k = record { given = λ b e. cc e }
  Gives-bind out_of_fuel f h k = record { given = λ b e. cc e }

module _ {E A : Type 0} where
  pub Gives-any : (m : Outcome E A) → Gives {E = E} (λ _. Unit) m
  Gives-any m = record { given = λ a e. tt }

-- One action after the other.
pub Gives-then :
    {E A B : Type 0} {Q : A → Type 0} {R : B → Type 0} {m : Outcome E A} {f : A → Outcome E B}
    → Gives Q m
    → ((a : A) → Q a → Gives R (f a))
    → Gives R (m >>= f)
Gives-then h k = Gives-bind _ _ h k

-- Another error value.
pub Gives-map_err :
    {E F A : Type 0} {Q : A → Type 0} (g : E → F) (m : Outcome E A)
    → Gives Q m
    → Gives Q (map_err g m)
Gives-map_err g (ok a) h = Gives-ok a (h.given a refl)
Gives-map_err g (err e) h = Gives-err (g e)
Gives-map_err g panic h = Gives-panic
Gives-map_err g out_of_fuel h = Gives-fuel
