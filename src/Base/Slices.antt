-- ===== src/Base/Slices.antt =====
-- Slices of a list that is given in parts.
use Prim.Native.Nat.{ℕ, ◌+◌, ◌-◌, ◌≤◌}
use mathlib.Core.Path.{◌≡◌, refl, sym, ◌∙◌}
use mathlib.Core.List.{List, [], ◌∷◌, ◌++◌, append_assoc}
use mathlib.Core.Option.{none, some}
use native.Mathlib.Omega.{arith}
use package.ruq.Base.Lists.{length, length-append, take-append_eq, drop-append_eq}
use package.ruq.Base.Tests.{le→leb}
use package.ruq.Base.Results.{ok, slice, slice_from, get_from, get_range}

module _ {ℓ κ} {E : Type ℓ} {A : Type κ} where
  pub slice_from-append :
      (xs ys : List A) (n : ℕ) → n ≡ length xs → slice_from {E = E} (xs ++ ys) n ≡ ok ys
  slice_from-append xs ys n h = ground (arith, drop-append_eq n xs ys h, length-append xs ys)

  pub slice-append :
      (xs ys zs : List A) (a b : ℕ)
      → a ≡ length xs
      → b ≡ length xs + length ys
      → slice {E = E} (xs ++ (ys ++ zs)) a b ≡ ok ys
  slice-append xs ys zs a b ha hb =
      let inside : b ≤ length (xs ++ (ys ++ zs)) =
        omega (arith, length-append xs (ys ++ zs), length-append ys zs) in
      rw (le→leb a b (omega arith), le→leb b (length (xs ++ (ys ++ zs))) inside)
        (rw (drop-append_eq a xs (ys ++ zs) ha)
          (rw (take-append_eq (b - a) ys zs (omega arith)) refl))

-- From the offset `k` on, `xs` goes on as `tail`.
module _ {ℓ} {A : Type ℓ} where
  pub record At (xs : List A) (k : ℕ) (tail : List A) : Type ℓ where
    pub before : List A
    pub splits : xs ≡ before ++ tail
    pub offset : k ≡ length before

  pub At-start : (xs : List A) → At xs 0 xs
  At-start xs = record { before = []; splits = refl; offset = refl }

  pub At-next :
      {xs : List A} {k : ℕ} (ys tail : List A) (n : ℕ)
      → At xs k (ys ++ tail)
      → n ≡ k + length ys
      → At xs n tail
  At-next ys tail n at e = record {
    before = at.before ++ ys;
    splits = at.splits ∙ sym (append_assoc at.before ys tail);
    offset = omega (arith, at.offset, length-append at.before ys);
  }

  pub length-At : {xs : List A} {k : ℕ} {tail : List A} → At xs k tail → length xs ≡ k + length tail
  length-At {tail} at = rw at.splits (omega (arith, at.offset, length-append at.before tail))

module _ {ℓ κ} {E : Type ℓ} {A : Type κ} {xs : List A} {k : ℕ} where
  pub slice_from-At : {tail : List A} → At xs k tail → slice_from {E = E} xs k ≡ ok tail
  slice_from-At {tail} at = rw at.splits (slice_from-append at.before tail k at.offset)

  pub slice-At :
      (ys rest : List A) (n : ℕ)
      → At xs k (ys ++ rest)
      → n ≡ k + length ys
      → slice {E = E} xs k n ≡ ok ys
  slice-At ys rest n at e =
      rw at.splits (slice-append at.before ys rest k n at.offset (omega (arith, at.offset)))

module _ {ℓ} {A : Type ℓ} where
  pub get_range-append :
      (xs ys zs : List A) (a b : ℕ)
      → a ≡ length xs
      → b ≡ length xs + length ys
      → get_range (xs ++ (ys ++ zs)) a b ≡ some ys
  get_range-append xs ys zs a b ha hb =
      let inside : b ≤ length (xs ++ (ys ++ zs)) =
        omega (arith, length-append xs (ys ++ zs), length-append ys zs) in
      rw (le→leb a b (omega arith), le→leb b (length (xs ++ (ys ++ zs))) inside)
        (rw (drop-append_eq a xs (ys ++ zs) ha)
          (rw (take-append_eq (b - a) ys zs (omega arith)) refl))

  -- One behind the end there is nothing, and one behind the first of what follows there is the rest.
  pub get_from_behind : (xs : List A) (a : ℕ) → a ≡ length xs + 1 → get_from xs a ≡ none
  get_from_behind xs a h = ground arith

  pub get_from_second :
      (xs ys : List A) (y : A) (a : ℕ) → a ≡ length xs + 1 → get_from (xs ++ (y ∷ ys)) a ≡ some ys
  get_from_second xs ys y a h =
      let inside : a ≤ length (xs ++ (y ∷ ys)) = omega (arith, length-append xs (y ∷ ys)) in
      rw (le→leb a (length (xs ++ (y ∷ ys))) inside) (
        rw (← append_assoc xs (y ∷ []) ys) (
          rw (drop-append_eq a (xs ++ (y ∷ [])) ys (omega (arith, length-append xs (y ∷ []))))
            refl))
