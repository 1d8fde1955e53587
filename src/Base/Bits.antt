-- ===== src/Base/Bits.antt =====
-- Masks on one byte as arithmetic, checked over all 256 values.
use Prim.Native.Nat.{ℕ, zero, suc, ◌+◌, ◌*◌, ◌/◌, ◌%◌, ◌<◌, bit_and, bit_or}
use mathlib.Core.Path.{◌≡◌, refl}
use mathlib.Core.Bool.{Bool, true, ◌&&◌}
use native.Mathlib.Omega.{arith}
use package.ruq.Base.Tests.{◌==◌}

same_below : ℕ → (ℕ → ℕ) → (ℕ → ℕ) → Bool
same_below zero f g = true
same_below (suc n) f g = (f n == g n) && same_below n f g

same_below→eq : (n : ℕ) (f g : ℕ → ℕ) → same_below n f g ≡ true → (b : ℕ) → b < n → f b ≡ g b
unfolding same_below
same_below→eq zero f g t b h = absurd (omega arith)
same_below→eq (suc n) f g t b h = ground (arith, same_below→eq n f g (ground arith) b)

pub bit_and-127 : (b : ℕ) → b < 256 → bit_and b 127 ≡ b % 128
unfolding same_below
bit_and-127 = same_below→eq 256 (λ b. bit_and b 127) (λ b. b % 128) refl

pub bit_and-128 : (b : ℕ) → b < 256 → bit_and b 128 ≡ b / 128 * 128
unfolding same_below
bit_and-128 = same_below→eq 256 (λ b. bit_and b 128) (λ b. b / 128 * 128) refl

pub bit_or-128 : (b : ℕ) → b < 128 → bit_or b 128 ≡ b + 128
unfolding same_below
bit_or-128 = same_below→eq 128 (λ b. bit_or b 128) (λ b. b + 128) refl

pub bit_and-8 : (b : ℕ) → b < 256 → bit_and b 8 ≡ b / 8 % 2 * 8
unfolding same_below
bit_and-8 = same_below→eq 256 (λ b. bit_and b 8) (λ b. b / 8 % 2 * 8) refl

pub bit_and-3 : (b : ℕ) → b < 256 → bit_and b 3 ≡ b % 4
unfolding same_below
bit_and-3 = same_below→eq 256 (λ b. bit_and b 3) (λ b. b % 4) refl

pub bit_and-1 : (b : ℕ) → b < 256 → bit_and b 1 ≡ b % 2
unfolding same_below
bit_and-1 = same_below→eq 256 (λ b. bit_and b 1) (λ b. b % 2) refl
