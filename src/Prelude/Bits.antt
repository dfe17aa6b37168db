-- ===== src/Prelude/Bits.antt =====
-- Laws of the bit operations at variables, for the frame codec: a mask of ones is a remainder,
-- a shifted number or a byte is a sum, and the exclusive or of a byte undoes itself.
use Prim.Native.Nat.{min, max, bit_and, bit_or, bit_xor, digits, differ}
use Prim.Native.Nat.{bit_and-bitwise, bit_or-bitwise, bit_xor-bitwise}
use native.Mathlib.Nat.{pow-suc}
use fserv.Prelude.{ℕ, zero, suc, ◌+◌, ◌*◌, ◌/◌, ◌%◌, ◌^◌, ◌≤◌, ◌<◌, ◌≡◌, refl, ap, ◌∙◌, arith}

-- The count of digits to go does not matter once it covers the first number.
digits_fuel :
    (z : ℕ → ℕ) (f : ℕ → ℕ → ℕ) (n m u v : ℕ) → u ≤ n → u ≤ m → digits z f n u v ≡ digits z f m u v
digits_fuel z f zero zero u v p q = refl
digits_fuel z f zero (suc m) zero v p q = refl
digits_fuel z f zero (suc m) (suc u) v p q = absurd (omega arith)
digits_fuel z f (suc n) zero zero v p q = refl
digits_fuel z f (suc n) zero (suc u) v p q = absurd (omega arith)
digits_fuel z f (suc n) (suc m) zero v p q = refl
digits_fuel z f (suc n) (suc m) (suc u) v p q =
    omega (arith, digits_fuel z f n m (suc u / 2) (v / 2) (omega arith) (omega arith))

-- The lowest digit apart, for an operation that is `z` on a first number of zero.
digits_step :
    (z : ℕ → ℕ) (f : ℕ → ℕ → ℕ)
    → ((v : ℕ) → z v ≡ z (v / 2) * 2 + f 0 (v % 2))
    → (u v : ℕ) → digits z f u u v ≡ digits z f (u / 2) (u / 2) (v / 2) * 2 + f (u % 2) (v % 2)
digits_step z f law zero v = law v
digits_step z f law (suc u) v =
    omega (arith, digits_fuel z f u (suc u / 2) (suc u / 2) (v / 2) (omega arith) (omega arith))

pub bit_and_step : (u v : ℕ) → bit_and u v ≡ bit_and (u / 2) (v / 2) * 2 + min (u % 2) (v % 2)
bit_and_step u v = omega (
  arith,
  bit_and-bitwise u v,
  bit_and-bitwise (u / 2) (v / 2),
  digits_step (λ _. 0) min (λ v. omega arith) u v,
)

pub bit_or_step : (u v : ℕ) → bit_or u v ≡ bit_or (u / 2) (v / 2) * 2 + max (u % 2) (v % 2)
bit_or_step u v = omega (
  arith,
  bit_or-bitwise u v,
  bit_or-bitwise (u / 2) (v / 2),
  digits_step (λ v. v) max (λ v. omega arith) u v,
)

pub bit_xor_step : (u v : ℕ) → bit_xor u v ≡ bit_xor (u / 2) (v / 2) * 2 + differ (u % 2) (v % 2)
bit_xor_step u v = omega (
  arith,
  bit_xor-bitwise u v,
  bit_xor-bitwise (u / 2) (v / 2),
  digits_step (λ v. v) differ (λ v. omega arith) u v,
)

bit_and-zero_fuel : (n u : ℕ) → u ≤ n → bit_and u 0 ≡ 0
bit_and-zero_fuel zero zero h = refl
bit_and-zero_fuel zero (suc u) h = absurd (omega arith)
bit_and-zero_fuel (suc n) zero h = refl
bit_and-zero_fuel (suc n) (suc u) h =
    omega (arith, bit_and_step (suc u) 0, bit_and-zero_fuel n (suc u / 2) (omega arith))

bit_and-zero : (u : ℕ) → bit_and u 0 ≡ 0
bit_and-zero u = bit_and-zero_fuel u u (omega arith)

bit_and-odd : (u m : ℕ) → m % 2 ≡ 1 → bit_and u m ≡ bit_and (u / 2) (m / 2) * 2 + u % 2
bit_and-odd u m h = omega (arith, bit_and_step u m)

bit_and-even : (u m : ℕ) → m % 2 ≡ 0 → bit_and u m ≡ bit_and (u / 2) (m / 2) * 2
bit_and-even u m h = omega (arith, bit_and_step u m)

-- Masks, one digit after another.
pub bit_and-15 : (u : ℕ) → bit_and u 15 ≡ u % 16
bit_and-15 u = omega (
  arith,
  bit_and-odd (u) 15 refl,
  bit_and-odd (u / 2) 7 refl,
  bit_and-odd (u / 2 / 2) 3 refl,
  bit_and-odd (u / 2 / 2 / 2) 1 refl,
  bit_and-zero (u / 2 / 2 / 2 / 2),
)

pub bit_and-127 : (u : ℕ) → bit_and u 127 ≡ u % 128
bit_and-127 u = omega (
  arith,
  bit_and-odd (u) 127 refl,
  bit_and-odd (u / 2) 63 refl,
  bit_and-odd (u / 2 / 2) 31 refl,
  bit_and-odd (u / 2 / 2 / 2) 15 refl,
  bit_and-odd (u / 2 / 2 / 2 / 2) 7 refl,
  bit_and-odd (u / 2 / 2 / 2 / 2 / 2) 3 refl,
  bit_and-odd (u / 2 / 2 / 2 / 2 / 2 / 2) 1 refl,
  bit_and-zero (u / 2 / 2 / 2 / 2 / 2 / 2 / 2),
)

pub bit_and-255 : (u : ℕ) → bit_and u 255 ≡ u % 256
bit_and-255 u = omega (
  arith,
  bit_and-odd (u) 255 refl,
  bit_and-odd (u / 2) 127 refl,
  bit_and-odd (u / 2 / 2) 63 refl,
  bit_and-odd (u / 2 / 2 / 2) 31 refl,
  bit_and-odd (u / 2 / 2 / 2 / 2) 15 refl,
  bit_and-odd (u / 2 / 2 / 2 / 2 / 2) 7 refl,
  bit_and-odd (u / 2 / 2 / 2 / 2 / 2 / 2) 3 refl,
  bit_and-odd (u / 2 / 2 / 2 / 2 / 2 / 2 / 2) 1 refl,
  bit_and-zero (u / 2 / 2 / 2 / 2 / 2 / 2 / 2 / 2),
)

pub bit_and-128 : (u : ℕ) → bit_and u 128 ≡ u / 128 % 2 * 128
bit_and-128 u = omega (
  arith,
  bit_and-even (u) 128 refl,
  bit_and-even (u / 2) 64 refl,
  bit_and-even (u / 2 / 2) 32 refl,
  bit_and-even (u / 2 / 2 / 2) 16 refl,
  bit_and-even (u / 2 / 2 / 2 / 2) 8 refl,
  bit_and-even (u / 2 / 2 / 2 / 2 / 2) 4 refl,
  bit_and-even (u / 2 / 2 / 2 / 2 / 2 / 2) 2 refl,
  bit_and-odd (u / 2 / 2 / 2 / 2 / 2 / 2 / 2) 1 refl,
  bit_and-zero (u / 2 / 2 / 2 / 2 / 2 / 2 / 2 / 2),
)

pub bit_and-high_byte : (u : ℕ) → bit_and u 0xff00 ≡ u / 256 % 256 * 256
bit_and-high_byte u = omega (
  arith,
  bit_and-even (u) 65280 refl,
  bit_and-even (u / 2) 32640 refl,
  bit_and-even (u / 2 / 2) 16320 refl,
  bit_and-even (u / 2 / 2 / 2) 8160 refl,
  bit_and-even (u / 2 / 2 / 2 / 2) 4080 refl,
  bit_and-even (u / 2 / 2 / 2 / 2 / 2) 2040 refl,
  bit_and-even (u / 2 / 2 / 2 / 2 / 2 / 2) 1020 refl,
  bit_and-even (u / 2 / 2 / 2 / 2 / 2 / 2 / 2) 510 refl,
  bit_and-255 (u / 2 / 2 / 2 / 2 / 2 / 2 / 2 / 2),
)

bit_or-zero_fuel : (n u : ℕ) → u ≤ n → bit_or u 0 ≡ u
bit_or-zero_fuel zero zero h = refl
bit_or-zero_fuel zero (suc u) h = absurd (omega arith)
bit_or-zero_fuel (suc n) zero h = refl
bit_or-zero_fuel (suc n) (suc u) h =
    omega (arith, bit_or_step (suc u) 0, bit_or-zero_fuel n (suc u / 2) (omega arith))

pub bit_or-zero : (u : ℕ) → bit_or u 0 ≡ u
bit_or-zero u = bit_or-zero_fuel u u (omega arith)

differ_lem : (x y : ℕ) → x < 2 → y < 2 → (differ x y < 2) × (differ (differ x y) y ≡ x)
differ_lem zero zero p q = omega arith
differ_lem zero (suc zero) p q = omega arith
differ_lem (suc zero) zero p q = omega arith
differ_lem (suc zero) (suc zero) p q = omega arith
differ_lem zero (suc (suc y)) p q = absurd (omega arith)
differ_lem (suc zero) (suc (suc y)) p q = absurd (omega arith)
differ_lem (suc (suc x)) y p q = absurd (omega arith)

bit_xor_halves :
    (u v : ℕ)
    → (bit_xor u v / 2 ≡ bit_xor (u / 2) (v / 2)) × (bit_xor u v % 2 ≡ differ (u % 2) (v % 2))
bit_xor_halves u v =
    let d = (differ_lem (u % 2) (v % 2) (omega arith) (omega arith)).0 in
    omega (arith, bit_xor_step u v, d)

bit_xor_fuel : (n u v : ℕ) → u ≤ n → v ≤ n → bit_xor (bit_xor u v) v ≡ u
bit_xor_fuel zero zero zero p q = refl
bit_xor_fuel zero zero (suc v) p q = absurd (omega arith)
bit_xor_fuel zero (suc u) v p q = absurd (omega arith)
bit_xor_fuel (suc n) u v p q =
    let h = bit_xor_halves u v in
    let d = (differ_lem (u % 2) (v % 2) (omega arith) (omega arith)).1 in
    let r = bit_xor_fuel n (u / 2) (v / 2) (omega arith) (omega arith) in
    bit_xor_step (bit_xor u v) v ∙ rw (h.0, h.1, r, d) (omega arith)

-- Masking twice with the same byte gives the byte back.
pub bit_xor_twice : (u v : ℕ) → bit_xor (bit_xor u v) v ≡ u
bit_xor_twice u v = bit_xor_fuel (u + v) u v (omega arith) (omega arith)

bit_xor-lt_fuel : (n u v : ℕ) → u < 2 ^ n → v < 2 ^ n → bit_xor u v < 2 ^ n
bit_xor-lt_fuel zero zero zero p q = omega arith
bit_xor-lt_fuel zero zero (suc v) p q = absurd (omega arith)
bit_xor-lt_fuel zero (suc u) v p q = absurd (omega arith)
bit_xor-lt_fuel (suc n) u v p q =
    let h = bit_xor_halves u v in
    let e : 2 ^ suc n ≡ 2 * 2 ^ n = omega (arith, pow-suc 2 n) in
    let r = bit_xor-lt_fuel n (u / 2) (v / 2) (omega arith) (omega arith) in omega (arith, h, r, e)

pub bit_xor-lt : (u v : ℕ) → u < 256 → v < 256 → bit_xor u v < 256
bit_xor-lt u v p q = bit_xor-lt_fuel 8 u v p q

bit_or-double : (x v : ℕ) → bit_or (x * 2) v ≡ bit_or x (v / 2) * 2 + v % 2
bit_or-double x v =
    let e : x * 2 / 2 ≡ x = omega arith in
    let e' : x * 2 % 2 ≡ 0 = omega arith in bit_or_step (x * 2) v ∙ rw (e, e') (omega arith)

-- `payload_length << 8 | byte`
pub bit_or-shifted : (q v : ℕ) → v < 256 → bit_or (q * 256) v ≡ q * 256 + v
bit_or-shifted q v h =
    let e : q * 256 ≡ q * 2 * 2 * 2 * 2 * 2 * 2 * 2 * 2 = omega arith in
    let last : v / 2 / 2 / 2 / 2 / 2 / 2 / 2 / 2 ≡ 0 = omega arith in
    rw e (
      omega (
        arith,
        bit_or-double (q * 2 * 2 * 2 * 2 * 2 * 2 * 2) v,
        bit_or-double (q * 2 * 2 * 2 * 2 * 2 * 2) (v / 2),
        bit_or-double (q * 2 * 2 * 2 * 2 * 2) (v / 2 / 2),
        bit_or-double (q * 2 * 2 * 2 * 2) (v / 2 / 2 / 2),
        bit_or-double (q * 2 * 2 * 2) (v / 2 / 2 / 2 / 2),
        bit_or-double (q * 2 * 2) (v / 2 / 2 / 2 / 2 / 2),
        bit_or-double (q * 2) (v / 2 / 2 / 2 / 2 / 2 / 2),
        bit_or-double q (v / 2 / 2 / 2 / 2 / 2 / 2 / 2),
        ap (bit_or q) last,
        bit_or-zero q,
      ))

-- `0x80 | opcode`
pub bit_or-128 : (v : ℕ) → v < 16 → bit_or 128 v ≡ 128 + v
bit_or-128 v h =
    let last : v / 2 / 2 / 2 / 2 ≡ 0 = omega arith in
    omega (
      arith,
      bit_or-double 64 v,
      bit_or-double 32 (v / 2),
      bit_or-double 16 (v / 2 / 2),
      bit_or-double 8 (v / 2 / 2 / 2),
      ap (bit_or 8) last,
      bit_or-zero 8,
    )
