-- ===== src/Pc/Truncation.antt =====
-- Which `int` the conversion of SimForce_Qt/widget.cpp gives for a double, by its value.
use virtual_force.Prelude.{
  ℕ, ◌+◌, ◌-◌, ◌*◌, ◌/◌, ◌%◌, ◌^◌, ◌≤◌, ◌<◌, ◌≡◌, arith, ltb, if◌then◌else◌, ◌∙◌, dec_lt,
}
use native.Mathlib.Nat.{div-mul-le_self, lt-div-mul-add, pow-le-pow_right, div-lt_iff_lt-mul}
use virtual_force.Pc.Doubles.{exponent, mantissa, scaled_int}

-- A double `d` with the bits `2 ^ 52 + mantissa d` before and behind the point and `exponent d` less its
-- bias stands, times 2 ^ 24, for `2 ^ 52 + mantissa d` by `2 ^ (52 - shift d)`.
abbrev pub shift : ℕ → ℕ
shift d = exponent d + 24 - 1023

-- The value of the product, and the bits of the `int`: below 1 it is 0; from 2 ^ 31 on it is the least;
-- else it is the product cut down to the whole number before it, with the sign of `d`.
pub data IsScaled (d w : ℕ) : Type 0 where
  below_one : exponent d + 24 < 1023 → w ≡ 0 → IsScaled d w
  too_large : 1023 + 31 ≤ exponent d + 24 → w ≡ 2 ^ 31 → IsScaled d w
  whole :
      (x : ℕ)
      → 1023 ≤ exponent d + 24
      → x < 2 ^ 31
      → x * 2 ^ (52 - shift d) ≤ 2 ^ 52 + mantissa d
      → 2 ^ 52 + mantissa d < x * 2 ^ (52 - shift d) + 2 ^ (52 - shift d)
      → w ≡ (if ltb d (2 ^ 63) then x else (2 ^ 32 - x) % 2 ^ 32)
      → IsScaled d w

mantissa-lt : (d : ℕ) → mantissa d < 2 ^ 52
unfolding mantissa
mantissa-lt d = omega arith

magnitude : ℕ → ℕ
magnitude d = (2 ^ 52 + mantissa d) / 2 ^ (52 - shift d)

scaled_int_small : (d : ℕ) → exponent d + 24 < 1023 → scaled_int d ≡ 0
unfolding scaled_int
scaled_int_small d h = ground arith

scaled_int_large : (d : ℕ) → 1023 + 31 ≤ exponent d + 24 → scaled_int d ≡ 2 ^ 31
unfolding scaled_int
scaled_int_large d h = ground arith

scaled_int_middle :
    (d : ℕ)
    → 1023 ≤ exponent d + 24
    → exponent d + 24 < 1023 + 31
    → scaled_int d ≡ (if ltb d (2 ^ 63) then magnitude d else 2 ^ 32 - magnitude d) % 2 ^ 32
unfolding scaled_int magnitude
scaled_int_middle d h k = ground arith

-- 2 ^ 22 is the least step.
step-le : (d : ℕ) → exponent d + 24 < 1023 + 31 → 2 ^ 22 ≤ 2 ^ (52 - shift d)
step-le d k = pow-le-pow_right (omega arith) {i = 22} (omega arith)

magnitude-lt : (d : ℕ) → exponent d + 24 < 1023 + 31 → magnitude d < 2 ^ 31
unfolding magnitude
magnitude-lt d k =
    let step = step-le d k in
    let m = mantissa-lt d in (div-lt_iff_lt-mul (omega arith)).1 (omega arith)

magnitude-le : (d : ℕ) → magnitude d * 2 ^ (52 - shift d) ≤ 2 ^ 52 + mantissa d
unfolding magnitude
magnitude-le d = div-mul-le_self (2 ^ 52 + mantissa d) (2 ^ (52 - shift d))

magnitude_next :
    (d : ℕ)
    → 0 < 2 ^ (52 - shift d)
    → 2 ^ 52 + mantissa d < magnitude d * 2 ^ (52 - shift d) + 2 ^ (52 - shift d)
unfolding magnitude
magnitude_next d pos = lt-div-mul-add pos

signed :
    (d x : ℕ)
    → x < 2 ^ 31
    → (if ltb d (2 ^ 63) then x else 2 ^ 32 - x) % 2 ^ 32
      ≡ (if ltb d (2 ^ 63) then x else (2 ^ 32 - x) % 2 ^ 32)
signed d x h = ground arith

-- The conversion cuts down: whatever the line edit says, the bits that `setForceVal` stores are 0 where
-- the entry times 2 ^ 24 is below 1, those of the least `int` where no `int` holds it, and else those
-- of the whole number before it, with its sign.
pub scaled_int-IsScaled : (d : ℕ) → IsScaled d (scaled_int d)
scaled_int-IsScaled d = elim (dec_lt (exponent d + 24) 1023) [
  | yes small ↦ below_one small (scaled_int_small d small)
  | no big ↦ elim (dec_lt (exponent d + 24) (1023 + 31)) [
    | no huge ↦ too_large (omega arith) (scaled_int_large d (omega arith))
    | yes fits ↦
        let step = step-le d fits in
        whole (magnitude d) (omega arith) (magnitude-lt d fits) (magnitude-le d)
          (magnitude_next d (omega (arith, step)))
          (scaled_int_middle d (omega arith) fits ∙ signed d (magnitude d) (magnitude-lt d fits))
  ]
]
