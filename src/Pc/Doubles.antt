-- ===== src/Pc/Doubles.antt =====
-- `(int)(d * 16777216)` for a `double`, as `setForceVal` of SimForce_Qt/widget.cpp stores it.
use virtual_force.Prelude.{ℕ, ◌+◌, ◌-◌, ◌/◌, ◌%◌, ◌^◌, ◌<◌, ◌≡◌, refl, arith, ltb, if◌then◌else◌}

-- The exponent of a double that is a bit pattern, with its bias of 1023, and its 52 bits behind the
-- point.
unfoldable pub exponent : ℕ → ℕ
exponent d = d / 2 ^ 52 % 2 ^ 11

unfoldable pub mantissa : ℕ → ℕ
mantissa d = d % 2 ^ 52

-- The 32 bits of the `int` that the double times 2 ^ 24 is cut down to. The product adds 24 to the
-- exponent, and a subnormal stays below 1. A product that no `int` holds, an infinity and what is no
-- number become the least `int`, as the processor has it.
unfoldable pub scaled_int : ℕ → ℕ
unfolding exponent mantissa
scaled_int d =
    let e = exponent d + 24 in
    let magnitude = (2 ^ 52 + mantissa d) / 2 ^ (52 - (e - 1023)) in
    if ltb e 1023
    then 0
    else if ltb e (1023 + 31)
    then (if ltb d (2 ^ 63) then magnitude else 2 ^ 32 - magnitude) % 2 ^ 32
    else 2 ^ 31

pub scaled_int-lt : (d : ℕ) → scaled_int d < 2 ^ 32
unfolding scaled_int
scaled_int-lt d = ground arith

one_half : scaled_int 0x3fe0000000000000 ≡ 2 ^ 23
unfolding scaled_int
one_half = refl

minus_one : scaled_int 0xbff0000000000000 ≡ 2 ^ 32 - 2 ^ 24
unfolding scaled_int
minus_one = refl

-- 0, and 128, which is one too large
nothing : scaled_int 0 ≡ 0
unfolding scaled_int
nothing = refl

too_large : scaled_int 0x4060000000000000 ≡ 2 ^ 31
unfolding scaled_int
too_large = refl
