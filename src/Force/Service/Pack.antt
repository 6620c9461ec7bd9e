-- ===== src/Force/Service/Pack.antt =====
-- The configuration of the diagnosis that force_interface.c sends to the force core.
use virtual_force.Prelude.{
  ℕ, zero, suc, ◌/◌, ◌%◌, ◌^◌, ◌<◌, ◌≡◌, refl, arith, Bool, true, false, if◌then◌else◌, ◌&&◌, ◌==◌,
  some,
}
use virtual_force.Force.Regions.{ServoCoreProcessCall, Interface}
use virtual_force.Force.Service.{no_call, pack, cmd_dignose_cfg_call, cmd_switch_mode}

-- a test of all numbers below `bound`
tested : (ℕ → Bool) → ℕ → Bool
tested test zero = true
tested test (suc bound) = let below = tested test bound in if test bound then below else false

-- A number below the bound passed it.
tested_at : (test : ℕ → Bool) (x bound : ℕ) → x < bound → tested test bound ≡ true → test x ≡ true
unfolding tested
tested_at test x zero lt all = absurd (omega arith)
tested_at test x (suc bound) lt all = ground (tested_at test x bound, arith)

-- `FVAR_MAX`
abbrev pub fvar_max : ℕ
fvar_max = 12

packed : ℕ → ℕ → Bool
packed a b = (pack a b % 2 ^ 16 == a) && (pack a b / 2 ^ 16 == b)

pack_table : tested (λ a. tested (packed a) fvar_max) fvar_max ≡ true
unfolding tested packed pack
pack_table = refl

pack_lem : (a b : ℕ) → a < fvar_max → b < fvar_max → packed a b ≡ true
pack_lem a b ha hb =
    let row = tested_at (λ n. tested (packed n) fvar_max) a fvar_max ha pack_table in
    tested_at (packed a) b fvar_max hb row

-- the two values in the halves of a parameter
abbrev pub halves : ℕ → ℕ × ℕ
halves w = (w % 2 ^ 16, w / 2 ^ 16)

pub halves-pack : (a b : ℕ) → a < fvar_max → b < fvar_max → halves (pack a b) ≡ (a, b)
unfolding packed
halves-pack a b ha hb = ground (arith, pack_lem a b ha hb)

-- When the pointer is set and the six diagnosis variables are below `FVAR_MAX`, they can be read
-- off the command that arrives at the force core, two in each of the first three parameters; its
-- number is that of a switch of mode, and no other region changes.
pub dignose_cfg_lem :
    (v : ℕ → ℕ) (s : Interface) {old : ServoCoreProcessCall}
    → ((k : ℕ) → k < 6 → v k < fvar_max)
    → s.service_info ≡ some old
    → (c : ServoCoreProcessCall) × (cmd_dignose_cfg_call v s
        ≡ some (record s { service_info = some c }))
      × (c.cmd ≡ cmd_switch_mode)
      × (halves c.param1 ≡ (v 0, v 1))
      × (halves c.param2 ≡ (v 2, v 3))
      × (halves c.param3 ≡ (v 4, v 5))
unfolding cmd_dignose_cfg_call
dignose_cfg_lem v s lt e = (
  record no_call {
    cmd = cmd_switch_mode;
    param1 = pack (v 0) (v 1);
    param2 = pack (v 2) (v 3);
    param3 = pack (v 4) (v 5);
  },
  rw e,
  refl,
  halves-pack (v 0) (v 1) (lt 0 (omega arith)) (lt 1 (omega arith)),
  halves-pack (v 2) (v 3) (lt 2 (omega arith)) (lt 3 (omega arith)),
  halves-pack (v 4) (v 5) (lt 4 (omega arith)) (lt 5 (omega arith)),
)
