-- ===== src/Wire/RoundTrip.antt =====
-- Reading and writing the bytes of the structs of force_interface.h.
use virtual_force.Prelude.{ℕ, zero, suc, ◌+◌, ◌*◌, ◌/◌, ◌^◌, ◌<◌, ◌≡◌, refl, arith}
use native.Mathlib.Nat.{pow-suc}
use virtual_force.Memory.{Mem}
use virtual_force.Wire.{
  Axes, PcCommCmd, PcCommData, load, byte, load_axes, axes_byte, load_cmd, store_cmd, load_data,
  store_data,
}

-- If the bytes from `p` on are those of `w` from byte `0` on, the number there is `w`.
pub load-byte :
    (m : Mem) (p n w : ℕ) → w < 256 ^ n → ((k : ℕ) → k < n → m (p + k) ≡ byte w k) → load m p n ≡ w
unfolding load byte
load-byte m p zero w lt h = omega arith
load-byte m p (suc n) w lt h =
    ground (arith, h 0, load-byte m (p + 1) n (w / 256) (omega (arith, pow-suc 256 n)) later)
  where
    later : (k : ℕ) → k < n → m (p + 1 + k) ≡ byte (w / 256) k
    later k b = ground (arith, h (suc k))

pub load-ext :
    (m m' : Mem) (p p' n : ℕ)
    → ((k : ℕ) → k < n → m (p + k) ≡ m' (p' + k))
    → load m p n ≡ load m' p' n
unfolding load
load-ext m m' p p' zero h = refl
load-ext m m' p p' (suc n) h =
    ground (arith, h 0, load-ext m m' (p + 1) (p' + 1) n (λ k lt. ground (arith, h (suc k))))

-- All six numbers fit into `n` bytes.
pub record Fits (n : ℕ) (a : Axes) : Type 0 where
  pub fits_0 : a.axis_0 < 256 ^ n
  pub fits_1 : a.axis_1 < 256 ^ n
  pub fits_2 : a.axis_2 < 256 ^ n
  pub fits_3 : a.axis_3 < 256 ^ n
  pub fits_4 : a.axis_4 < 256 ^ n
  pub fits_5 : a.axis_5 < 256 ^ n

load_axes-byte :
    (m : Mem) (p n : ℕ) (a : Axes)
    → Fits n a
    → ((k : ℕ) → k < 6 * n → m (p + k) ≡ axes_byte a n k)
    → load_axes m p n ≡ a
unfolding load_axes axes_byte
load_axes-byte m p n a f h = λ i. record {
  axis_0 = load-byte m p n a.axis_0 f.fits_0 (λ k lt. ground (arith, h k)) i;
  axis_1 = load-byte m (p + n) n a.axis_1 f.fits_1 (λ k lt. ground (arith, h (n + k))) i;
  axis_2 = load-byte m (p + 2 * n) n a.axis_2 f.fits_2 (λ k lt. ground (arith, h (2 * n + k))) i;
  axis_3 = load-byte m (p + 3 * n) n a.axis_3 f.fits_3 (λ k lt. ground (arith, h (3 * n + k))) i;
  axis_4 = load-byte m (p + 4 * n) n a.axis_4 f.fits_4 (λ k lt. ground (arith, h (4 * n + k))) i;
  axis_5 = load-byte m (p + 5 * n) n a.axis_5 f.fits_5 (λ k lt. ground (arith, h (5 * n + k))) i;
}

-- The command that the controller reads out of the bytes of a command is that command, when its
-- numbers fit in 4 bytes.
pub load_cmd-store_cmd :
    (c : PcCommCmd) → c.cmd < 2 ^ 32 → c.rsv < 2 ^ 32 → Fits 4 c.params → load_cmd (store_cmd c) ≡ c
unfolding load_cmd store_cmd
load_cmd-store_cmd c hc hr hp = λ i. record {
  cmd = load-byte (store_cmd c) 0 4 c.cmd (omega arith) (λ k lt. ground arith) i;
  rsv = load-byte (store_cmd c) 4 4 c.rsv (omega arith) (λ k lt. ground arith) i;
  params = load_axes-byte (store_cmd c) 8 4 c.params hp (λ k lt. ground arith) i;
}

-- The PC reads the report that the controller wrote, when its head and state fit in 4 bytes and
-- its angles in 8.
pub load_data-store_data :
    (d : PcCommData)
    → d.head < 2 ^ 32
    → d.force_state < 2 ^ 32
    → Fits 8 d.force_theta
    → load_data (store_data d) ≡ d
unfolding load_data store_data
load_data-store_data d hc hr hp = λ i. record {
  head = load-byte (store_data d) 0 4 d.head (omega arith) (λ k lt. ground arith) i;
  force_state = load-byte (store_data d) 4 4 d.force_state (omega arith) (λ k lt. ground arith) i;
  force_theta = load_axes-byte (store_data d) 8 8 d.force_theta hp (λ k lt. ground arith) i;
}

load_axes-ext :
    (m m' : Mem) (p n : ℕ)
    → ((k : ℕ) → k < p + 6 * n → m k ≡ m' k)
    → load_axes m p n ≡ load_axes m' p n
unfolding load_axes
load_axes-ext m m' p n h = λ i. record {
  axis_0 = load-ext m m' p p n (λ k lt. h (p + k) (omega arith)) i;
  axis_1 = load-ext m m' (p + n) (p + n) n (λ k lt. h (p + n + k) (omega arith)) i;
  axis_2 = load-ext m m' (p + 2 * n) (p + 2 * n) n (λ k lt. h (p + 2 * n + k) (omega arith)) i;
  axis_3 = load-ext m m' (p + 3 * n) (p + 3 * n) n (λ k lt. h (p + 3 * n + k) (omega arith)) i;
  axis_4 = load-ext m m' (p + 4 * n) (p + 4 * n) n (λ k lt. h (p + 4 * n + k) (omega arith)) i;
  axis_5 = load-ext m m' (p + 5 * n) (p + 5 * n) n (λ k lt. h (p + 5 * n + k) (omega arith)) i;
}

-- A command is read from the first 32 bytes.
pub load_cmd-ext : (m m' : Mem) → ((k : ℕ) → k < 32 → m k ≡ m' k) → load_cmd m ≡ load_cmd m'
unfolding load_cmd
load_cmd-ext m m' h = λ i. record {
  cmd = load-ext m m' 0 0 4 (λ k lt. h (0 + k) (omega arith)) i;
  rsv = load-ext m m' 4 4 4 (λ k lt. h (4 + k) (omega arith)) i;
  params = load_axes-ext m m' 8 4 (λ k lt. h k (omega arith)) i;
}
