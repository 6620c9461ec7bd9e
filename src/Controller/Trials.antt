-- ===== src/Controller/Trials.antt =====
-- The two thread functions of VirtualForce_linux/controller.c that try the links to the force core
-- and to the PC out, `contoller_send_thread` and `controller_display_result`, round by round.
use virtual_force.Prelude.{
  ℕ, zero, suc, ◌+◌, ◌-◌, ◌*◌, ◌^◌, ◌≡◌, ◌≢◌, ◌%◌, ℕ_discrete, refl, arith, leb, ◌==◌,
  if◌then◌else◌, Option, none, some,
}
use virtual_force.Wire.{PcCommCmd, PcCommData, store_data, data_size}
use virtual_force.Force.Regions.{Interface, ForceVirtualCmd}
use virtual_force.Force.Exchange.{virtual_download, no_force, dead_beef}
use virtual_force.Network.{Net}
use virtual_force.Network.Sending.{Sent, network_set}

-- the static `vforce_send`, which nothing writes
abbrev pub vforce_send : PcCommCmd
vforce_send = record { cmd = 0; rsv = 0; params = no_force }

-- `n` rounds of `contoller_send_thread`
unfoldable pub contoller_send_thread : ℕ → Interface → Option Interface
contoller_send_thread zero s = some s
contoller_send_thread (suc n) s = elim (virtual_download vforce_send s) [
  | none ↦ none
  | some s' ↦ contoller_send_thread n s'
]

-- the largest exponent up to `k` of a power of 2 that is at most `n`
unfoldable pub exponent : ℕ → ℕ → ℕ
exponent zero n = 0
exponent (suc k) n = let e = exponent k n in if leb (2 ^ suc k) n then suc k else e

-- the 64 bits of the `double` that a nonnegative `int` converts to
unfoldable pub double : ℕ → ℕ
double n =
    let e = exponent 31 n in if n == 0 then 0 else (1023 + e) * 2 ^ 52 + (n - 2 ^ e) * 2 ^ (52 - e)

-- the report of the round in which the static `j` is `j`
unfoldable pub trial_report : ℕ → PcCommData
trial_report j = record {
  head = 0x11181118;
  force_state = 0;
  force_theta = record {
    axis_0 = double j;
    axis_1 = double (j + 1);
    axis_2 = double (j + 2);
    axis_3 = double (j + 3);
    axis_4 = double (j + 4);
    axis_5 = double (j + 5);
  };
}

-- One round of `controller_display_result`: what it sends, and `j` after it, up to the largest `int`.
unfoldable pub controller_display_result : ℕ → Net → ℕ → Sent × ℕ
controller_display_result tcpi_state net j =
    (network_set tcpi_state net (store_data (trial_report j)) data_size, j + 1)

download_busy :
    (s : Interface) {r : ForceVirtualCmd}
    → s.virtual_info ≡ some r
    → r.valid ≢ 0
    → virtual_download vforce_send s ≡ some s
unfolding virtual_download
download_busy s e busy = ground arith

send_busy :
    (n : ℕ) (s : Interface) {r : ForceVirtualCmd}
    → s.virtual_info ≡ some r
    → r.valid ≢ 0
    → contoller_send_thread n s ≡ some s
unfolding contoller_send_thread
send_busy zero s e busy = refl
send_busy (suc n) s e busy =
    rw (download_busy s e busy, contoller_send_thread) (send_busy n s e busy)

download_free :
    (s : Interface) {r : ForceVirtualCmd}
    → s.virtual_info ≡ some r
    → r.valid ≡ 0
    → virtual_download vforce_send s
      ≡ some (record s {
        virtual_info = some (record { valid = dead_beef; force = no_force });
        downloads = (s.downloads + 1) % 2 ^ 32;
      })
unfolding virtual_download
download_free s e free = ground arith

-- Without the core in between, any number of rounds of `contoller_send_thread` does what one does: on
-- an empty region one force is handed over, that of zeros.
pub send_once :
    (n : ℕ) (s : Interface) {r : ForceVirtualCmd}
    → s.virtual_info ≡ some r
    → contoller_send_thread (suc n) s ≡ virtual_download vforce_send s
unfolding contoller_send_thread
send_once n s {r} e = elim (ℕ_discrete r.valid 0) [
  | yes free ↦ rw (download_free s e free, contoller_send_thread) (send_busy n _ refl (omega arith))
  | no busy ↦ rw (download_busy s e busy, contoller_send_thread) (send_busy n s e busy)
]

double_three : double 3 ≡ 0x4008000000000000
unfolding double exponent
double_three = refl
