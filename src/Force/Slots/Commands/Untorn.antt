-- ===== src/Force/Slots/Commands/Untorn.antt =====
-- The bytes in the region for commands of force_interface.c while calls are copied to it.
use virtual_force.Prelude.{
  ℕ, zero, suc, ◌/◌, ◌%◌, ◌<◌, ◌≡◌, refl, sym, arith, Option, none, some, List, [], ◌∷◌, ◌++◌, ◌⊎◌,
  inl, inr,
}
use mathlib.Core.List.{append_assoc}
use virtual_force.Wire.{byte}
use virtual_force.Force.Params.{put}
use virtual_force.Force.Service.{no_call}
use virtual_force.Force.Regions.{ServoCoreProcessCall}
use virtual_force.Force.Slots.Commands.{
  word, call_byte, CommandSlot, CommandMove, called, stores, returns, core_reads, command_move,
  command_moves, IsBare, AreBare,
}

byte_zero : (k : ℕ) → byte 0 k ≡ 0
unfolding byte
byte_zero zero = refl
byte_zero (suc k) = byte_zero k

word-no_call : (n q : ℕ) → word (record no_call { cmd = n }) (suc q) ≡ 0
unfolding word
word-no_call n q = ground arith

bare_byte :
    (n k q r : ℕ)
    → n < 256
    → q ≡ suc k / 4
    → r ≡ suc k % 4
    → byte (word (record no_call { cmd = n }) q) r ≡ 0
unfolding word byte
bare_byte n k zero zero h eq er = absurd (omega (arith, eq, er))
bare_byte n k zero (suc r) h eq er =
    let small : n / 256 ≡ 0 = omega (arith, h) in rw small (byte_zero r)
bare_byte n k (suc q) r h eq er = rw (word-no_call n q) (byte_zero r)

-- The commands of the compiled program are such calls.
pub no_call-IsBare : (n : ℕ) → n < 256 → IsBare (record no_call { cmd = n })
unfolding call_byte word byte
no_call-IsBare n h = record {
  first = omega (arith, h);
  others = λ k. bare_byte n k (suc k / 4) (suc k % 4) h refl refl;
}

-- `x` is the command at first, or one that was sent
abbrev pub IsSent : ℕ → ℕ → List ℕ → Type 0
IsSent old x commands =
    (x ≡ old) ⊎ ((before : List ℕ) × (after : List ℕ) × (commands ≡ before ++ (x ∷ after)))

-- Bytes that make one whole command, the one at first or one that was sent.
pub record IsWhole (old : ℕ) (commands : List ℕ) (w : ℕ → ℕ) : Type 0 where
  pub sent_at : IsSent old (w 0) commands
  pub bare_at : (k : ℕ) → w (suc k) ≡ 0

IsSent-append :
    {old x : ℕ} (commands more : List ℕ) → IsSent old x commands → IsSent old x (commands ++ more)
IsSent-append commands more (inl e) = inl e
IsSent-append {old} {x} commands more (inr (before, after, e)) =
    inr (before, after ++ more, rw e (append_assoc before (x ∷ after) more))

IsWhole-append :
    {old : ℕ} {w : ℕ → ℕ} (commands more : List ℕ)
    → IsWhole old commands w
    → IsWhole old (commands ++ more) w
IsWhole-append commands more v = record {
  sent_at = IsSent-append commands more v.sent_at;
  bare_at = v.bare_at;
}

put_behind : (w : ℕ → ℕ) (k x : ℕ) → put w (suc k) x 0 ≡ w 0
put_behind w k x = ground arith

-- One byte of a whole command over the same byte of another leaves a whole command.
IsWhole-put :
    {old : ℕ} {w u : ℕ → ℕ} (commands : List ℕ) (k : ℕ)
    → IsWhole old commands w
    → IsWhole old commands u
    → IsWhole old commands (put w k (u k))
IsWhole-put commands zero v q = record {
  sent_at = q.sent_at;
  bare_at = λ j. ground (arith, v.bare_at j);
}
IsWhole-put {old} {w} {u} commands (suc k) v q = record {
  sent_at = rw (put_behind w k (u (suc k))) v.sent_at;
  bare_at = λ j. ground (arith, v.bare_at j, q.bare_at k);
}

record IsUntorn (old : ℕ) (s : CommandSlot) : Type 0 where
  app_at : (c : ServoCoreProcessCall) → s.app ≡ some c → IsWhole old s.commands (call_byte c)
  region_at : IsWhole old s.commands s.region
  seen_at : IsWhole old s.commands s.seen

move-IsUntorn :
    (old : ℕ) (m : CommandMove) (ms : List CommandMove) (s : CommandSlot)
    → AreBare (m ∷ ms)
    → IsUntorn old s
    → IsUntorn old (command_move m s) × AreBare ms
unfolding command_move
move-IsUntorn old (called c) ms s (b, bs) v = (go s.app refl, bs)
  where
    sent : IsWhole old (s.commands ++ (c.cmd ∷ [])) (call_byte c)
    sent = record { sent_at = inr (s.commands, [], rw b.first refl); bare_at = b.others }

    go :
        (o : Option ServoCoreProcessCall)
        → s.app ≡ o
        → IsUntorn old (elim o [
          | none ↦ record s { app = some c; commands = s.commands ++ (c.cmd ∷ []) }
          | some _ ↦ s
        ])
    go (some d) e = v
    go none e = record {
      app_at = λ d k. let same : c ≡ d = cc in rw (sym same) sent;
      region_at = IsWhole-append s.commands (c.cmd ∷ []) v.region_at;
      seen_at = IsWhole-append s.commands (c.cmd ∷ []) v.seen_at;
    }
move-IsUntorn old (stores k) ms s b v = (go s.app refl, b)
  where
    go :
        (o : Option ServoCoreProcessCall)
        → s.app ≡ o
        → IsUntorn old
            (elim o [ none ↦ s | some c ↦ record s { region = put s.region k (call_byte c k) } ])
    go none e = v
    go (some c) e = record {
      app_at = v.app_at;
      region_at = IsWhole-put s.commands k v.region_at (v.app_at c e);
      seen_at = v.seen_at;
    }
move-IsUntorn old returns ms s b v = (
  record { app_at = λ c e. absurd (let q = e in cc); region_at = v.region_at; seen_at = v.seen_at },
  b,
)
move-IsUntorn old (core_reads k) ms s b v = (
  record {
    app_at = v.app_at;
    region_at = v.region_at;
    seen_at = IsWhole-put s.commands k v.seen_at v.region_at;
  },
  b,
)

moves-IsUntorn :
    (old : ℕ) (ms : List CommandMove) (s : CommandSlot)
    → AreBare ms
    → IsUntorn old s
    → IsUntorn old (command_moves ms s)
unfolding command_moves
moves-IsUntorn old [] s b v = v
moves-IsUntorn old (m ∷ ms) s b v =
    let (v', b') = move-IsUntorn old m ms s b v in moves-IsUntorn old ms (command_move m s) b' v'

-- a region, and what the core has read of it, before any call
abbrev pub at_rest : (ℕ → ℕ) → CommandSlot
at_rest w = record { app = none; region = w; seen = w; commands = [] }

-- No command is torn, though the region for commands has no flag: from a region on whose bytes behind the
-- first are 0, when every call is one without parameters whose command is one byte, as those of the
-- compiled program are, and however calls, the stores of `memcpy` in any order, returns, and the reads
-- of the core, byte by byte, come in turn: what the region holds, and what the core has read of it,
-- is at any time a whole command without parameters, the first one or one that was sent.
pub no_command_torn :
    (w : ℕ → ℕ) (ms : List CommandMove)
    → ((k : ℕ) → w (suc k) ≡ 0)
    → AreBare ms
    → let s = command_moves ms (at_rest w) in
      IsWhole (w 0) s.commands s.region × IsWhole (w 0) s.commands s.seen
no_command_torn w ms rest bare =
    let whole : IsWhole (w 0) [] w = record { sent_at = inl refl; bare_at = rest } in
    let v =
      moves-IsUntorn (w 0) ms (at_rest w) bare
        (record { app_at = λ c e. absurd (let q = e in cc); region_at = whole; seen_at = whole }) in
    (v.region_at, v.seen_at)
