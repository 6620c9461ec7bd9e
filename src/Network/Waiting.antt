-- ===== src/Network/Waiting.antt =====
-- When `read_data` of network_client.c returns: what keeps its loop waiting.
use virtual_force.Prelude.{
  ℕ, zero, suc, ◌-◌, ◌≤◌, ◌<◌, ◌≡◌, ◌↔◌, refl, sym, ◌∙◌, arith, Bool, true, false, ◌&&◌, none, some,
  List, [], ◌∷◌, inl, inr, Bool-cases, dec_lt,
}
use virtual_force.Memory.{Mem, memcpy, zeroed}
use virtual_force.Network.{
  Net, eintr, eagain, other, Fread, Loop, ended, read_loop, ReadData, read_data, client_buff_size,
}
use virtual_force.Network.Read.{total, InBounds, read_loop_whole}

-- Whether a signal interrupted the read.
unfoldable pub interrupted : Fread → Bool
interrupted r = elim r.error [
  | none ↦ false
  | some e ↦ elim e [ eintr ↦ true | eagain ↦ false | other ↦ false ]
]

unfoldable pub all_interrupted : List Fread → Bool
all_interrupted [] = true
all_interrupted (r ∷ rs) = interrupted r && all_interrupted rs

-- The loop goes on after an interrupted read that leaves something missing, and ends after any other.
again :
    (r : Fread) (reads : List Fread) (n : ℕ) (buffer : Mem)
    → n < client_buff_size
    → interrupted r ≡ true
    → r.count ≤ suc n
    → read_loop (r ∷ reads) (suc n) buffer
      ≡ read_loop reads (suc n - r.count) (memcpy buffer 0 r.data_read 0 r.count)
unfolding read_loop interrupted
again r reads n buffer lt i le = ground arith

ends :
    (r : Fread) (reads : List Fread) (n : ℕ) (buffer : Mem)
    → n < client_buff_size
    → interrupted r ≡ false
    → r.count < suc n
    → (read_loop (r ∷ reads) (suc n) buffer ≡ Loop.waiting)
    → ⊥
unfolding read_loop interrupted
ends r reads n buffer lt i le h = ground arith

waits_only :
    (reads : List Fread) (n : ℕ) (buffer : Mem)
    → n ≤ client_buff_size
    → InBounds reads n
    → read_loop reads n buffer ≡ Loop.waiting
    → (all_interrupted reads ≡ true) × (total reads < n)
unfolding read_loop all_interrupted total
waits_only reads zero buffer small bd h = absurd (let q = h in cc)
waits_only [] (suc n) buffer small bd h = (refl, omega arith)
waits_only (r ∷ reads) (suc n) buffer small bd h = elim (Bool-cases (interrupted r)) [
  | inl i ↦
      let (rest, sum) =
        waits_only reads (suc n - r.count) (memcpy buffer 0 r.data_read 0 r.count) (omega arith)
          bd.1 (sym (again r reads n buffer (omega arith) i bd.0) ∙ h) in
      (ground arith, omega arith)
  | inr i ↦ elim (dec_lt r.count (suc n)) [
    | yes lt ↦ absurd (ends r reads n buffer (omega arith) i lt h)
    | no ge ↦ absurd (
        let q =
          sym (read_loop_whole r reads (suc n) buffer small (omega arith) (omega arith)) ∙ h in
        cc)
  ]
]

waits :
    (reads : List Fread) (n : ℕ) (buffer : Mem)
    → n ≤ client_buff_size
    → all_interrupted reads ≡ true
    → total reads < n
    → read_loop reads n buffer ≡ Loop.waiting
unfolding read_loop all_interrupted total
waits reads zero buffer small all lt = absurd (omega arith)
waits [] (suc n) buffer small all lt = refl
waits (r ∷ reads) (suc n) buffer small all lt =
    again r reads n buffer (omega arith) (ground arith) (omega arith)
    ∙ waits reads (suc n - r.count) (memcpy buffer 0 r.data_read 0 r.count) (omega arith)
        (ground arith) (omega arith)

-- Where no read stores more bytes than are missing, `read_data` goes on waiting exactly while
-- every read so far was interrupted and they have not delivered a command together; it returns or
-- exits as soon as they have, or a read ends without an interruption.
pub read_data_waits :
    (reads : List Fread) (net : Net)
    → InBounds reads client_buff_size
    → (read_data reads net client_buff_size ≡ ReadData.waiting)
      ↔ ((all_interrupted reads ≡ true) × (total reads < client_buff_size))
unfolding read_data
read_data_waits reads net bd = (
  λ h.
      waits_only reads client_buff_size zeroed (omega arith) bd
        (go h (read_loop reads client_buff_size zeroed) refl),
  λ (all, lt). rw (waits reads client_buff_size zeroed (omega arith) all lt, read_data) refl,
)
  where
    go :
        read_data reads net client_buff_size ≡ ReadData.waiting
        → (l : Loop) → read_loop reads client_buff_size zeroed ≡ l
        → read_loop reads client_buff_size zeroed ≡ Loop.waiting
    go h Loop.waiting e = e
    go h Loop.exits e = absurd (let q = rw (e, read_data) at h in cc)
    go h (ended missing b rest) e = absurd (let q = rw (e, read_data) at h in ground arith)
