-- ===== src/Network/Read.antt =====
-- The loop of `read_data` in network_client.c: which reads make up a command.
use virtual_force.Prelude.{
  ℕ, zero, suc, ◌+◌, ◌-◌, ◌≤◌, ◌<◌, ◌≡◌, refl, sym, ap, ◌∙◌, List, [], ◌∷◌, ◌++◌, ◌⊎◌, inl, inr,
  some, arith,
}
use virtual_force.Memory.{Mem, memcpy, zeroed}
use virtual_force.Buffer.{push_circle_buff_item}
use virtual_force.Network.{
  Net, eintr, Fread, Loop, ended, read_loop, ReadData, read_data, client_buff_size,
}

-- the bytes that a list of reads stored
unfoldable pub total : List Fread → ℕ
total [] = 0
total (r ∷ rs) = r.count + total rs

-- No read stores more bytes than are still missing: what `fread` promises for a loop that asks for
-- just these.
abbrev pub InBounds : List Fread → ℕ → Type 0
InBounds [] n = Unit {0}
InBounds (r ∷ rs) n = (r.count ≤ n) × InBounds rs (n - r.count)

abbrev buffer_after : Fread → Mem → Mem
buffer_after r buffer = memcpy buffer 0 r.data_read 0 r.count

-- After a read the loop goes on, ends or exits.
read_loop_step :
    (r : Fread) (reads : List Fread) (n : ℕ) (buffer : Mem)
    → (read_loop (r ∷ reads) (suc n) buffer
        ≡ read_loop reads (suc n - r.count) (buffer_after r buffer))
      ⊎ (read_loop (r ∷ reads) (suc n) buffer
          ≡ ended (suc n - r.count) (buffer_after r buffer) reads)
      ⊎ (read_loop (r ∷ reads) (suc n) buffer ≡ Loop.exits)
unfolding read_loop
read_loop_step r reads n buffer = ground arith

-- The loop accounts for every byte: it ends after some of the reads, and what they stored together
-- with what it reports missing is what was asked for.
pub read_loop-total :
    (reads : List Fread) (n : ℕ) (buffer : Mem) {missing : ℕ} {b : Mem} {rest : List Fread}
    → InBounds reads n
    → read_loop reads n buffer ≡ ended missing b rest
    → (done : List Fread) × (reads ≡ done ++ rest) × (total done + missing ≡ n)
unfolding read_loop total
read_loop-total reads zero buffer bd h = ([], ground arith, ground arith)
read_loop-total [] (suc n) buffer bd h = cc
read_loop-total (r ∷ reads) (suc n) buffer {missing} {b} {rest} bd h =
    elim (read_loop_step r reads n buffer) [
      | inl e ↦
          let (done, split, sum) =
            read_loop-total reads (suc n - r.count) (buffer_after r buffer) bd.1 (sym e ∙ h) in
          (r ∷ done, ap (λ (l : List Fread). r ∷ l) split, omega arith)
      | inr (inl e) ↦ let q = sym e ∙ h in (r ∷ [], ground arith, ground arith)
      | inr (inr e) ↦ cc
    ]

pub read_loop_done :
    (reads : List Fread) (k : ℕ) (b : Mem) → k ≡ 0 → read_loop reads k b ≡ ended 0 b reads
unfolding read_loop
read_loop_done reads zero b e = refl
read_loop_done reads (suc k) b e = absurd (omega arith)

-- A read that delivers all that is missing ends the loop with nothing missing.
pub read_loop_whole :
    (r : Fread) (reads : List Fread) (n : ℕ) (buffer : Mem)
    → n ≤ client_buff_size
    → r.count ≡ n
    → 0 < n
    → read_loop (r ∷ reads) n buffer ≡ ended 0 (memcpy buffer 0 r.data_read 0 n) reads
unfolding read_loop
read_loop_whole r reads zero buffer small e pos = absurd (omega arith)
read_loop_whole r reads (suc n) buffer small e pos =
    rw e
      (ground (arith, read_loop_done reads (suc n - suc n) (memcpy buffer 0 r.data_read 0 (suc n))))

-- What `read_data` does when the first read delivers the whole command: it is pushed, the bytes
-- that were read and no others.
pub read_data_whole :
    (r : Fread) (reads : List Fread) (net : Net)
    → r.count ≡ client_buff_size
    → let p =
        push_circle_buff_item net.local_buff_info net.local_buff
          (memcpy zeroed 0 r.data_read 0 client_buff_size) in
      read_data (r ∷ reads) net client_buff_size
      ≡ ReadData.pushed (record net { local_buff_info = p.info; local_buff = p.buff })
unfolding read_data
read_data_whole r reads net e =
    rw (read_loop_whole r reads client_buff_size zeroed (omega arith) e (omega arith), read_data)

-- Where no read stores more bytes than are missing, `read_data` pushes a command only after reads
-- that delivered, together, as many bytes as a command has.
pub read_data-total :
    (reads : List Fread) (net : Net) {after : Net}
    → InBounds reads client_buff_size
    → read_data reads net client_buff_size ≡ ReadData.pushed after
    → (done rest : List Fread) × (reads ≡ done ++ rest) × (total done ≡ client_buff_size)
unfolding read_data
read_data-total reads net bd h = go (read_loop reads client_buff_size zeroed) refl
  where
    go :
        (l : Loop)
        → read_loop reads client_buff_size zeroed ≡ l
        → (done rest : List Fread) × (reads ≡ done ++ rest) × (total done ≡ client_buff_size)
    go Loop.waiting e = absurd (let q = rw (e, read_data) at h in cc)
    go Loop.exits e = absurd (let q = rw (e, read_data) at h in cc)
    go (ended missing b rest) e =
        let q = rw (e, read_data) at h in
        let (done, split, sum) = read_loop-total reads client_buff_size zeroed bd e in
        (done, rest, split, ground arith)

-- After an interrupted read the loop goes on.
interrupted_step :
    (r : Fread) (reads : List Fread) (n : ℕ) (buffer : Mem)
    → r.count ≤ n
    → n < client_buff_size
    → r.error ≡ some eintr
    → read_loop (r ∷ reads) (suc n) buffer
      ≡ read_loop reads (suc n - r.count) (buffer_after r buffer)
unfolding read_loop
interrupted_step r reads n buffer le lt e = ground arith

-- An interruption after some of the bytes, where the next read delivers the rest, loses them: that
-- read stores its bytes from the start of the buffer again, so what is pushed as byte `i` is byte
-- `i` of the second read as long as that lasts.
pub read_loop_restarts :
    (r s : Fread) (reads : List Fread)
    → 0 < r.count
    → r.count < client_buff_size
    → r.error ≡ some eintr
    → r.count + s.count ≡ client_buff_size
    → (b : Mem) × (read_loop (r ∷ s ∷ reads) client_buff_size zeroed ≡ ended 0 b reads)
      × ((i : ℕ) → i < s.count → b i ≡ s.data_read i)
read_loop_restarts r s reads pos lt f sum = (
  memcpy (buffer_after r zeroed) 0 s.data_read 0 (client_buff_size - r.count),
  interrupted_step r (s ∷ reads) 31 zeroed (omega arith) (omega arith) f
      ∙ read_loop_whole s reads (client_buff_size - r.count) (buffer_after r zeroed) (omega arith)
          (omega arith) (omega arith),
  λ i h. ground arith,
)
