-- ===== src/Network/Shipped.antt =====
-- The ring of network_client.c, 280 bytes for commands of 32, while no more than eight commands wait in it.
-- A command that starts near the end of the ring reaches past it, into what stands behind `local_buff`.
use virtual_force.Prelude.{
  ℕ, zero, suc, ◌+◌, ◌*◌, ◌%◌, ◌<◌, ◌≤◌, ◌≡◌, ◌≢◌, refl, sym, ap, ◌∙◌, ◌⊎◌, inl, inr, arith, List,
  [], ◌∷◌, ◌++◌, none, some, length, length-append, ◌==◌, false, dec_lt,
}
use virtual_force.Memory.{Mem, memcpy, bytes, zeroed, bytes-memcpy_self, bytes-memcpy_disjoint}
use virtual_force.Buffer.{
  BufferInfo, is_buff_full, is_buff_empty, push_circle_buff_item, pull_circle_buff_item,
}
use virtual_force.Buffer.Fifo.{Element}
use virtual_force.Buffer.Laws.{QueueLaws}
use virtual_force.Buffer.Queue.{Op, push, pull, Reply, run, spec}
use virtual_force.Network.{fresh_info, max_size}

-- from offset `h` on, the commands in order, each 32 bytes behind the one before, round 280
abbrev pub Stored : Mem → ℕ → List Element → Type 0
Stored m h [] = Unit {0}
Stored m h (x ∷ q) = (bytes m h 32 ≡ x) × Stored m ((h + 32) % 280) q

-- Fewer than eight steps on, the bytes do not meet those at the start.
steps_disjoint :
    (h l : ℕ)
    → h < 280
    → 0 < l
    → l < 8
    → (h + 32 ≤ (h + 32 * l) % 280) ⊎ ((h + 32 * l) % 280 + 32 ≤ h)
steps_disjoint h l hn pos few = elim (dec_lt (h + 32 * l) 280) [
  | yes p ↦ inl (omega arith)
  | no p ↦ inr (omega arith)
]

Stored-memcpy :
    (m p : Mem) (h t : ℕ) (q : List Element)
    → h < 280
    → length q < 8
    → t ≡ (h + 32 * length q) % 280
    → Stored m h q
    → Stored (memcpy m t p 0 32) h (q ++ (bytes p 0 32 ∷ []))
Stored-memcpy m p h t [] hn few e s =
    let same : t ≡ h = omega (arith, e) in (rw (sym same) (bytes-memcpy_self m p t 0 32), tt)
Stored-memcpy m p h t (x ∷ q) hn few e s = (
  bytes-memcpy_disjoint m p t 0 32 h 32
        (rw (sym e) at (steps_disjoint h (suc (length q)) hn (omega arith) few))
      ∙ s.0,
  Stored-memcpy m p ((h + 32) % 280) t q (omega arith) (omega arith) (omega (arith, e)) s.1,
)

-- The ring of `network_init` with its head anywhere holds the queue `q`, oldest command first.
pub record KeepsShipped (i : BufferInfo) (m : Mem) (q : List Element) : Type 0 where
  pub element_at : i.element_length ≡ 32
  pub length_at : i.buff_length ≡ 280
  pub head_in : i.head_index_offset < 280
  pub tail_at : i.tail_index_offset ≡ (i.head_index_offset + 32 * length q) % 280
  pub few : length q ≤ 8
  pub stored : Stored m i.head_index_offset q

push-KeepsShipped :
    {i : BufferInfo} {m : Mem} {q : List Element} (p : Mem)
    → KeepsShipped i m q
    → length q ≢ 8
    → let r = push_circle_buff_item i m p in
      KeepsShipped r.info r.buff (q ++ (bytes p 0 32 ∷ [])) × (r.result ≡ some 32)
unfolding push_circle_buff_item is_buff_full
push-KeepsShipped {i} {m} {q} p v room =
    rw (v.element_at, v.length_at, spare)
      (
        record {
          element_at = refl;
          length_at = refl;
          head_in = v.head_in;
          tail_at = omega (arith, v.tail_at, grown);
          few = omega (arith, grown, v.few);
          stored =
              Stored-memcpy m p i.head_index_offset i.tail_index_offset q v.head_in
                (let f = v.few in omega arith) v.tail_at v.stored;
        },
        refl,
      )
  where
    grown : length (q ++ (bytes p 0 32 ∷ [])) ≡ length q + 1
    grown = length-append q (bytes p 0 32 ∷ [])

    spare : ((i.tail_index_offset + 32) % 280 == i.head_index_offset) ≡ false
    spare = let t = v.tail_at in let f = v.few in let h = v.head_in in ground (arith, t, f, h)

-- A pull takes the oldest command.
pull-KeepsShipped :
    {i : BufferInfo} {m : Mem} {x : Element} {q : List Element} (p : Mem)
    → KeepsShipped i m (x ∷ q)
    → let r = pull_circle_buff_item i m p in
      KeepsShipped r.info m q × (bytes r.out 0 i.element_length ≡ x) × (r.result ≡ some 0)
unfolding pull_circle_buff_item is_buff_empty
pull-KeepsShipped {i} {m} {x} {q} p v =
    rw (busy, v.element_at, v.length_at)
      (
        record {
          element_at = refl;
          length_at = refl;
          head_in = omega arith;
          tail_at = omega (arith, v.tail_at, v.head_in);
          few = omega (arith, v.few);
          stored = v.stored.1;
        },
        bytes-memcpy_self p m 0 i.head_index_offset 32 ∙ v.stored.0,
        refl,
      )
  where
    busy : (i.tail_index_offset == i.head_index_offset) ≡ false
    busy = let t = v.tail_at in let f = v.few in let h = v.head_in in ground (arith, t, f, h)

push-head :
    (i : BufferInfo) (m p : Mem)
    → (push_circle_buff_item i m p).info.head_index_offset ≡ i.head_index_offset
unfolding push_circle_buff_item
push-head i m p = ground arith

pull-head :
    {i : BufferInfo} {m : Mem} {x : Element} {q : List Element} (p : Mem)
    → KeepsShipped i m (x ∷ q)
    → (pull_circle_buff_item i m p).info.head_index_offset ≡ (i.head_index_offset + 32) % 280
unfolding pull_circle_buff_item is_buff_empty
pull-head {i} {m} {x} {q} p v = rw (busy, v.element_at, v.length_at) refl
  where
    busy : (i.tail_index_offset == i.head_index_offset) ≡ false
    busy = let t = v.tail_at in let f = v.few in let h = v.head_in in ground (arith, t, f, h)

pull_none :
    {i : BufferInfo} {m : Mem} (p : Mem)
    → KeepsShipped i m []
    → pull_circle_buff_item i m p ≡ record { info = i; out = p; result = none }
unfolding pull_circle_buff_item is_buff_empty
pull_none {i} {m} p v =
    let e : i.tail_index_offset ≡ i.head_index_offset =
      let t = v.tail_at in let h = v.head_in in omega arith in
    ground (arith, e)

-- The first eight commands of the ring: neither end has wrapped.
pub record KeepsFirst (i : BufferInfo) (m : Mem) (q : List Element) : Type 0 where
  pub shipped : KeepsShipped i m q
  pub before : ℕ
  pub head_at : i.head_index_offset ≡ 32 * before
  pub eight : before + length q ≤ 8

pub first-QueueLaws : QueueLaws 32 max_size KeepsFirst
unfolding is_buff_empty
first-QueueLaws = record {
  pushes = λ {i} {m} {q} p v room inside.
      let tail = v.shipped.tail_at in
      let width = v.shipped.element_at in
      let h = v.head_at in
      let e = v.eight in
      let few : v.before + length q < 8 = omega (arith, tail, width, h, e, inside) in
      let spare : length q ≢ 8 = omega arith in
      record {
        shipped = (push-KeepsShipped p v.shipped spare).0;
        before = v.before;
        head_at = push-head i m p ∙ v.head_at;
        eight = omega (arith, few, length-append q (bytes p 0 32 ∷ []));
      };
  pulls = λ {i} {m} {x} {q} p v.
      let (v', out, _) = pull-KeepsShipped p v.shipped in
      (
        record {
          shipped = v';
          before = suc v.before;
          head_at = pull-head p v.shipped ∙ omega (arith, v.head_at, v.eight);
          eight = omega (arith, v.eight);
        },
        sym (ap (λ (k : ℕ). bytes (pull_circle_buff_item i m p).out 0 k) v.shipped.element_at)
            ∙ out,
      );
  empties = λ {i} v.
      let t = v.shipped.tail_at in
      let h = v.shipped.head_in in
      let e : i.tail_index_offset ≡ i.head_index_offset = omega arith in ground (arith, e);
}

-- No push comes while eight commands wait.
abbrev pub NeverFull : ℕ → List Op → Type 0
NeverFull waiting [] = Unit {0}
NeverFull waiting (push p ∷ ops) = (waiting < 8) × NeverFull (suc waiting) ops
NeverFull zero (pull ∷ ops) = NeverFull zero ops
NeverFull (suc waiting) (pull ∷ ops) = NeverFull waiting ops

run_shipped :
    (ops : List Op) {i : BufferInfo} {m : Mem} {q : List Element}
    → KeepsShipped i m q
    → NeverFull (length q) ops
    → run i m ops ≡ spec 32 8 q ops
unfolding run spec
run_shipped [] v h = refl
run_shipped (push p ∷ ops) {i} {m} {q} v (lt, h) =
    let (v', done) = push-KeepsShipped p v (omega arith) in
    let spare : (length q == 8) ≡ false = ground arith in
    let grown : length (q ++ (bytes p 0 32 ∷ [])) ≡ suc (length q) =
      omega (arith, length-append q (bytes p 0 32 ∷ [])) in
    let rest = run_shipped ops v' (rw (sym grown) at h) in
    rw (done, spare) (ap (λ (l : List Reply). (some 32, none) ∷ l) rest)
run_shipped (pull ∷ ops) {q = []} v h =
    rw (pull_none zeroed v) (ap (λ (l : List Reply). (none, none) ∷ l) (run_shipped ops v h))
run_shipped (pull ∷ ops) {i} {m} {q = x ∷ q} v h =
    let (v', got, done) = pull-KeepsShipped zeroed v in
    let rest = run_shipped ops v' h in
    rw (done, got) (ap (λ (l : List Reply). (some 0, some x) ∷ l) rest)

pub fresh-KeepsShipped : (m : Mem) → KeepsShipped fresh_info m []
fresh-KeepsShipped m = record {
  element_at = refl;
  length_at = refl;
  head_in = omega arith;
  tail_at = refl;
  few = omega arith;
  stored = tt;
}

pub fresh-KeepsFirst : (m : Mem) → KeepsFirst fresh_info m []
fresh-KeepsFirst m = record {
  shipped = fresh-KeepsShipped m;
  before = 0;
  head_at = refl;
  eight = omega arith;
}

-- The ring for commands keeps eight of them: no pushes and pulls tell the ring that `network_init` makes,
-- whose 280 bytes are no whole number of commands, from a queue of commands of 32 bytes, as long as no push
-- comes while eight commands wait; however often the ring has wrapped, all that was pushed is pulled,
-- in order and with the same bytes, a pull of an empty ring returns -1, and no push is refused.
pub shipped_refines :
    (ops : List Op) (m : Mem) → NeverFull 0 ops → run fresh_info m ops ≡ spec 32 8 [] ops
shipped_refines ops m h = run_shipped ops (fresh-KeepsShipped m) h
