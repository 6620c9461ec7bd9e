-- ===== src/Network/Misfit.antt =====
-- The ring of buffer_manager.c at a length that is no whole number of elements: the 280 bytes for
-- commands of 32 that network_client.c chooses.
use virtual_force.Prelude.{
  ℕ, zero, suc, ◌-◌, ◌≤◌, ◌<◌, ◌≡◌, refl, arith, Option, none, some, List, [], ◌∷◌,
}
use virtual_force.Memory.{Mem}
use virtual_force.Buffer.{
  BufferInfo, Pushed, is_buff_full, push_circle_buff_item, pull_circle_buff_item, is_buff_empty,
}
use virtual_force.Network.{fresh_info}

-- push the elements `p 0` to `p (n - 1)`, with what each push returned, the last one first
pub push_all : (ℕ → Mem) → ℕ → BufferInfo → Mem → Pushed × List (Option ℕ)
push_all p zero i m = (record { info = i; buff = m; result = none }, [])
push_all p (suc n) i m =
    let (r, results) = push_all p n i m in
    let t = push_circle_buff_item r.info r.buff (p n) in (t, t.result ∷ results)

abbrev ok : Option ℕ
ok = some 32

-- The empty ring of `network_init` accepts ten commands, 320 bytes in 280; the pull that follows
-- then gives, as the oldest, 8 bytes of the first command and 24 of the tenth.
pub ten_overwrite :
    (p : ℕ → Mem) (m q : Mem)
    → let (r, results) = push_all p 10 fresh_info m in
      let t = pull_circle_buff_item r.info r.buff q in
      (results ≡ ok ∷ ok ∷ ok ∷ ok ∷ ok ∷ ok ∷ ok ∷ ok ∷ ok ∷ ok ∷ [])
      × ((k : ℕ) → k < 8 → t.out k ≡ p 0 k)
      × ((k : ℕ) → 8 ≤ k → k < 32 → t.out k ≡ p 9 (k - 8))
unfolding push_all push_circle_buff_item pull_circle_buff_item is_buff_full is_buff_empty
ten_overwrite p m q = (refl, λ k lt. ground arith, λ k ge lt. ground arith)
