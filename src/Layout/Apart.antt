-- ===== src/Layout/Apart.antt =====
-- The regions of the force core in physical memory, at the addresses of VirtualForce_linux/force_interface.h,
-- against the pages that VirtualForce_linux/mmap_comm.c maps.
use virtual_force.Prelude.{
  ℕ, zero, suc, ◌+◌, ◌%◌, ◌<◌, ◌≤◌, ◌≡◌, refl, sym, arith, some, List, [], ◌∷◌, inl, inr, get_elem?,
}
use virtual_force.Mmap.{servo_cmd_addr, force_monitor, force_given_vir}
use virtual_force.Layout.{
  CType, int32, array, IsDoubleAlign, struct_size, servo_core_process_call, force_core_process_back,
  para_force_info, force_instruction_info, force_core_state, force_back_info, force_monitor_type,
  force_virtual_cmd, size_of, align_of,
}

-- `COMM_SHAKE_HANDE_DATA`, the first of five words
abbrev pub comm_shake_hande_data : ℕ
comm_shake_hande_data = 0x3b000000

abbrev pub servo_para_addr : ℕ
servo_para_addr = 0x3b002000

abbrev pub servo_cmd_back_addr : ℕ
servo_cmd_back_addr = 0x3b001020

abbrev pub servo_instruct_addr : ℕ
servo_instruct_addr = 0x3b200000

abbrev pub servo_state_addr : ℕ
servo_state_addr = 0x3b201000

abbrev pub servo_res_addr : ℕ
servo_res_addr = 0x3b202000

-- the five words of the handshake, the heartbeats and the state
abbrev pub comm_words : List CType
comm_words = array int32 5 ∷ []

pub record Region : Type 0 where
  pub address : ℕ
  pub fields : List CType

-- every region, by its address
abbrev pub regions : List Region
regions =
    record { address = comm_shake_hande_data; fields = comm_words }
    ∷ record { address = servo_cmd_addr; fields = servo_core_process_call }
    ∷ record { address = servo_cmd_back_addr; fields = force_core_process_back }
    ∷ record { address = servo_para_addr; fields = para_force_info }
    ∷ record { address = servo_instruct_addr; fields = force_instruction_info }
    ∷ record { address = servo_state_addr; fields = force_core_state }
    ∷ record { address = servo_res_addr; fields = force_back_info }
    ∷ record { address = force_monitor; fields = force_monitor_type }
    ∷ record { address = force_given_vir; fields = force_virtual_cmd }
    ∷ []

-- the byte `x` belongs to the region
abbrev pub IsIn : ℕ → ℕ → Region → Type 0
IsIn al x r = (r.address ≤ x) × (x < r.address + struct_size al r.fields)

-- Each region ends before the next one, and in the page that it starts in; none before `from`.
abbrev AreApart : ℕ → ℕ → List Region → Type 0
AreApart al from [] = Unit {0}
AreApart al from (r ∷ rs) =
    (from ≤ r.address)
    × ((r.address % 4096) + struct_size al r.fields ≤ 4096)
    × AreApart al (r.address + struct_size al r.fields) rs

regions-AreApart : (al : ℕ) → IsDoubleAlign al → AreApart al 0 regions
unfolding struct_size size_of align_of
regions-AreApart al (inl e) = rw e (omega arith)
regions-AreApart al (inr e) = rw e (omega arith)

later_from :
    (al from : ℕ) (rs : List Region) (j x : ℕ) {q : Region}
    → AreApart al from rs
    → get_elem? rs j ≡ some q
    → IsIn al x q
    → from ≤ x
later_from al from [] j x h e i = absurd (let z = e in cc)
later_from al from (r ∷ rs) zero x {q} h e i =
    let same : r ≡ q = cc in let start = rw same at h.0 in omega (arith, start, i.0)
later_from al from (r ∷ rs) (suc j) x h e i =
    let rest = later_from al (r.address + struct_size al r.fields) rs j x h.2 e i in
    omega (arith, h.0, rest)

one_region :
    (al from : ℕ) (rs : List Region) (j k x : ℕ) {q r : Region}
    → AreApart al from rs
    → get_elem? rs j ≡ some q
    → get_elem? rs k ≡ some r
    → IsIn al x q
    → IsIn al x r
    → j ≡ k
one_region al from [] j k x h ej ek ij ik = absurd (let z = ej in cc)
one_region al from (a ∷ rs) zero zero x h ej ek ij ik = refl
one_region al from (a ∷ rs) zero (suc k) x {q} h ej ek ij ik =
    let same : a ≡ q = cc in
    let ends = rw (sym same) at ij.1 in
    absurd (omega (arith, ends, later_from al _ rs k x h.2 ek ik))
one_region al from (a ∷ rs) (suc j) zero x {q} {r} h ej ek ij ik =
    let same : a ≡ r = cc in
    let ends = rw (sym same) at ik.1 in
    absurd (omega (arith, ends, later_from al _ rs j x h.2 ej ij))
one_region al from (a ∷ rs) (suc j) (suc k) x h ej ek ij ik =
    ground (arith, one_region al (a.address + struct_size al a.fields) rs j k x h.2 ej ek ij ik)

in_page :
    (al from : ℕ) (rs : List Region) (j : ℕ) {q : Region}
    → AreApart al from rs
    → get_elem? rs j ≡ some q
    → (q.address % 4096) + struct_size al q.fields ≤ 4096
in_page al from [] j h e = absurd (let z = e in cc)
in_page al from (a ∷ rs) zero {q} h e = let same : a ≡ q = cc in rw same at h.1
in_page al from (a ∷ rs) (suc j) h e = in_page al (a.address + struct_size al a.fields) rs j h.2 e

-- The regions of the force core do not overlap, whether a `double` is aligned to 4 or to 8 bytes: no
-- byte of physical memory belongs to two of the nine, and each lies in the page of 4096 bytes in which it
-- starts, so that the mapping of one page covers it.
pub regions_apart :
    (al j k : ℕ) {q r : Region}
    → IsDoubleAlign al
    → get_elem? regions j ≡ some q
    → get_elem? regions k ≡ some r
    → ((x : ℕ) → IsIn al x q → IsIn al x r → j ≡ k)
      × (q.address % 4096 + struct_size al q.fields ≤ 4096)
regions_apart al j k h ej ek = (
  λ x ij ik. one_region al 0 regions j k x (regions-AreApart al h) ej ek ij ik,
  in_page al 0 regions j (regions-AreApart al h) ej,
)
