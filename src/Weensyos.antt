-- ===== src/Weensyos.antt =====
-- weensyos/kernel.hh and x86-64.h: the constants of the kernel of WeensyOS and the parts of a
-- virtual address.
pub mod Pages
pub mod Vmiter
pub mod Map
pub mod Schedule
pub mod Bytes
pub mod Numbers
pub mod Printer
pub mod Console
pub mod Processes
use cs300_s23_projects_days.Prelude.{
  ℕ, zero, suc, ◌==◌, ◌+◌, ◌-◌, ◌*◌, ◌/◌, ◌%◌, ◌^◌, Bool, ◌||◌, leb, ltb, not,
}

abbrev pub page_size : ℕ
page_size = 4096

abbrev pub memsize_physical : ℕ
memsize_physical = 2097152

-- Number of physical pages.
abbrev pub npages : ℕ
npages = 512

abbrev pub kernel_start_addr : ℕ
kernel_start_addr = 262144

abbrev pub kernel_stack_top : ℕ
kernel_stack_top = 524288

abbrev pub iophysmem : ℕ
iophysmem = 655360

abbrev pub extphysmem : ℕ
extphysmem = 1048576

abbrev pub proc_start_addr : ℕ
proc_start_addr = 1048576

abbrev pub memsize_virtual : ℕ
memsize_virtual = 3145728

-- The entry of a page table that a virtual address takes at a level.
abbrev pub page_shift : ℕ → ℕ
page_shift level = 2 ^ (12 + level * 9)

unfoldable pub pageindex : ℕ → ℕ → ℕ
pageindex va level = va / page_shift level % 512

unfoldable pub va_is_canonical : ℕ → Bool
va_is_canonical va = leb va 140737488355327 || leb 18446603336221196288 va

-- Bits of an entry: PTE_P, PTE_W, PTE_U and PTE_PS.
abbrev pub bit : ℕ → ℕ → Bool
bit e k = e / 2 ^ k % 2 == 1

abbrev pub pte_p : ℕ → Bool
pte_p e = bit e 0

abbrev pub pte_ps : ℕ → Bool
pte_ps e = bit e 7

-- e & PTE_PAMASK
abbrev pub pamask : ℕ → ℕ
pamask e = e / 4096 % 2 ^ 40 * 4096

-- a & b for the lowest bits of two words.
unfoldable pub bits_and : ℕ → ℕ → ℕ → ℕ
bits_and zero a b = 0
bits_and (suc n) a b = a % 2 * (b % 2) + 2 * bits_and n (a / 2) (b / 2)

-- a | b of two words.
unfoldable pub bits_or : ℕ → ℕ → ℕ
bits_or a b = a + b - bits_and 64 a b
