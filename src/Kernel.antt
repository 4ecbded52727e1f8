-- ===== src/Kernel.antt =====
-- What libpoireau calls in the operating system: `mmap`, `munmap`, `process_vm_readv`, and the
-- memory that `memcpy` writes. None of it is code of the repository, so it is a parameter; the
-- laws are the documented behaviour that the library relies on.
pub mod Cut
pub mod Regions
use poireau.Prelude.{
  ℕ, ◌+◌, ◌%◌, ◌^◌, ◌≤◌, ◌<◌, ◌≡◌, Bool, true, false, not, ◌&&◌, ◌||◌, Option, none, some, within,
}

-- The flags and the file that the library passes; `none` is the file descriptor -1.
pub record MmapFlags : Type 0 where
  pub anonymous : Bool
  pub fixed_noreplace : Bool
  pub file : Option ℕ

-- `State` is the address space with its contents. A failed `mmap` is `none`, and `munmap` says
-- whether it returned 0.
pub record Kernel : Type 1 where
  pub State : Type 0
  pub mapped : State → ℕ → Bool
  pub byte : State → ℕ → ℕ
  pub errno : State → ℕ
  pub mmap : (hint len : ℕ) → MmapFlags → State → Option ℕ × State
  pub munmap : (addr len : ℕ) → State → Bool × State

module _ (k : Kernel) where
  pub record SameMemory (before after : k.State) : Type 0 where
    pub mapped : (x : ℕ) → k.mapped after x ≡ k.mapped before x
    pub byte : (x : ℕ) → k.byte after x ≡ k.byte before x

  -- `[base, base + len)` was free, and is now mapped and zero; what was mapped is as before.
  pub record FreshMapping (base len : ℕ) (before after : k.State) : Type 0 where
    pub free : (x : ℕ) → within base len x ≡ true → k.mapped before x ≡ false
    pub mapped : (x : ℕ) → k.mapped after x ≡ (within base len x || k.mapped before x)
    pub zero_filled : (x : ℕ) → within base len x ≡ true → k.byte after x ≡ 0
    pub byte : (x : ℕ) → k.mapped before x ≡ true → k.byte after x ≡ k.byte before x

  -- `[base, base + len)` is gone; what is still mapped is as before.
  pub record Unmapping (base len : ℕ) (before after : k.State) : Type 0 where
    pub mapped : (x : ℕ) → k.mapped after x ≡ (not (within base len x) && k.mapped before x)
    pub byte : (x : ℕ) → k.mapped after x ≡ true → k.byte after x ≡ k.byte before x

  -- User addresses are below 2 ^ 47, and page 0 is never given out.
  pub record KernelLaws : Type 0 where
    pub mmap_place :
        (hint len : ℕ) (flags : MmapFlags) (s : k.State) (a : ℕ)
        → (k.mmap hint len flags s).0 ≡ some a
        → 0 < len
        → (a % 4096 ≡ 0) × (0 < a) × (a + len ≤ 2 ^ 47)
    pub mmap_fresh :
        (hint len : ℕ) (flags : MmapFlags) (s : k.State) (a : ℕ)
        → (k.mmap hint len flags s).0 ≡ some a
        → 0 < len
        → len % 4096 ≡ 0
        → FreshMapping a len s (k.mmap hint len flags s).1
    pub mmap_failed :
        (hint len : ℕ) (flags : MmapFlags) (s : k.State)
        → (k.mmap hint len flags s).0 ≡ none
        → SameMemory s (k.mmap hint len flags s).1
    -- EBADF: a mapping that is not anonymous needs a file.
    pub mmap_no_file :
        (hint len : ℕ) (flags : MmapFlags) (s : k.State)
        → flags.anonymous ≡ false
        → flags.file ≡ none
        → (k.mmap hint len flags s).0 ≡ none
    pub munmap_ok :
        (addr len : ℕ) (s : k.State)
        → addr % 4096 ≡ 0
        → 0 < len
        → len % 4096 ≡ 0
        → addr + len ≤ 2 ^ 47
        → ((k.munmap addr len s).0 ≡ true) × Unmapping addr len s (k.munmap addr len s).1
    -- EINVAL: an empty range is refused.
    pub munmap_empty : (addr : ℕ) (s : k.State) → (k.munmap addr 0 s).0 ≡ false
