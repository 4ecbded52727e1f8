-- ===== src/TrackedAlloc.antt =====
-- src/tracked_alloc.c and src/tracked_alloc.h: the allocator of sampled requests. Every tracked
-- allocation starts at a multiple of 1 GB and has its own entry in two parallel tables.
-- Pointers are their addresses; NULL is 0.
pub mod Pages
pub mod Mapping
pub mod Invariant
pub mod Stores
pub mod Get
pub mod Put
pub mod Lookup
pub mod Resize
pub mod Empty
pub mod RoundTrip
pub mod Tasks
pub mod Examples
use poireau.Prelude.{
  ℕ, ◌-◌, ◌*◌, ◌/◌, ◌%◌, ◌^◌, bit_and, Bool, true, false, not, Option, none, some, List, ◌∷◌, ltb,
  ◌==◌, if◌then◌else◌, update,
}
use poireau.Word.{add64, sub64, neg64}
use poireau.Exec.{Failure, done, Exec, pure, fail, ◌>>=◌, ◌>>◌, gets, modify, check}
use poireau.Kernel.{MmapFlags, Kernel}
use poireau.Probe.{Probe}

abbrev pub address_space_max : ℕ
address_space_max = 2 ^ 47

abbrev pub tracking_alignment : ℕ
tracking_alignment = 2 ^ 30

abbrev pub page_size : ℕ
page_size = 4096

-- The number of entries of both tables.
abbrev pub table_size : ℕ
table_size = address_space_max / tracking_alignment

abbrev pub ssize_max : ℕ
ssize_max = 2 ^ 63 - 1

abbrev pub mmap_location_mod : ℕ
mmap_location_mod = 2 ^ 47

abbrev pub mmap_location_multiplier : ℕ
mmap_location_multiplier = 17 * 2 ^ 30

pub record TrackedAllocInfo : Type 0 where
  pub id : ℕ
  pub size : ℕ

-- `(size + PAGE_SIZE - 1) & -PAGE_SIZE`
pub round_to_page : ℕ → ℕ
round_to_page size = bit_and (sub64 (add64 size page_size) 1) (neg64 page_size)

-- The end of the pages under `[begin, begin + size)`.
pub page_end : (begin size : ℕ) → ℕ
page_end begin size = bit_and (sub64 (add64 (add64 begin size) page_size) 1) (neg64 page_size)

pub mmap_hint : ℕ → ℕ
mmap_hint id =
    bit_and (id * mmap_location_multiplier % 2 ^ 64 % mmap_location_mod) (neg64 page_size)

abbrev pub anonymous_private : MmapFlags
anonymous_private = record { anonymous = true; fixed_noreplace = false; file = none }

-- The flags of `grow_mapping`.
abbrev pub private_noreplace : MmapFlags
private_noreplace = record { anonymous = false; fixed_noreplace = true; file = none }

-- The static variables of the file, the kernel's state and the tracepoints passed so far.
pub record Tracker (k : Kernel) : Type 0 where
  pub os : k.State
  pub alloc_id_counter : ℕ
  pub tracked_alloc_table : ℕ → ℕ
  pub info_table : ℕ → TrackedAllocInfo
  pub probes : List Probe

module _ (k : Kernel) where
  abbrev pub Track : Type 0 → Type 0
  Track A = Exec (Tracker k) A

  pub mmap : (hint len : ℕ) → MmapFlags → Track (Option ℕ)
  mmap hint len flags t = let r = k.mmap hint len flags t.os in done r.0 (record t { os = r.1 })

  pub munmap : (addr len : ℕ) → Track Bool
  munmap addr len t = let r = k.munmap addr len t.os in done r.0 (record t { os = r.1 })

  -- `r = munmap(addr, len); assert(r == 0);`
  pub munmap_checked : (addr len : ℕ) → Track (Unit {0})
  unfolding munmap
  munmap_checked addr len = do r ← munmap addr len; check r

  unfoldable pub probe : Probe → Track (Unit {0})
  probe p = modify (λ t. record t { probes = p ∷ t.probes })

  -- Accesses to the two tables; one outside them is a fault.
  abbrev pub in_table : ℕ → Track (Unit {0})
  in_table index = if ltb index table_size then pure tt else fail Failure.out_of_bounds

  pub load_table : ℕ → Track ℕ
  load_table index = in_table index >> gets (λ t. t.tracked_alloc_table index)

  pub exchange_table : ℕ → ℕ → Track ℕ
  exchange_table index value = do
    in_table index
    prev ← gets (λ t. t.tracked_alloc_table index)
    modify (λ t. record t { tracked_alloc_table = update t.tracked_alloc_table index value })
    pure prev

  pub load_info : ℕ → Track TrackedAllocInfo
  load_info index = in_table index >> gets (λ t. t.info_table index)

  pub store_id : ℕ → ℕ → Track (Unit {0})
  store_id index id =
      in_table index
      >> modify (λ t. record t {
        info_table = update t.info_table index (record (t.info_table index) { id = id });
      })

  pub store_size : ℕ → ℕ → Track (Unit {0})
  store_size index size =
      in_table index
      >> modify (λ t. record t {
        info_table = update t.info_table index (record (t.info_table index) { size = size });
      })

  -- The fast test: most pointers are settled by their alignment alone.
  pub tracked_alloc_p : ℕ → Track Bool
  unfolding load_table
  tracked_alloc_p bits =
      if not (bits % tracking_alignment == 0)
      then pure false
      else if bits == 0
      then pure false
      else do entry ← load_table (bits / tracking_alignment); pure (bits == entry)

  -- The two `munmap` calls that cut the aligned chunk out of a padded mapping.
  pub trim : (map_begin padded_size rounded_size alignment : ℕ) → Track ℕ
  trim map_begin padded_size rounded_size alignment =
      let map_end = add64 map_begin padded_size in
      let chunk_begin = bit_and (add64 map_begin alignment) (neg64 alignment) in
      let chunk_end = add64 chunk_begin rounded_size in
      do
        if chunk_begin == map_begin
            then pure tt
            else munmap_checked map_begin (sub64 chunk_begin map_begin)
        if chunk_end == map_end then pure tt else munmap_checked chunk_end (sub64 map_end chunk_end)
        pure chunk_begin

  pub aligned_mmap : (id size alignment : ℕ) → Track ℕ
  unfolding mmap trim
  aligned_mmap id size alignment =
      let rounded_size = round_to_page size in
      let padded_size = add64 rounded_size alignment in
      do
        check (bit_and alignment (sub64 alignment 1) == 0)
        if ltb ssize_max size then pure 0 else do
          map ← mmap (mmap_hint id) padded_size anonymous_private
          elim map [
            | none ↦ do
              e ← gets (λ t. k.errno t.os)
              probe (Probe.mmap_failed size alignment padded_size e)
              pure 0
            | some map_begin ↦ trim map_begin padded_size rounded_size alignment
          ]

  pub aligned_munmap : (ptr size alignment : ℕ) → Track (Unit {0})
  aligned_munmap ptr size alignment = do
    check (bit_and ptr (sub64 alignment 1) == 0)
    if ptr == 0 then pure tt else munmap_checked ptr (round_to_page size)

  pub fetch_add_id : Track ℕ
  fetch_add_id = do
    id ← gets (λ t. t.alloc_id_counter)
    modify (λ t. record t { alloc_id_counter = add64 t.alloc_id_counter 1 })
    pure id

  -- The second half of `tracked_alloc_get`: the tables learn of the new mapping.
  pub publish : (alloc id request : ℕ) → Track (ℕ × ℕ)
  unfolding store_id store_size exchange_table
  publish alloc id request =
      let index = alloc / tracking_alignment in
      do
        store_id index id
        store_size index request
        prev ← exchange_table index alloc
        check (prev == 0)
        pure (alloc, id)

  -- The pointer and `*OUT_id`.
  pub tracked_alloc_get : ℕ → Track (ℕ × ℕ)
  unfolding fetch_add_id
  tracked_alloc_get request = do
    id ← fetch_add_id
    alloc ← aligned_mmap id request tracking_alignment
    if alloc == 0 then pure (0, 0) else publish alloc id request

  pub shrink_mapping : (ptr current desired : ℕ) → Track (Unit {0})
  unfolding page_end
  shrink_mapping ptr current desired =
      let end = page_end ptr current in
      let desired_end = page_end ptr desired in
      if end == desired_end then pure tt else munmap_checked desired_end (sub64 end desired_end)

  pub grow_mapping : (ptr current desired : ℕ) → Track Bool
  unfolding page_end
  grow_mapping ptr current desired =
      let end = page_end ptr current in
      let desired_end = page_end ptr desired in
      if end == desired_end then pure true else do
        ret ← mmap end (sub64 desired_end end) private_noreplace
        elim ret [
          | none ↦ pure false
          | some at ↦
              if at == end
              then pure true
              else do munmap_checked at (sub64 desired_end end); pure false
        ]

  pub tracked_alloc_info : ℕ → Track TrackedAllocInfo
  unfolding load_table load_info
  tracked_alloc_info ptr = do
    expected ← load_table (ptr / tracking_alignment)
    check (expected == ptr)
    load_info (ptr / tracking_alignment)

  -- The change of the mapping alone.
  pub resize_mapping : (ptr current desired : ℕ) → Track Bool
  unfolding shrink_mapping grow_mapping
  resize_mapping ptr current desired =
      if ltb desired current
      then shrink_mapping ptr current desired >> pure true
      else grow_mapping ptr current desired

  pub tracked_alloc_resize : (ptr request : ℕ) → Track Bool
  tracked_alloc_resize ptr request = do
    info ← tracked_alloc_info ptr
    if request == info.size then pure true else do
      r ← resize_mapping ptr info.size request
      if r then store_size (ptr / tracking_alignment) request else pure tt
      pure r

  -- The second half of `tracked_alloc_put`: the tables forget `ptr`, then its pages go.
  pub retire : (ptr size : ℕ) → Track (Unit {0})
  unfolding store_id store_size exchange_table
  retire ptr size =
      let index = ptr / tracking_alignment in
      do
        store_id index 0
        store_size index 0
        prev ← exchange_table index 0
        check (prev == ptr)
        aligned_munmap ptr size tracking_alignment

  pub tracked_alloc_put : ℕ → Track (Unit {0})
  unfolding load_table
  tracked_alloc_put ptr = do
    prev ← load_table (ptr / tracking_alignment)
    info ← tracked_alloc_info ptr
    check (prev == ptr)
    check (not (info.id == 0))
    retire ptr info.size
