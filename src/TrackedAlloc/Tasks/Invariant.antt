-- ===== src/TrackedAlloc/Tasks/Invariant.antt =====
-- What every task owns, and the invariant of all tasks together.
use poireau.Prelude.{
  ℕ, ◌+◌, ◌-◌, ◌*◌, ◌%◌, ◌^◌, ◌≤◌, ◌<◌, ◌≡◌, ◌≢◌, Bool, true, within, arith, refl,
}
use poireau.Kernel.{Kernel}
use poireau.TrackedAlloc.{Tracker, ssize_max}
use poireau.TrackedAlloc.Pages.{pages}
use poireau.TrackedAlloc.Invariant.{slot}
use poireau.TrackedAlloc.Tasks.{
  Stage, idle, get_start, get_map, get_front, get_back, get_chunk, get_id, get_size, refused, held,
  resize_start, resize_entry, resize_id, resize_size, resize_mapped, put_start, put_prev, put_entry,
  put_id, put_size, put_no_id, put_no_size, put_gone,
}

-- The first multiple of 1 GB after `b`.
abbrev pub next_gigabyte : ℕ → ℕ
next_gigabyte b = b + (2 ^ 30 - b % 2 ^ 30)

-- The chunk whose entries the task reads and writes; 0 if there is none.
abbrev pub anchor : Stage → ℕ
anchor (get_chunk id request p) = p
anchor (get_id id request p) = p
anchor (get_size id request p) = p
anchor (held p id) = p
anchor (resize_start p id request) = p
anchor (resize_entry p id request) = p
anchor (resize_id p id request) = p
anchor (resize_size p id request size) = p
anchor (resize_mapped p id request) = p
anchor (put_start p) = p
anchor (put_prev p prev) = p
anchor (put_entry p prev) = p
anchor (put_id p prev id) = p
anchor (put_size p prev id size) = p
anchor (put_no_id p size) = p
anchor (put_no_size p size) = p
anchor (put_gone p size) = p
anchor _ = 0

-- The entry that the task has in the table; 0 if there is none.
abbrev pub entry_of : Stage → ℕ
entry_of (held p id) = p
entry_of (resize_start p id request) = p
entry_of (resize_entry p id request) = p
entry_of (resize_id p id request) = p
entry_of (resize_size p id request size) = p
entry_of (resize_mapped p id request) = p
entry_of (put_start p) = p
entry_of (put_prev p prev) = p
entry_of (put_entry p prev) = p
entry_of (put_id p prev id) = p
entry_of (put_size p prev id size) = p
entry_of (put_no_id p size) = p
entry_of (put_no_size p size) = p
entry_of _ = 0

abbrev pub base : Stage → ℕ
base (get_front id request b) = b
base (get_back id request b) = next_gigabyte b
base g = anchor g

-- The identifier that the task has been given; 0 if there is none, or if it is giving it back.
abbrev pub id_of : Stage → ℕ
id_of (get_map id request) = id
id_of (get_front id request b) = id
id_of (get_back id request b) = id
id_of (get_chunk id request p) = id
id_of (get_id id request p) = id
id_of (get_size id request p) = id
id_of (held p id) = id
id_of (resize_start p id request) = id
id_of (resize_entry p id request) = id
id_of (resize_id p id request) = id
id_of (resize_size p id request size) = id
id_of (resize_mapped p id request) = id
id_of _ = 0

-- The number of operations, at most, until the call returns.
abbrev pub left : Stage → ℕ
left (get_start request) = 7
left (get_map id request) = 6
left (get_front id request b) = 5
left (get_back id request b) = 4
left (get_chunk id request p) = 3
left (get_id id request p) = 2
left (get_size id request p) = 1
left (resize_start p id request) = 5
left (resize_entry p id request) = 4
left (resize_id p id request) = 3
left (resize_size p id request size) = 2
left (resize_mapped p id request) = 1
left (put_start p) = 8
left (put_prev p prev) = 7
left (put_entry p prev) = 6
left (put_id p prev id) = 5
left (put_size p prev id size) = 4
left (put_no_id p size) = 3
left (put_no_size p size) = 2
left (put_gone p size) = 1
left _ = 0

-- An entry is the task's own chunk.
pub entry-anchor : (g : Stage) → 0 < entry_of g → anchor g ≡ entry_of g
entry-anchor _ h = ground arith

abbrev pub HasEntry : Stage → ℕ → Type 0
HasEntry g n = (0 < entry_of g) × (entry_of g ≡ n * 2 ^ 30)

module _ (k : Kernel) where
  abbrev pub size_at : Tracker k → ℕ → ℕ
  size_at t p = (t.info_table (slot p)).size

  abbrev pub id_at : Tracker k → ℕ → ℕ
  id_at t p = (t.info_table (slot p)).id

  -- The bytes that a task owns are `[base, base + len)`.
  abbrev pub len : Tracker k → Stage → ℕ
  len t (get_front id request b) = pages request + 2 ^ 30
  len t (get_back id request b) = pages request + b % 2 ^ 30
  len t (get_chunk id request p) = pages request
  len t (get_id id request p) = pages request
  len t (get_size id request p) = pages request
  len t (held p id) = pages (size_at t p)
  len t (resize_start p id request) = pages (size_at t p)
  len t (resize_entry p id request) = pages (size_at t p)
  len t (resize_id p id request) = pages (size_at t p)
  len t (resize_size p id request size) = pages (size_at t p)
  len t (resize_mapped p id request) = pages request
  len t (put_start p) = pages (size_at t p)
  len t (put_prev p prev) = pages (size_at t p)
  len t (put_entry p prev) = pages (size_at t p)
  len t (put_id p prev id) = pages (size_at t p)
  len t (put_size p prev id size) = pages size
  len t (put_no_id p size) = pages size
  len t (put_no_size p size) = pages size
  len t (put_gone p size) = pages size
  len t _ = 0

  abbrev pub owns : Tracker k → Stage → ℕ → Bool
  owns t g x = within (base g) (len t g) x

  -- A padded mapping, and a chunk of it.
  abbrev pub IsPadded : (request b : ℕ) → Type 0
  IsPadded request b =
      (request ≤ ssize_max) × (b % 4096 ≡ 0) × (0 < b) × (b + (pages request + 2 ^ 30) ≤ 2 ^ 47)

  abbrev pub IsPlace : (size p : ℕ) → Type 0
  IsPlace size p = (p % 2 ^ 30 ≡ 0) × (0 < p) × (0 < size) × (p + pages size ≤ 2 ^ 47)

  -- An allocation that is in both tables.
  abbrev pub IsListed : Tracker k → ℕ → Type 0
  IsListed t p = IsPlace (size_at t p) p × (0 < id_at t p) × (t.tracked_alloc_table (slot p) ≡ p)

  -- What the local variables of a task mean.
  abbrev pub Local : Tracker k → Stage → Type 0
  Local t idle = Unit {0}
  Local t refused = Unit {0}
  Local t (get_start request) = 0 < request
  Local t (get_map id request) = (0 < request) × (0 < id)
  Local t (get_front id request b) = (0 < request) × (0 < id) × IsPadded request b
  Local t (get_back id request b) = (0 < request) × (0 < id) × IsPadded request b
  Local t (get_chunk id request p) = (0 < id) × IsPlace request p
  Local t (get_id id request p) = (0 < id) × IsPlace request p × (id_at t p ≡ id)
  Local t (get_size id request p) =
      (0 < id) × IsPlace request p × (id_at t p ≡ id) × (size_at t p ≡ request)
  Local t (held p id) = IsListed t p × (id_at t p ≡ id)
  Local t (resize_start p id request) =
      IsListed t p × (id_at t p ≡ id) × (0 < request) × (request < 2 ^ 64)
  Local t (resize_entry p id request) =
      IsListed t p × (id_at t p ≡ id) × (0 < request) × (request < 2 ^ 64)
  Local t (resize_id p id request) =
      IsListed t p × (id_at t p ≡ id) × (0 < request) × (request < 2 ^ 64)
  Local t (resize_size p id request size) =
      IsListed t p × (id_at t p ≡ id) × (0 < request) × (request < 2 ^ 64) × (size ≡ size_at t p)
  Local t (resize_mapped p id request) =
      IsPlace request p × (0 < id) × (id_at t p ≡ id) × (t.tracked_alloc_table (slot p) ≡ p)
  Local t (put_start p) = IsListed t p
  Local t (put_prev p prev) = IsListed t p × (prev ≡ p)
  Local t (put_entry p prev) = IsListed t p × (prev ≡ p)
  Local t (put_id p prev id) = IsListed t p × (prev ≡ p) × (0 < id)
  Local t (put_size p prev id size) =
      IsPlace size p × (prev ≡ p) × (0 < id) × (t.tracked_alloc_table (slot p) ≡ p)
  Local t (put_no_id p size) = IsPlace size p × (t.tracked_alloc_table (slot p) ≡ p)
  Local t (put_no_size p size) = IsPlace size p × (t.tracked_alloc_table (slot p) ≡ p)
  Local t (put_gone p size) = IsPlace size p

  -- No byte is owned twice, all that is owned is mapped, every entry of the table is some task's,
  -- and no identifier is given out twice.
  pub record Inv (t : Tracker k) (stage : ℕ → Stage) : Type 0 where
    pub counter_pos : 0 < t.alloc_id_counter
    pub locals : (j : ℕ) → Local t (stage j)
    pub mapped : (j x : ℕ) → owns t (stage j) x ≡ true → k.mapped t.os x ≡ true
    pub apart : (i j x : ℕ) → owns t (stage i) x ≡ true → owns t (stage j) x ≡ true → i ≡ j
    pub issued : (j : ℕ) → id_of (stage j) < t.alloc_id_counter
    pub distinct : (i j : ℕ) → 0 < id_of (stage i) → id_of (stage i) ≡ id_of (stage j) → i ≡ j
    pub covered : (n : ℕ) → t.tracked_alloc_table n ≢ 0 → (j : ℕ) × HasEntry (stage j) n

  -- Both tables agree at slot `n`.
  pub record SameAt (n : ℕ) (t t' : Tracker k) : Type 0 where
    pub table : t'.tracked_alloc_table n ≡ t.tracked_alloc_table n
    pub info : t'.info_table n ≡ t.info_table n

  -- What a task says of the tables, it says of the slot of its chunk.
  pub Local-frame :
      (g : Stage) (t t' : Tracker k)
      → (0 < anchor g → SameAt (slot (anchor g)) t t')
      → Local t g
      → Local t' g × (len t' g ≡ len t g)
  Local-frame (get_id id request p) t t' same l = ground (arith, same l.1.1)
  Local-frame (get_size id request p) t t' same l = ground (arith, same l.1.1)
  Local-frame (held p id) t t' same l = ground (arith, same l.0.0.1)
  Local-frame (resize_start p id request) t t' same l = ground (arith, same l.0.0.1)
  Local-frame (resize_entry p id request) t t' same l = ground (arith, same l.0.0.1)
  Local-frame (resize_id p id request) t t' same l = ground (arith, same l.0.0.1)
  Local-frame (resize_size p id request size) t t' same l = ground (arith, same l.0.0.1)
  Local-frame (resize_mapped p id request) t t' same l = ground (arith, same l.0.1)
  Local-frame (put_start p) t t' same l = ground (arith, same l.0.1)
  Local-frame (put_prev p prev) t t' same l = ground (arith, same l.0.0.1)
  Local-frame (put_entry p prev) t t' same l = ground (arith, same l.0.0.1)
  Local-frame (put_id p prev id) t t' same l = ground (arith, same l.0.0.1)
  Local-frame (put_size p prev id size) t t' same l = ground (arith, same l.0.1)
  Local-frame (put_no_id p size) t t' same l = ground (arith, same l.0.1)
  Local-frame (put_no_size p size) t t' same l = ground (arith, same l.0.1)
  Local-frame idle t t' same l = (l, refl)
  Local-frame refused t t' same l = (l, refl)
  Local-frame (get_start request) t t' same l = (l, refl)
  Local-frame (get_map id request) t t' same l = (l, refl)
  Local-frame (get_front id request b) t t' same l = (l, refl)
  Local-frame (get_back id request b) t t' same l = (l, refl)
  Local-frame (get_chunk id request p) t t' same l = (l, refl)
  Local-frame (put_gone p size) t t' same l = (l, refl)

  -- A chunk starts at a multiple of 1 GB, and its first byte is owned.
  pub anchor_owned :
      (g : Stage) (t : Tracker k)
      → Local t g
      → 0 < anchor g
      → (anchor g % 2 ^ 30 ≡ 0) × (owns t g (anchor g) ≡ true)
  anchor_owned _ t l h = ground arith
