-- ===== src/TrackedAlloc/Tasks.antt =====
-- src/tracked_alloc.c under several threads: the life of each allocation is a task, from
-- `tracked_alloc_get` to the end of `tracked_alloc_put`, and the tasks are interleaved one atomic
-- operation or system call at a time. Which thread runs a task does not matter to the code.
pub mod Invariant
pub mod Effect
pub mod Own
pub mod Getting
pub mod Resizing
pub mod Putting
pub mod Advance
pub mod Safety
pub mod Alone
pub mod Examples
use poireau.Prelude.{
  ℕ, zero, suc, ◌+◌, ◌/◌, ◌^◌, ◌<◌, ◌≡◌, bit_and, Bool, true, false, not, none, some, ltb, ◌==◌,
  if◌then◌else◌, update,
}
use poireau.Word.{add64, sub64, neg64}
use poireau.Exec.{Failure, Outcome, done, pure, fail, ◌>>=◌, ◌>>◌, gets, check}
use poireau.Kernel.{Kernel}
use poireau.Probe.{Probe}
use poireau.TrackedAlloc.{
  Tracker, Track, tracking_alignment, ssize_max, round_to_page, mmap_hint, anonymous_private, mmap,
  munmap_checked, probe, load_table, exchange_table, load_info, store_id, store_size,
  aligned_munmap, fetch_add_id, resize_mapping,
}

-- Where a task stands, with the local variables that are live there.
pub data Stage : Type 0 where
  idle : Stage
  -- `tracked_alloc_get` and `aligned_mmap`
  get_start : (request : ℕ) → Stage
  get_map : (id request : ℕ) → Stage
  get_front : (id request map_begin : ℕ) → Stage
  get_back : (id request map_begin : ℕ) → Stage
  get_chunk : (id request alloc : ℕ) → Stage
  get_id : (id request alloc : ℕ) → Stage
  get_size : (id request alloc : ℕ) → Stage
  -- It has returned NULL, or a pointer, which the client holds.
  refused : Stage
  held : (ptr id : ℕ) → Stage
  -- `tracked_alloc_resize` of a pointer whose identifier the client knows
  resize_start : (ptr id request : ℕ) → Stage
  resize_entry : (ptr id request : ℕ) → Stage
  resize_id : (ptr id request : ℕ) → Stage
  resize_size : (ptr id request size : ℕ) → Stage
  resize_mapped : (ptr id request : ℕ) → Stage
  -- `tracked_alloc_put` and `tracked_alloc_info`
  put_start : (ptr : ℕ) → Stage
  put_prev : (ptr prev : ℕ) → Stage
  put_entry : (ptr prev : ℕ) → Stage
  put_id : (ptr prev id : ℕ) → Stage
  put_size : (ptr prev id size : ℕ) → Stage
  put_no_id : (ptr size : ℕ) → Stage
  put_no_size : (ptr size : ℕ) → Stage
  put_gone : (ptr size : ℕ) → Stage

abbrev pub chunk_at : ℕ → ℕ
chunk_at map_begin = bit_and (add64 map_begin tracking_alignment) (neg64 tracking_alignment)

abbrev pub index_of : ℕ → ℕ
index_of ptr = ptr / tracking_alignment

module _ (k : Kernel) where
  -- The next atomic operation or system call of a task, with the local work around it. A task
  -- that waits for its client stays where it is.
  pub advance : Stage → Track k Stage
  unfolding fetch_add_id load_table load_info store_id store_size exchange_table
  advance idle = pure idle
  advance refused = pure refused
  advance (held ptr id) = pure (held ptr id)
  advance (get_start request) = do id ← fetch_add_id k; pure (get_map id request)
  advance (get_map id request) = do
    check (bit_and tracking_alignment (sub64 tracking_alignment 1) == 0)
    if ltb ssize_max request then pure refused else do
      map ←
          mmap k (mmap_hint id) (add64 (round_to_page request) tracking_alignment) anonymous_private
      elim map [
        | none ↦ do
          e ← gets (λ t. k.errno t.os)
          probe k (
              Probe.mmap_failed request tracking_alignment
                (add64 (round_to_page request) tracking_alignment) e)
          pure refused
        | some map_begin ↦ pure (get_front id request map_begin)
      ]
  advance (get_front id request map_begin) = do
    if chunk_at map_begin == map_begin
        then pure tt
        else munmap_checked k map_begin (sub64 (chunk_at map_begin) map_begin)
    pure (get_back id request map_begin)
  advance (get_back id request map_begin) =
      let map_end = add64 map_begin (add64 (round_to_page request) tracking_alignment) in
      let chunk_end = add64 (chunk_at map_begin) (round_to_page request) in
      do
        if chunk_end == map_end
            then pure tt
            else munmap_checked k chunk_end (sub64 map_end chunk_end)
        pure
            (if chunk_at map_begin == 0 then refused else get_chunk id request (chunk_at map_begin))
  advance (get_chunk id request alloc) = do
    store_id k (index_of alloc) id
    pure (get_id id request alloc)
  advance (get_id id request alloc) = do
    store_size k (index_of alloc) request
    pure (get_size id request alloc)
  advance (get_size id request alloc) = do
    prev ← exchange_table k (index_of alloc) alloc
    check (prev == 0)
    pure (held alloc id)
  advance (resize_start ptr id request) = do
    expected ← load_table k (index_of ptr)
    check (expected == ptr)
    pure (resize_entry ptr id request)
  advance (resize_entry ptr id request) = do
    info ← load_info k (index_of ptr)
    pure (resize_id ptr id request)
  advance (resize_id ptr id request) = do
    info ← load_info k (index_of ptr)
    pure (resize_size ptr id request info.size)
  advance (resize_size ptr id request size) = if request == size then pure (held ptr id) else do
    r ← resize_mapping k ptr size request
    pure (if r then resize_mapped ptr id request else held ptr id)
  advance (resize_mapped ptr id request) = do
    store_size k (index_of ptr) request
    pure (held ptr id)
  advance (put_start ptr) = do prev ← load_table k (index_of ptr); pure (put_prev ptr prev)
  advance (put_prev ptr prev) = do
    expected ← load_table k (index_of ptr)
    check (expected == ptr)
    pure (put_entry ptr prev)
  advance (put_entry ptr prev) = do
    info ← load_info k (index_of ptr)
    pure (put_id ptr prev info.id)
  advance (put_id ptr prev id) = do
    info ← load_info k (index_of ptr)
    pure (put_size ptr prev id info.size)
  advance (put_size ptr prev id size) = do
    check (prev == ptr)
    check (not (id == 0))
    store_id k (index_of ptr) 0
    pure (put_no_id ptr size)
  advance (put_no_id ptr size) = do store_size k (index_of ptr) 0; pure (put_no_size ptr size)
  advance (put_no_size ptr size) = do
    prev ← exchange_table k (index_of ptr) 0
    check (prev == ptr)
    pure (put_gone ptr size)
  advance (put_gone ptr size) = do aligned_munmap k ptr size tracking_alignment; pure idle

  -- A task that runs alone for `n` operations.
  pub alone : (n : ℕ) → Stage → Track k Stage
  alone zero g = pure g
  alone (suc n) g = advance g >>= λ g'. alone n g'

  -- The shared state and the tasks.
  pub record System : Type 0 where
    pub shared : Tracker k
    pub stage : ℕ → Stage

  -- The client calls, with what C asks of it: a pointer is resized or given back by the task that
  -- holds it.
  -- The counter does not wrap around.
  pub data Step (s : System) : System → Type 0 where
    call_get :
        (i request : ℕ)
        → s.stage i ≡ idle
        → 0 < request
        → Step s (record s { stage = update s.stage i (get_start request) })
    call_put :
        (i ptr id : ℕ)
        → s.stage i ≡ held ptr id
        → Step s (record s { stage = update s.stage i (put_start ptr) })
    call_resize :
        (i ptr id request : ℕ)
        → s.stage i ≡ held ptr id
        → 0 < request
        → request < 2 ^ 64
        → Step s (record s { stage = update s.stage i (resize_start ptr id request) })
    run :
        (i : ℕ) {g : Stage} {t : Tracker k}
        → s.shared.alloc_id_counter + 1 < 2 ^ 64
        → advance (s.stage i) s.shared ≡ done g t
        → Step s (record { shared = t; stage = update s.stage i g })

  -- Every task is idle, no identifier is given out and the table is empty, as when the library is
  -- loaded.
  pub record IsInitial (s : System) : Type 0 where
    pub stages : (i : ℕ) → s.stage i ≡ idle
    pub counter : s.shared.alloc_id_counter ≡ 1
    pub table : (i : ℕ) → s.shared.tracked_alloc_table i ≡ 0

  pub data Reach (s : System) : System → Type 0 where
    here : Reach s s
    next : {t u : System} → Reach s t → Step t u → Reach s u
