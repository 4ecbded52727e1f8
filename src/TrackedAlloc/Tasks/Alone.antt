-- ===== src/TrackedAlloc/Tasks/Alone.antt =====
-- A task that runs alone does what the sequential functions do.
use poireau.Prelude.{ℕ, ◌≡◌, ltb, ◌==◌, if◌then◌else◌, arith, Bool-cases, Option-cases, inl, inr}
use poireau.Exec.{pure, ◌>>=◌, ◌>>◌}
use poireau.Word.{add64}
use poireau.Kernel.{Kernel}
use poireau.TrackedAlloc.{
  Tracker, Track, ssize_max, tracked_alloc_get, tracked_alloc_put, tracked_alloc_resize, store_size,
  aligned_mmap, publish, trim, retire, munmap_checked, probe, mmap, mmap_hint, anonymous_private,
  round_to_page, tracking_alignment, tracked_alloc_info,
}
use poireau.TrackedAlloc.Tasks.{
  Stage, idle, refused, held, get_start, get_front, resize_start, put_start, advance, alone,
}

-- The stage that an answer of `tracked_alloc_get` stands for.
abbrev pub answered : ℕ × ℕ → Stage
answered (ptr, id) = if ptr == 0 then refused else held ptr id

-- A client's call.
pub data Call : Type 0 where
  get : (request : ℕ) → Call
  resize : (ptr id request : ℕ) → Call
  put : (ptr : ℕ) → Call

abbrev pub begin : Call → Stage
begin (get request) = get_start request
begin (resize ptr id request) = resize_start ptr id request
begin (put ptr) = put_start ptr

module _ (k : Kernel) where
  -- The sequential function of a call, and the stage in which it leaves the task.
  abbrev pub sequential : Call → Track k Stage
  sequential (get request) = do r ← tracked_alloc_get k request; pure (answered r)
  sequential (resize ptr id request) = do tracked_alloc_resize k ptr request; pure (held ptr id)
  sequential (put ptr) = do tracked_alloc_put k ptr; pure idle

  alone-put :
      (ptr : ℕ) (t : Tracker k)
      → alone k 8 (put_start ptr) t ≡ (do tracked_alloc_put k ptr; pure idle) t
  unfolding alone advance tracked_alloc_put tracked_alloc_info retire
  alone-put ptr t = ground arith

  alone-resize :
      (ptr id request : ℕ) (t : Tracker k)
      → alone k 8 (resize_start ptr id request) t
        ≡ (do tracked_alloc_resize k ptr request; pure (held ptr id)) t
  unfolding alone advance tracked_alloc_resize tracked_alloc_info store_size
  alone-resize ptr id request t = ground arith

  -- Behind `mmap`: the slop is given back, and the tables learn of the chunk.
  alone_front :
      (id request b : ℕ) (t : Tracker k)
      → let padded = add64 (round_to_page request) tracking_alignment in
        alone k 6 (get_front id request b) t
        ≡ (do
          r ← (do
            alloc ← trim k b padded (round_to_page request) tracking_alignment
            if alloc == 0 then pure (0, 0) else publish k alloc id request)
          pure (answered r))
            t
  unfolding alone advance trim publish munmap_checked
  alone_front id request b t = ground arith

  alone-get :
      (request : ℕ) (t : Tracker k)
      → alone k 8 (get_start request) t ≡ (do r ← tracked_alloc_get k request; pure (answered r)) t
  unfolding alone advance tracked_alloc_get aligned_mmap probe mmap
  alone-get request t = elim (Bool-cases (ltb ssize_max request)) [
    | inl huge ↦ rw huge
    | inr fits ↦
        let len = add64 (round_to_page request) tracking_alignment in
        elim (Option-cases (k.mmap (mmap_hint t.alloc_id_counter) len anonymous_private t.os).0) [
          | inl nothing ↦ rw (fits, nothing)
          | inr (b, got) ↦ rw (fits, got) (alone_front t.alloc_id_counter request b _)
        ]
  ]

  -- A task that runs alone for 8 operations does exactly what the whole function does that was
  -- called, `tracked_alloc_get`, `tracked_alloc_resize` or `tracked_alloc_put`, from every state,
  -- failures included.
  pub alone-sequential : (c : Call) (t : Tracker k) → alone k 8 (begin c) t ≡ sequential c t
  alone-sequential (get request) t = alone-get request t
  alone-sequential (resize ptr id request) t = alone-resize ptr id request t
  alone-sequential (put ptr) t = alone-put ptr t
