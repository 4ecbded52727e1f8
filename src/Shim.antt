-- ===== src/Shim.antt =====
-- src/shim.c: the interposed `malloc`, `calloc`, `realloc` and `free`, for one thread.
pub mod Names
pub mod Lift
pub mod Init
pub mod Free
pub mod Malloc
pub mod Contents
pub mod Move
pub mod Copy
pub mod Reading
pub mod Prefix
pub mod Realloc
pub mod First
pub mod Release
pub mod Regular
pub mod MoveIn
pub mod ToTracked
pub mod Patching
pub mod Service
pub mod Examples
pub mod ThreadExamples
pub mod CopyExamples
use poireau.Prelude.{
  ℕ, zero, suc, ◌-◌, ◌*◌, ◌%◌, ◌^◌, Bool, true, false, not, ◌||◌, Option, none, some, ◌∷◌, ltb, leb,
  ◌==◌, if◌then◌else◌, min,
}
use poireau.Word.{add64, sub64, two64}
use poireau.Exec.{
  Failure, Outcome, done, failed, Exec, pure, fail, ◌>>=◌, ◌>>◌, gets, modify, check,
}
use poireau.Kernel.{Kernel}
use poireau.Probe.{Probe}
use poireau.Shim.Names.{Wrapped}
use poireau.Sample
use poireau.Sample.{Entropy, Doubles, Sampler, Sampling, sample_request, sample_request_reset}
use poireau.TrackedAlloc.{
  Tracker, Track, tracked_alloc_p, tracked_alloc_info, tracked_alloc_get, tracked_alloc_put,
  tracked_alloc_resize, probe,
}

-- What a `base_` pointer points to: the dummy of this file, the function that was looked
-- up, or nothing if it was not found.
pub data Target : Type 0 where
  dummy real null : Target

-- `done`, the thread's `started`, and the four pointers.
pub record Loader : Type 0 where
  pub is_done : Bool
  pub is_started : Bool
  pub base_free : Target
  pub base_realloc : Target
  pub base_malloc : Target
  pub base_calloc : Target

pub record Process (k : Kernel) (e : Entropy) : Type 0 where
  pub tracker : Tracker k
  pub sampler : Sampler e
  pub loader : Loader

-- The functions behind the shim: `dlsym(RTLD_NEXT, …)`, which may enter the shim again and says
-- whether it found the function; the allocator that `dlsym(RTLD_NEXT, …)` finds, and the two ways
-- to copy memory. NULL is 0, and a failed `process_vm_readv` is `none`.
pub record Host (k : Kernel) : Type 1 where
  pub dlsym : (e : Entropy) → Wrapped → Process k e → Bool × Process k e
  pub free : ℕ → k.State → k.State
  pub realloc : (ptr request : ℕ) → k.State → ℕ × k.State
  pub malloc : ℕ → k.State → ℕ × k.State
  pub calloc : (num size : ℕ) → k.State → ℕ × k.State
  pub malloc_usable_size : ℕ → k.State → ℕ
  pub memcpy : (dst src n : ℕ) → k.State → k.State
  pub process_vm_readv : (dst src n : ℕ) → k.State → Option ℕ × k.State

module _ (k : Kernel) where
  -- The allocator's part of a sampled `free`: the tracepoint comes before the release.
  pub traced_put : ℕ → Track k (Unit {0})
  unfolding probe
  traced_put ptr = do
    info ← tracked_alloc_info k ptr
    probe k (Probe.free info.id ptr info.size)
    tracked_alloc_put k ptr

  -- The allocator's part of a sampled `malloc` or `calloc`: the tracepoint comes after the
  -- allocation, and has its identifier and its address.
  pub traced_get : (tracepoint : (id ret : ℕ) → Probe) → ℕ → Track k ℕ
  unfolding probe
  traced_get tracepoint request = do
    (ret, id) ← tracked_alloc_get k request
    probe k (tracepoint id ret)
    pure ret

-- The parameters are the collaborators, and the rounds that the sampler's loops may take.
module _ (k : Kernel) (e : Entropy) (d : Doubles) (h : Host k) (rounds : ℕ) where
  abbrev pub Run : Type 0 → Type 0
  Run A = Exec (Process k e) A

  -- Runs of the two other components.
  abbrev pub with_tracker :
      {A : Type 0} → Process k e → Outcome (Tracker k) A → Outcome (Process k e) A
  with_tracker p (done a t) = done a (record p { tracker = t })
  with_tracker p (failed x) = failed x

  abbrev pub tracking : {A : Type 0} → Track k A → Run A
  tracking m p = with_tracker p (m p.tracker)

  abbrev pub with_sampler :
      {A : Type 0} → Process k e → Outcome (Sampler e) A → Outcome (Process k e) A
  with_sampler p (done a s) = done a (record p { sampler = s })
  with_sampler p (failed x) = failed x

  abbrev pub sampling : {A : Type 0} → Sampling e A → Run A
  sampling m p = with_sampler p (m p.sampler)

  -- A call that changes the memory alone.
  abbrev pub calling : {A : Type 0} → (k.State → A × k.State) → Run A
  calling f p =
      let r = f p.tracker.os in done r.0 (record p { tracker = record p.tracker { os = r.1 } })

  abbrev pub changing : (k.State → k.State) → Run (Unit {0})
  changing f = calling (λ s. (tt, f s))

  -- `LOOKUP`: the call of `dlsym`, and then the store.
  pub look_up : Wrapped → (Target → Loader → Loader) → Run (Unit {0})
  look_up f store p =
      let r = h.dlsym e f p in
      let found = if r.0 then Target.real else Target.null in
      done tt (record r.1 { loader = store found r.1.loader })

  -- The pointers are patched in the order of `FOREACH_WRAPPED`, once.
  pub init_shim : Run Bool
  unfolding look_up
  init_shim = do
    l ← gets (λ p. p.loader)
    if l.is_done || l.is_started then pure l.is_done else do
      modify (λ p. record p { loader = record p.loader { is_started = true } })
      look_up Wrapped.free (λ f l. record l { base_free = f })
      look_up Wrapped.realloc (λ f l. record l { base_realloc = f })
      look_up Wrapped.malloc (λ f l. record l { base_malloc = f })
      look_up Wrapped.calloc (λ f l. record l { base_calloc = f })
      modify (λ p. record p { loader = record p.loader { is_done = true } })
      pure true

  -- A call through a `base_` pointer. The dummy tries to patch the pointers, and calls the entry
  -- point `again` on success.
  pub through : {A : Type 0} → (Loader → Target) → (nothing : A) → (again real_one : Run A) → Run A
  unfolding init_shim
  through pointer nothing again real_one = do
    target ← gets (λ p. pointer p.loader)
    elim target [
      | real ↦ real_one
      | dummy ↦ do ok ← init_shim; if ok then again else pure nothing
      | null ↦ fail Failure.null_call
    ]

  pub base_free : (again : ℕ → Run (Unit {0})) → ℕ → Run (Unit {0})
  unfolding through
  base_free again ptr = through (λ l. l.base_free) tt (again ptr) (changing (h.free ptr))

  pub base_realloc : (again : ℕ → ℕ → Run ℕ) → (ptr request : ℕ) → Run ℕ
  unfolding through
  base_realloc again ptr request =
      through (λ l. l.base_realloc) 0 (again ptr request) (calling (h.realloc ptr request))

  pub base_malloc : (again : ℕ → Run ℕ) → ℕ → Run ℕ
  unfolding through
  base_malloc again request =
      through (λ l. l.base_malloc) 0 (again request) (calling (h.malloc request))

  pub base_calloc : (again : ℕ → ℕ → Run ℕ) → (num size : ℕ) → Run ℕ
  unfolding through
  base_calloc again num size =
      through (λ l. l.base_calloc) 0 (again num size) (calling (h.calloc num size))

  pub sampled_free : ℕ → Run (Unit {0})
  sampled_free ptr = tracking (traced_put k ptr)

  -- Each entry point takes fuel, one unit for each time that it is entered again.
  pub free : (fuel : ℕ) → ℕ → Run (Unit {0})
  free zero ptr = fail Failure.out_of_fuel
  free (suc fuel) ptr =
      let again = free fuel in
      do
        tracked ← tracking (tracked_alloc_p k ptr)
        if tracked then sampled_free ptr else base_free again ptr

  pub sampled_malloc : (again : ℕ → Run ℕ) → ℕ → Run ℕ
  sampled_malloc again request = do
    reset ← sampling (sample_request_reset e d rounds)
    if reset
        then again request
        else tracking (traced_get k (λ id ret. Probe.malloc id ret request) request)

  pub malloc : (fuel : ℕ) → ℕ → Run ℕ
  malloc zero request = fail Failure.out_of_fuel
  malloc (suc fuel) request =
      let again = malloc fuel in
      do
        sampled ← sampling (sample_request e request)
        if sampled then sampled_malloc again request else base_malloc again request

  -- `__builtin_umull_overflow`
  abbrev pub overflows : ℕ → ℕ → Bool
  overflows num size = leb two64 (num * size)

  pub sampled_calloc : (again : ℕ → ℕ → Run ℕ) → (num size : ℕ) → Run ℕ
  sampled_calloc again num size = do
    reset ← sampling (sample_request_reset e d rounds)
    if reset
        then again num size
        else if overflows num size
        then tracking (do probe k (Probe.calloc_overflow num size); pure 0)
        else let req = num * size % two64 in
          tracking (traced_get k (λ id ret. Probe.calloc num size id ret req) req)

  pub calloc : (fuel : ℕ) → (num size : ℕ) → Run ℕ
  calloc zero num size = fail Failure.out_of_fuel
  calloc (suc fuel) num size =
      let again = calloc fuel in
      let req = num * size % two64 in
      do
        sampled ← (if overflows num size then pure true else sampling (sample_request e req))
        if sampled then sampled_calloc again num size else base_calloc again 1 req

  pub safe_copy_one_chunk : (dst src request : ℕ) → Run (Option ℕ)
  safe_copy_one_chunk dst src request = calling (h.process_vm_readv dst src request)

  -- `(size_t)r == n`
  abbrev pub copied_all : Option ℕ → ℕ → Bool
  copied_all none n = two64 - 1 == n
  copied_all (some r) n = r == n

  -- The loop over whole pages of the source.
  pub copy_pages : (fuel copied dst src request : ℕ) → Run (Unit {0})
  unfolding safe_copy_one_chunk
  copy_pages zero copied dst src request = fail Failure.out_of_fuel
  copy_pages (suc fuel) copied dst src request =
      let copy_size = min (request - copied) 4096 in
      let rest = copy_pages fuel (add64 copied copy_size) dst src request in
      if ltb copied request
      then (do
        check (add64 src copied % 4096 == 0)
        r ← safe_copy_one_chunk (add64 dst copied) (add64 src copied) copy_size
        if copied_all r copy_size then rest else pure tt)
      else pure tt

  -- What `safe_copy` does after the first attempt: to the end of the source's page, then by pages.
  pub copy_rest : (fuel dst src request : ℕ) → Run (Unit {0})
  unfolding copy_pages
  copy_rest fuel dst src request =
      let max_initial_copy = 4096 - src % 4096 in
      do
        r ← safe_copy_one_chunk dst src max_initial_copy
        if copied_all r max_initial_copy
            then (do
              check (add64 src max_initial_copy % 4096 == 0)
              copy_pages fuel max_initial_copy dst src request)
            else pure tt

  pub safe_copy : (fuel dst src request : ℕ) → Run (Unit {0})
  unfolding copy_rest
  safe_copy fuel dst src request = do
    r ← safe_copy_one_chunk dst src request
    if copied_all r request then pure tt else elim r [
      | none ↦ copy_rest fuel dst src request
      | some n ↦ copy_rest fuel (add64 dst n) (add64 src n) (sub64 request n)
    ]

  pub sampled_realloc_from_tracked : (ptr request : ℕ) → Run ℕ
  sampled_realloc_from_tracked ptr request = do
    info ← tracking (tracked_alloc_info k ptr)
    resized ← tracking (tracked_alloc_resize k ptr request)
    (ret, new_id) ←
        (if resized then pure (ptr, info.id) else tracking (tracked_alloc_get k request))
    tracking (probe k (Probe.realloc_from_tracked info.id ptr info.size new_id ret request))
    if (ret == 0) || (ret == ptr) then pure ret else do
      changing (h.memcpy ret ptr (if ltb info.size request then info.size else request))
      tracking (tracked_alloc_put k ptr)
      pure ret

  pub sampled_realloc_to_regular : (mallocs : ℕ → Run ℕ) → (ptr request : ℕ) → Run ℕ
  sampled_realloc_to_regular mallocs ptr request = do
    info ← tracking (tracked_alloc_info k ptr)
    ret ← mallocs request
    tracking (probe k (Probe.realloc_to_regular info.id ptr info.size ret request))
    if ret == 0 then pure ret else do
      changing (h.memcpy ret ptr (if ltb info.size request then info.size else request))
      tracking (tracked_alloc_put k ptr)
      pure ret

  -- A regular allocation that becomes a tracked one.
  pub move_to_tracked : (frees : ℕ → Run (Unit {0})) → (ptr request : ℕ) → Run ℕ
  unfolding safe_copy
  move_to_tracked frees ptr request = do
    old_size ← gets (λ p. h.malloc_usable_size ptr p.tracker.os)
    (ret, id) ← tracking (tracked_alloc_get k request)
    tracking (probe k (Probe.realloc ptr old_size id ret request))
    if ret == 0
        then pure 0
        else do safe_copy (suc request) ret ptr request; base_free frees ptr; pure ret

  pub sampled_realloc :
      (again : ℕ → ℕ → Run ℕ) (mallocs : ℕ → Run ℕ) (frees : ℕ → Run (Unit {0})) (ptr request : ℕ)
      → Run ℕ
  unfolding sampled_malloc sampled_realloc_from_tracked move_to_tracked
  sampled_realloc again mallocs frees ptr request = do
    reset ← sampling (sample_request_reset e d rounds)
    if reset then again ptr request else if ptr == 0 then sampled_malloc mallocs request else do
      tracked ← tracking (tracked_alloc_p k ptr)
      if tracked
          then sampled_realloc_from_tracked ptr request
          else move_to_tracked frees ptr request

  pub realloc : (fuel : ℕ) → (ptr request : ℕ) → Run ℕ
  realloc zero ptr request = fail Failure.out_of_fuel
  realloc (suc fuel) ptr request =
      let again = realloc fuel in
      let mallocs = malloc (suc fuel) in
      do
        sampled ← sampling (sample_request e request)
        if sampled then sampled_realloc again mallocs (free (suc fuel)) ptr request else do
          tracked ← tracking (tracked_alloc_p k ptr)
          if tracked
              then sampled_realloc_to_regular mallocs ptr request
              else base_realloc again ptr request
