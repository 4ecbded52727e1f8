-- ===== src/TrackedAlloc/Tasks/Advance.antt =====
-- Every operation of a task succeeds, and has no effect on the other tasks.
use poireau.Prelude.{arith, refl}
use poireau.Exec.Returns.{normally}
use poireau.Kernel.{Kernel, KernelLaws}
use poireau.TrackedAlloc.{Tracker}
use poireau.TrackedAlloc.Tasks.{
  Stage, idle, get_start, get_map, get_front, get_back, get_chunk, get_id, get_size, refused, held,
  resize_start, resize_entry, resize_id, resize_size, resize_mapped, put_start, put_prev, put_entry,
  put_id, put_size, put_no_id, put_no_size, put_gone, advance,
}
use poireau.TrackedAlloc.Tasks.Own.{Own, Succeeds, loads}
use poireau.TrackedAlloc.Tasks.Getting.{
  get_start-Succeeds, get_map-Succeeds, get_front-Succeeds, get_back-Succeeds, get_chunk-Succeeds,
  get_id-Succeeds, get_size-Succeeds,
}
use poireau.TrackedAlloc.Tasks.Resizing.{
  resize_start-Succeeds, resize_entry-Succeeds, resize_id-Succeeds, resize_size-Succeeds,
  resize_mapped-Succeeds,
}
use poireau.TrackedAlloc.Tasks.Putting.{
  put_start-Succeeds, put_prev-Succeeds, put_entry-Succeeds, put_id-Succeeds, put_size-Succeeds,
  put_no_id-Succeeds, put_no_size-Succeeds, put_gone-Succeeds,
}

module _ (k : Kernel) (laws : KernelLaws k) where
  -- With what the invariant says of it, the next operation of a task succeeds.
  pub advance-Succeeds : (t : Tracker k) (g : Stage) → Own k t g → Succeeds k t g
  unfolding advance
  advance-Succeeds t idle o = normally (loads k o tt refl refl refl (ground arith))
  advance-Succeeds t refused o = normally (loads k o tt refl refl refl (ground arith))
  advance-Succeeds t (held p id) o = normally (loads k o o.locals refl refl refl (ground arith))
  advance-Succeeds t (get_start request) o = get_start-Succeeds k laws t request o
  advance-Succeeds t (get_map id request) o = get_map-Succeeds k laws t id request o
  advance-Succeeds t (get_front id request b) o = get_front-Succeeds k laws t id request b o
  advance-Succeeds t (get_back id request b) o = get_back-Succeeds k laws t id request b o
  advance-Succeeds t (get_chunk id request p) o = get_chunk-Succeeds k laws t id request p o
  advance-Succeeds t (get_id id request p) o = get_id-Succeeds k laws t id request p o
  advance-Succeeds t (get_size id request p) o = get_size-Succeeds k laws t id request p o
  advance-Succeeds t (resize_start p id request) o = resize_start-Succeeds k t p id request o
  advance-Succeeds t (resize_entry p id request) o = resize_entry-Succeeds k t p id request o
  advance-Succeeds t (resize_id p id request) o = resize_id-Succeeds k t p id request o
  advance-Succeeds t (resize_size p id request size) o =
      resize_size-Succeeds k laws t p id request size o
  advance-Succeeds t (resize_mapped p id request) o = resize_mapped-Succeeds k t p id request o
  advance-Succeeds t (put_start p) o = put_start-Succeeds k t p o
  advance-Succeeds t (put_prev p prev) o = put_prev-Succeeds k t p prev o
  advance-Succeeds t (put_entry p prev) o = put_entry-Succeeds k t p prev o
  advance-Succeeds t (put_id p prev id) o = put_id-Succeeds k t p prev id o
  advance-Succeeds t (put_size p prev id size) o = put_size-Succeeds k t p prev id size o
  advance-Succeeds t (put_no_id p size) o = put_no_id-Succeeds k t p size o
  advance-Succeeds t (put_no_size p size) o = put_no_size-Succeeds k t p size o
  advance-Succeeds t (put_gone p size) o = put_gone-Succeeds k laws t p size o
