-- ===== src/Kernel/Regions.antt =====
-- A small kernel that meets the laws: a list of mapped regions, handed out upwards. It serves the
-- examples, and shows that the laws can be met together.
use poireau.Prelude.{
  ℕ, ◌+◌, ◌-◌, ◌%◌, ◌^◌, ◌≡◌, refl, Bool, true, false, not, ◌&&◌, ◌||◌, none, some, List, [], ◌∷◌,
  arith, ltb, leb, ◌==◌, if◌then◌else◌, within,
}
use poireau.Kernel.{MmapFlags, Kernel, KernelLaws}

-- `next` is where the next mapping is tried.
pub record Regions : Type 0 where
  pub regions : List (ℕ × ℕ)
  pub contents : ℕ → ℕ
  pub next : ℕ

abbrev covered : List (ℕ × ℕ) → ℕ → Bool
covered [] x = false
covered ((base, len) ∷ rs) x = within base len x || covered rs x

-- No region of the list meets `[base, base + len)`.
abbrev clear_of : ℕ → ℕ → List (ℕ × ℕ) → Bool
clear_of base len [] = true
clear_of base len ((b, l) ∷ rs) = (leb (base + len) b || leb (b + l) base) && clear_of base len rs

-- The parts of each region in front of `[base, base + len)` and behind it.
abbrev without : ℕ → ℕ → List (ℕ × ℕ) → List (ℕ × ℕ)
without base len [] = []
without base len ((b, l) ∷ rs) =
    (b, (if leb (b + l) base then l else base - b))
    ∷ (
      (if leb (base + len) b then b else base + len),
      b + l - (if leb (base + len) b then b else base + len),
    )
    ∷ without base len rs

-- What the two parts of one region cover.
parts_cover :
    (base len b l x : ℕ)
    → (within b (if leb (b + l) base then l else base - b) x
        || within
            (if leb (base + len) b then b else base + len)
            (b + l - (if leb (base + len) b then b else base + len))
            x)
      ≡ (not (within base len x) && within b l x)
parts_cover base len b l x = ground arith

join_covers :
    (p q r r' w i : Bool)
    → (p || q) ≡ (not w && i)
    → r' ≡ (not w && r)
    → (p || (q || r')) ≡ (not w && (i || r))
join_covers p q r r' true i h e = ground arith
join_covers p q r r' false i h e = ground arith

covered-without :
    (base len x : ℕ) (rs : List (ℕ × ℕ))
    → covered (without base len rs) x ≡ (not (within base len x) && covered rs x)
covered-without base len x [] = ground arith
covered-without base len x ((b, l) ∷ rs) =
    join_covers _ _ (covered rs x) _ (within base len x) (within b l x) (parts_cover base len b l x)
      (covered-without base len x rs)

covered-clear_of :
    (base len x : ℕ) (rs : List (ℕ × ℕ))
    → clear_of base len rs ≡ true
    → within base len x ≡ true
    → covered rs x ≡ false
covered-clear_of base len x [] h i = refl
covered-clear_of base len x ((b, l) ∷ rs) h i = ground (arith, covered-clear_of base len x rs)

abbrev grant : (base len : ℕ) → Regions → Regions
grant base len s = record {
  regions = (base, len) ∷ s.regions;
  contents = λ x. if within base len x then 0 else s.contents x;
  next = base + len;
}

-- Whether the next address can be given out for `len` bytes under these flags.
abbrev grants : ℕ → MmapFlags → Regions → Bool
grants len flags s =
    flags.anonymous
    && (s.next % 4096 == 0)
    && ltb 0 s.next
    && leb (s.next + len) (2 ^ 47)
    && clear_of s.next len s.regions

abbrev pub regions_kernel : Kernel
regions_kernel = record {
  State = Regions;
  mapped = λ s x. covered s.regions x;
  byte = λ s x. s.contents x;
  errno = λ s. 12;
  mmap = λ hint len flags s.
      if grants len flags s then (some s.next, grant s.next len s) else (none, s);
  munmap = λ addr len s.
      if len == 0 then (false, s) else (true, record s { regions = without addr len s.regions });
}

pub regions_laws : KernelLaws regions_kernel
regions_laws = record {
  mmap_place = λ hint len flags s a h pos. ground arith;
  mmap_fresh = λ hint len flags s a h pos whole. record {
    free = λ x i. ground (arith, covered-clear_of s.next len x s.regions);
    mapped = λ x. ground arith;
    zero_filled = λ x i. ground arith;
    byte = λ x i. ground (arith, covered-clear_of s.next len x s.regions);
  };
  mmap_failed =
      λ hint len flags s h. record { mapped = λ x. ground arith; byte = λ x. ground arith };
  mmap_no_file = λ hint len flags s h i. ground arith;
  munmap_ok = λ addr len s a b c d. (
    ground arith,
    record {
      mapped = λ x. ground (arith, covered-without addr len x s.regions);
      byte = λ x i. ground arith;
    },
  );
  munmap_empty = λ addr s. refl;
}
