-- ===== src/Frames/Run.antt =====
-- Sequences of calls of src/memory/frame_alloc.c after its initialisation: the kernel image and the
-- bitmap are never handed out.
use meringue_os.Prelude.{
  ℕ, ◌<◌, ◌≡◌, ◌⊎◌, ap, true, false, arith, ◌==◌, Bool-cases, inl, inr, ◌∙◌, Option,
}
use meringue_os.Frames.{Linker, BootParams, Pmm, alloc_frame, free_frame, frame_addr, total_frames}
use meringue_os.Frames.Marking.{is_used, IsCounted}
use meringue_os.Frames.Range.{overlaps}
use meringue_os.Frames.Init.{bitmap_bytes, IsLinked, IsInitial, reserved, kernel_first, kernel_size}
use meringue_os.Frames.Alloc.{IsSafe, alloc_frame_cases, alloc_frame_sound}
use meringue_os.Frames.Free.{free_frame_cases}

module _ (L : Linker) (params : Option BootParams) where
  -- The states that calls reach. Callers may pass any address to `free_frame` but that of a frame
  -- in which the kernel or the bitmap lies.
  pub data Reach : Pmm → Type 0 where
    start : {s : Pmm} → IsInitial L params s → Reach s
    alloc : {s : Pmm} → Reach s → Reach (alloc_frame L s).0
    free :
        {s : Pmm} (addr : ℕ)
        → Reach s
        → ((i : ℕ) → addr ≡ frame_addr i → reserved L params i ≡ false)
        → Reach (free_frame L addr s)

  -- The reserved frames are used.
  pub record IsGuarded (s : Pmm) : Type 0 where
    pub sound : IsCounted L s
    pub guarded : (i : ℕ) → i < total_frames → reserved L params i ≡ true → is_used L s i ≡ true

  pub IsGuarded-IsSafe : {s : Pmm} → IsGuarded s → IsSafe L s
  IsGuarded-IsSafe g i p unused = elim (Bool-cases (overlaps L.bitmap_start bitmap_bytes i)) [
    | inl over ↦ ground (arith, g.guarded i p)
    | inr apart ↦ apart
  ]

  alloc-IsGuarded : {s : Pmm} → IsGuarded s → IsGuarded (alloc_frame L s).0
  alloc-IsGuarded {s} g = record {
    sound = (alloc_frame_sound L s g.sound (IsGuarded-IsSafe g)).0;
    guarded = λ i p r. elim (alloc_frame_cases L s g.sound (IsGuarded-IsSafe g)) [
      | inl (k, q, f, below, e, t) ↦ ground (arith, t.used i p, g.guarded i p)
      | inr (all, e) ↦ rw e (g.guarded i p r)
    ];
  }

  free-IsGuarded :
      {s : Pmm} (addr : ℕ)
      → IsGuarded s
      → ((i : ℕ) → addr ≡ frame_addr i → reserved L params i ≡ false)
      → IsGuarded (free_frame L addr s)
  free-IsGuarded {s} addr g ok = elim (free_frame_cases L s addr g.sound) [
    | inl (k, q, at, used, given, sound) ↦ record {
      sound = sound;
      guarded = λ i p r.
          let off : (k == i) ≡ false = differ k i (ok k at) r in
          ground (arith, given.used i, g.guarded i p);
    }
    | inr (unused, e) ↦ rw e g
  ]
    where
      differ :
          (k i : ℕ) → reserved L params k ≡ false → reserved L params i ≡ true → (k == i) ≡ false
      differ k i a b = elim (Bool-cases (k == i)) [
        | inl e ↦
            let e' : k ≡ i = ground arith in let c : reserved L params i ≡ false = rw e' at a in cc
        | inr e ↦ e
      ]

  pub Reach-IsGuarded : {s : Pmm} → IsLinked L → Reach s → IsGuarded s
  Reach-IsGuarded l (start z) = record { sound = z.sound; guarded = λ i p r. z.used i p ∙ r }
  Reach-IsGuarded l (alloc r) = alloc-IsGuarded (Reach-IsGuarded l r)
  Reach-IsGuarded l (free addr r ok) = free-IsGuarded addr (Reach-IsGuarded l r) ok

  -- With a linker layout in RAM, in every state that calls of `alloc_frame` and `free_frame` reach
  -- from an initialised one, where no frame of the kernel or the bitmap is passed to `free_frame`:
  -- `alloc_frame` returns NULL, or the address of a managed frame that was free and in which neither
  -- a byte of the kernel image nor one of the bitmap lies.
  pub alloc_frame-reserved :
      {s : Pmm}
      → IsLinked L
      → Reach s
      → ((alloc_frame L s).1 ≡ 0)
        ⊎ ((k : ℕ) × (k < total_frames)
            × ((alloc_frame L s).1 ≡ frame_addr k)
            × (is_used L s k ≡ false)
            × (overlaps (kernel_first L params) (kernel_size L params) k ≡ false)
            × (overlaps L.bitmap_start bitmap_bytes k ≡ false))
  alloc_frame-reserved {s} l r =
      let g = Reach-IsGuarded l r in
      elim (alloc_frame_cases L s g.sound (IsGuarded-IsSafe g)) [
        | inr (all, e) ↦ inl (ap (λ x. x.1) e)
        | inl (k, p, unused, below, e, t) ↦
            let not_reserved : reserved L params k ≡ false = ground (arith, g.guarded k p) in
            inr (k, p, e, unused, ground arith, ground arith)
      ]
