-- ===== src/Kernel/Main.antt =====
-- `kernel_main` of src/boot/kernel.c: the order of initialisation, and the shell, of which the given
-- number of rounds is run. Messages are left out, those of `tui_init` among them, which returns 0.
use meringue_os.Prelude.{ℕ, ◌*◌, ◌≤◌, ◌<◌, ◌≡◌, true, false, sym, ◌∙◌, arith, Option, List}
use meringue_os.Memory.{IsBytes}
use meringue_os.Frames.{Linker, BootParams, page_size, total_frames, frame_alloc_init}
use meringue_os.Frames.Init.{IsLinked, IsBootable, reserved, frame_alloc_init-IsInitial}
use meringue_os.Frames.Run.{Reach, IsGuarded-IsSafe, Reach-IsGuarded}
use meringue_os.Heap.Boot.{Booted, kheap_init-Booted}
use meringue_os.Heap.{Kheap, mem, kheap_init}
use meringue_os.Stdio.Calls.{Print}
use meringue_os.Shell.Loop.{Layout, Shell, shell_loop}

-- The heap before the shell starts.
unfoldable pub boot_heap : Linker → Option BootParams → Kheap → Kheap
boot_heap L params h = kheap_init L (record h { pmm = frame_alloc_init L params h.pmm })

unfoldable pub kernel_main :
    Linker → Layout → ℕ → ℕ → Option BootParams → Shell → Option (Shell × List Print)
kernel_main L C fuel rounds params s =
    shell_loop L C fuel rounds (record s { heap = boot_heap L params s.heap })

-- After the two initialisers, with a linker layout and, if given, boot parameters within RAM, whatever
-- bytes memory held before, and with five frames left: five pages are taken, and the lowest frame that
-- is not reserved for the kernel or the bitmap is where the heap starts and the only block of its free
-- list, of 4048 bytes; the other four pages are not listed.
pub boot_heap-Booted :
    (L : Linker) (params : Option BootParams) (h : Kheap)
    → IsLinked L
    → IsBootable params
    → IsBytes (mem h)
    → 5 * page_size ≤ (frame_alloc_init L params h.pmm).free_memory
    → (k : ℕ) × (k < total_frames)
      × (reserved L params k ≡ false)
      × ((j : ℕ) → j < k → reserved L params j ≡ true)
      × Booted (frame_alloc_init L params h.pmm) k (boot_heap L params h)
unfolding boot_heap
boot_heap-Booted L params h l ok b enough =
    let s = frame_alloc_init L params h.pmm in
    let initial = frame_alloc_init-IsInitial L l params h.pmm ok b in
    let safe = IsGuarded-IsSafe L params (Reach-IsGuarded L params l (Reach.start initial)) in
    let (k, below, free, lowest, done) =
      kheap_init-Booted L (record h { pmm = s }) initial.sound safe enough in
    (
      k,
      below,
      sym (initial.used k below) ∙ free,
      λ j lt. sym (initial.used j (omega arith)) ∙ lowest j lt,
      done,
    )
