-- ===== src/Heap/Header.antt =====
-- `heap_block_t` of src/memory/kheap.c as it lies in memory: 48 bytes, with `size` at 0, `is_free`
-- at 8, and the pointers `next`, `prev`, `next_free` and `prev_free` at 16, 24, 32 and 40.
use meringue_os.Prelude.{ℕ, ◌+◌, Bool, not, ◌==◌, if◌then◌else◌}
use meringue_os.Memory.{Mem, write}
use meringue_os.Memory.Access.{load, store}

abbrev pub header_size : ℕ
header_size = 48

unfoldable pub size_at : Mem → ℕ → ℕ
size_at m p = load m (p + 0) 8

unfoldable pub is_free_at : Mem → ℕ → Bool
is_free_at m p = not (m (p + 8) == 0)

unfoldable pub next_at : Mem → ℕ → ℕ
next_at m p = load m (p + 16) 8

unfoldable pub prev_at : Mem → ℕ → ℕ
prev_at m p = load m (p + 24) 8

unfoldable pub next_free_at : Mem → ℕ → ℕ
next_free_at m p = load m (p + 32) 8

unfoldable pub prev_free_at : Mem → ℕ → ℕ
prev_free_at m p = load m (p + 40) 8

unfoldable pub set_size : Mem → ℕ → ℕ → Mem
set_size m p v = store m (p + 0) 8 v

unfoldable pub set_is_free : Mem → ℕ → Bool → Mem
set_is_free m p b = write m (p + 8) (if b then 1 else 0)

unfoldable pub set_next : Mem → ℕ → ℕ → Mem
set_next m p v = store m (p + 16) 8 v

unfoldable pub set_prev : Mem → ℕ → ℕ → Mem
set_prev m p v = store m (p + 24) 8 v

unfoldable pub set_next_free : Mem → ℕ → ℕ → Mem
set_next_free m p v = store m (p + 32) 8 v

unfoldable pub set_prev_free : Mem → ℕ → ℕ → Mem
set_prev_free m p v = store m (p + 40) 8 v
