-- ===== src/Shell/Range.antt =====
-- `is_address_valid` of src/shell/shell.c: what it accepts.
use meringue_os.Prelude.{ℕ, ◌+◌, ◌≤◌, ◌<◌, ◌≡◌, ◌↔◌, true, arith, word_mod}
use meringue_os.Frames.{Pmm, ram_base, pmm_get_highest_usable_address}
use meringue_os.Shell.{is_address_valid}

-- The `len` bytes from `addr` lie between the start of RAM and the highest usable address.
abbrev pub InRam : Pmm → ℕ → ℕ → Type 0
InRam s addr len =
    (ram_base ≤ addr) × (addr < s.highest_usable_address) × (addr + len ≤ s.highest_usable_address)

-- For a range that ends within the 64-bit address space, and a highest usable address of 64 bits,
-- `is_address_valid` holds exactly if the range lies in usable RAM, from the start of RAM to the
-- highest usable address.
pub is_address_valid-InRam :
    (s : Pmm) (addr len : ℕ)
    → addr + len ≤ word_mod
    → s.highest_usable_address < word_mod
    → (is_address_valid s addr len ≡ true) ↔ InRam s addr len
unfolding is_address_valid pmm_get_highest_usable_address
is_address_valid-InRam s addr len fits top =
    (λ e. (ground arith, ground arith, ground arith), λ r. ground arith)

-- With a highest usable address of 64 bits, a range that starts in usable RAM, has a 64-bit length
-- and wraps around the 64-bit address space to an address above 0 is accepted, wherever its last
-- address is below the highest usable one: the test for overflow stands behind the test that it
-- should come before.
pub is_address_valid_wrap :
    (s : Pmm) (addr len : ℕ)
    → ram_base ≤ addr
    → addr < s.highest_usable_address
    → len < word_mod
    → s.highest_usable_address < word_mod
    → word_mod < addr + len
    → addr + len ≤ word_mod + s.highest_usable_address
    → is_address_valid s addr len ≡ true
unfolding is_address_valid pmm_get_highest_usable_address
is_address_valid_wrap s addr len low high l top wraps ends = ground arith
