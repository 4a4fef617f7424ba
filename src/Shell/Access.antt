-- ===== src/Shell/Access.antt =====
-- `peek` and `poke` of src/shell/shell.c: what they read, write and send.
use mathlib.Core.List.{append-nil}
use meringue_os.Prelude.{
  ℕ, ◌+◌, ◌%◌, ◌^◌, ◌≤◌, ◌<◌, ◌≡◌, ◌⊎◌, refl, ap, ◌∙◌, true, false, ◌&&◌, not, some, String, codes,
  length, arith, ltb, ◌==◌, if◌then◌else◌, List, [], ◌∷◌, ◌++◌, word_mod, Bool-cases, inl, inr,
}
use meringue_os.Memory.{Mem, within}
use meringue_os.Memory.Access.{load, load-store_self, store_outside}
use meringue_os.Frames.{ram_base, pmm_get_highest_usable_address}
use meringue_os.Heap.{Kheap, mem}
use meringue_os.Stdio.{until_nul}
use meringue_os.Strings.Walks.{IsString}
use meringue_os.Stdio.Pieces.{spellings, texts}
use meringue_os.Stdio.Calls.{
  print, sent, all_sent, Placed, unread, are_plain, raw_sent, hex_text, hex_sent, all_sent-append,
  two_sent,
}
use meringue_os.Shell.{bytes, is_address_valid, alignment, value_format, peek, poke}
use meringue_os.Shell.Range.{is_address_valid-InRam}

-- `poke` keeps the bounds that an access is checked against.
poke_valid :
    (h : Kheap) (addr value n a k : ℕ)
    → is_address_valid (poke addr value (bytes n) h).0.pmm a k ≡ is_address_valid h.pmm a k
unfolding poke is_address_valid pmm_get_highest_usable_address
poke_valid h addr value n a k = elim (Bool-cases (is_address_valid h.pmm addr n)) [
  | inl y ↦ rw y refl
  | inr x ↦ rw x refl
]

-- What `peek` sends: the warning, if the address is not aligned, and the line, in which the formats of
-- the size and of the value stand as they are.
abbrev warning_text : ℕ → ℕ → List ℕ
warning_text addr n =
    if ltb 1 n && not (addr % n == 0)
    then hex_text "Warning: Address 0x" addr " is not aligned for size %zu.\n"
    else []

abbrev pub peek_text : ℕ → ℕ → List ℕ
peek_text addr n =
    warning_text addr n ++ (hex_text "Peek at 0x" addr " (size %zu): " ++ codes (value_format n))

abbrev pub peek_formats : ℕ → List String
peek_formats n =
    "Warning: Address 0x%llx is not aligned for size %zu.\n"
    ∷ "Peek at 0x%llx (size %zu): "
    ∷ value_format n
    ∷ []

module _ (fuel : ℕ) (m : Mem) (at : String → ℕ) (enough : 60 < fuel) where
  value_sent :
      (n v : ℕ)
      → IsString m (at (value_format n)) (codes (value_format n))
      → sent fuel m at (print (value_format n) (v ∷ [])) ≡ some (codes (value_format n))
  value_sent n v s = elim (Bool-cases (n == 1)) [
    | inl one ↦ rw one (fixed "0x%02llx\n" (rw one at s) refl refl refl (omega arith))
    | inr other ↦ elim (Bool-cases (n == 2)) [
      | inl two ↦
          rw (other, two) (fixed "0x%04llx\n" (rw (other, two) at s) refl refl refl (omega arith))
      | inr no_two ↦ elim (Bool-cases (n == 4)) [
        | inl four ↦
            rw (other, no_two, four)
              (fixed "0x%08llx\n" (rw (other, no_two, four) at s) refl refl refl (omega arith))
        | inr no_four ↦
            rw (other, no_two, no_four)
              (fixed "0x%016llx\n" (rw (other, no_two, no_four) at s) refl refl refl (omega arith))
      ]
    ]
  ]
    where
      fixed :
          (f : String)
          → IsString m (at f) (codes f)
          → codes f ≡ spellings (unread (codes f))
          → are_plain (unread (codes f)) ≡ true
          → until_nul (texts (unread (codes f))) ≡ codes f
          → (length (texts (unread (codes f))) < 1023) × (length (unread (codes f)) ≤ 60)
          → sent fuel m at (print f (v ∷ [])) ≡ some (codes f)
      fixed f s a b c (d, e) = raw_sent fuel m at f (v ∷ []) s a b c (d, omega (arith, enough, e))

  alignment_sent :
      (addr n : ℕ)
      → Placed m at (peek_formats n)
      → all_sent fuel m at (alignment addr n) ≡ some (warning_text addr n)
  unfolding alignment all_sent
  alignment_sent addr n (s, others) = elim (Bool-cases (ltb 1 n && not (addr % n == 0))) [
    | inl warns ↦
        let line =
          hex_sent fuel m at "Warning: Address 0x%llx is not aligned for size %zu.\n"
            "Warning: Address 0x" " is not aligned for size %zu.\n" addr (n ∷ []) s refl refl refl
            refl (omega arith, omega arith) (omega arith, omega arith) in
        rw (warns, line) (ap some (append-nil _))
    | inr quiet ↦ rw quiet refl
  ]

  peek_sent :
      (addr n v : ℕ)
      → Placed m at (peek_formats n)
      → all_sent fuel m at (
          alignment addr n
          ++ print "Peek at 0x%llx (size %zu): " (addr ∷ n ∷ [])
            ∷ print (value_format n) (v ∷ [])
            ∷ [])
        ≡ some (peek_text addr n)
  peek_sent addr n v placed =
      let line =
        hex_sent fuel m at "Peek at 0x%llx (size %zu): " "Peek at 0x" " (size %zu): " addr (n ∷ [])
          placed.1.0 refl refl refl refl (omega arith, omega arith) (omega arith, omega arith) in
      let behind : all_sent fuel m at (
            print "Peek at 0x%llx (size %zu): " (addr ∷ n ∷ [])
            ∷ print (value_format n) (v ∷ [])
            ∷ [])
          ≡ some (hex_text "Peek at 0x" addr " (size %zu): " ++ codes (value_format n)) =
        two_sent fuel m at _ _ line (value_sent n v placed.1.1.0) in
      all_sent-append fuel m at (alignment addr n) _ (warning_text addr n) _
        (alignment_sent addr n placed) behind

-- At an address that is valid for the size, `peek` after `poke` at the same address and size loads the
-- poked value cut to that size, passes it to `kprintf`, and changes nothing. What `kprintf` sends, with
-- the formats in memory and fuel above 60, is the address between texts in which the formats of the
-- size and of the value stand as they are, and the warning before it if the address is not aligned: the
-- value is not shown.
pub peek-poke :
    (fuel : ℕ) (at : String → ℕ) (h : Kheap) (addr value n : ℕ)
    → is_address_valid h.pmm addr n ≡ true
    → Placed (mem (poke addr value (bytes n) h).0) at (peek_formats n)
    → 60 < fuel
    → (peek addr (bytes n) (poke addr value (bytes n) h).0 ≡ (
      (poke addr value (bytes n) h).0,
      alignment addr n
          ++ print "Peek at 0x%llx (size %zu): " (addr ∷ n ∷ [])
            ∷ print (value_format n) (value % 256 ^ n ∷ [])
            ∷ [],
    ))
      × (all_sent fuel
            (mem (poke addr value (bytes n) h).0)
            at
            (peek addr (bytes n) (poke addr value (bytes n) h).0).1
          ≡ some (peek_text addr n))
unfolding peek
peek-poke fuel at h addr value n ok placed enough =
    let again = poke_valid h addr value n addr n ∙ ok in
    let read : load (mem (poke addr value (bytes n) h).0) addr n ≡ value % 256 ^ n =
      unfold poke in rw ok (load-store_self (mem h) addr n value) in
    (
      rw (again, read) refl,
      rw again (peek_sent fuel (mem (poke addr value (bytes n) h).0) at enough addr n _ placed),
    )

-- For an address and size that do not wrap around, and a highest usable address of 64 bits, `poke`
-- leaves alone every byte outside the range that it is passed, and every byte outside usable RAM.
pub poke_kept :
    (h : Kheap) (addr value n a : ℕ)
    → addr + n ≤ word_mod
    → h.pmm.highest_usable_address < word_mod
    → (within addr n a ≡ false) ⊎ (a < ram_base) ⊎ (h.pmm.highest_usable_address ≤ a)
    → mem (poke addr value (bytes n) h).0 a ≡ mem h a
unfolding poke
poke_kept h addr value n a fits top out = elim (Bool-cases (is_address_valid h.pmm addr n)) [
  | inr x ↦ rw x refl
  | inl y ↦
      let (low, high, end) = (is_address_valid-InRam h.pmm addr n fits top).0 y in
      rw y (store_outside (mem h) addr n value a (outside low end out))
]
  where
    outside :
        ram_base ≤ addr
        → addr + n ≤ h.pmm.highest_usable_address
        → (within addr n a ≡ false) ⊎ (a < ram_base) ⊎ (h.pmm.highest_usable_address ≤ a)
        → within addr n a ≡ false
    outside low end o = ground arith
