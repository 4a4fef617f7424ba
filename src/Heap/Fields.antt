-- ===== src/Heap/Fields.antt =====
-- The fields of block headers under the writes of src/memory/kheap.c: a write to one field changes
-- that field, and no header that lies apart.
use meringue_os.Prelude.{
  ℕ, ◌+◌, ◌%◌, ◌≤◌, ◌<◌, ◌≡◌, ◌⊎◌, inl, inr, ◌∙◌, Bool, true, arith, ◌==◌, if◌then◌else◌, word_mod,
}
use meringue_os.Memory.{Mem, write, memset, memset_lem, within}
use meringue_os.Memory.Access.{
  load, store, load-eq, load-store_self, load-store_apart, store_outside,
}
use meringue_os.Heap.Header.{
  header_size, size_at, is_free_at, next_at, prev_at, next_free_at, prev_free_at, set_size,
  set_is_free, set_next, set_prev, set_next_free, set_prev_free,
}

-- A header as a value.
pub record Header : Type 0 where
  pub size : ℕ
  pub is_free : Bool
  pub next : ℕ
  pub prev : ℕ
  pub next_free : ℕ
  pub prev_free : ℕ

abbrev pub header : Mem → ℕ → Header
header m p = record {
  size = size_at m p;
  is_free = is_free_at m p;
  next = next_at m p;
  prev = prev_at m p;
  next_free = next_free_at m p;
  prev_free = prev_free_at m p;
}

-- Two headers that share no byte.
abbrev pub Apart : ℕ → ℕ → Type 0
Apart p q = (p + header_size ≤ q) ⊎ (q + header_size ≤ p)

-- `k` has the bytes of `m` in the header at `p`.
abbrev Agree : Mem → Mem → ℕ → Type 0
Agree m k p = (a : ℕ) → within p header_size a ≡ true → k a ≡ m a

pub header-eq : (m k : Mem) (p : ℕ) → Agree m k p → header k p ≡ header m p
unfolding size_at is_free_at next_at prev_at next_free_at prev_free_at
header-eq m k p same = ground (
  arith,
  load-eq k m (p + 0) 8 (λ a w. same a (ground arith)),
  same (p + 8) (ground arith),
  load-eq k m (p + 16) 8 (λ a w. same a (ground arith)),
  load-eq k m (p + 24) 8 (λ a w. same a (ground arith)),
  load-eq k m (p + 32) 8 (λ a w. same a (ground arith)),
  load-eq k m (p + 40) 8 (λ a w. same a (ground arith)),
)

-- A word or a byte written in one header.
store-Apart :
    (m : Mem) (p q v o : ℕ)
    → Apart p q
    → o + 8 ≤ header_size
    → header (store m (p + o) 8 v) q ≡ header m q
store-Apart m p q v o (inl h) fits =
    header-eq m _ q (λ a w. store_outside m (p + o) 8 v a (ground arith))
store-Apart m p q v o (inr h) fits =
    header-eq m _ q (λ a w. store_outside m (p + o) 8 v a (ground arith))

module _ (m : Mem) (p q : ℕ) (apart : Apart p q) where
  pub set_size_apart : (v : ℕ) → header (set_size m p v) q ≡ header m q
  unfolding set_size
  set_size_apart v = store-Apart m p q v 0 apart (omega arith)

  pub set_is_free_apart : (b : Bool) → header (set_is_free m p b) q ≡ header m q
  unfolding set_is_free write
  set_is_free_apart b = header-eq m _ q (λ a w. elsewhere a w apart)
    where
      elsewhere :
          (a : ℕ)
          → within q header_size a ≡ true
          → Apart p q
          → (if a == p + 8 then (if b then 1 else 0) % 256 else m a) ≡ m a
      elsewhere a w (inl h) = ground arith
      elsewhere a w (inr h) = ground arith

  pub set_next_apart : (v : ℕ) → header (set_next m p v) q ≡ header m q
  unfolding set_next
  set_next_apart v = store-Apart m p q v 16 apart (omega arith)

  pub set_prev_apart : (v : ℕ) → header (set_prev m p v) q ≡ header m q
  unfolding set_prev
  set_prev_apart v = store-Apart m p q v 24 apart (omega arith)

  pub set_next_free_apart : (v : ℕ) → header (set_next_free m p v) q ≡ header m q
  unfolding set_next_free
  set_next_free_apart v = store-Apart m p q v 32 apart (omega arith)

  pub set_prev_free_apart : (v : ℕ) → header (set_prev_free m p v) q ≡ header m q
  unfolding set_prev_free
  set_prev_free_apart v = store-Apart m p q v 40 apart (omega arith)

-- Clearing bytes that no byte of the header is among.
pub memset_apart :
    (m : Mem) (a c n q : ℕ)
    → (a + n ≤ q) ⊎ (q + header_size ≤ a)
    → header (memset m a c n) q ≡ header m q
memset_apart m a c n q (inl h) = header-eq m _ q (λ b w. ground (arith, memset_lem m a c n b))
memset_apart m a c n q (inr h) = header-eq m _ q (λ b w. ground (arith, memset_lem m a c n b))

-- A word written in the header at `p`, `o` bytes from its start, and the words and the byte there.
module _ (m : Mem) (p o v : ℕ) where
  same_word : v < word_mod → load (store m (p + o) 8 v) (p + o) 8 ≡ v
  same_word fits = load-store_self m (p + o) 8 v ∙ omega arith

  other_word :
      (k : ℕ) → (o + 8 ≤ k) ⊎ (k + 8 ≤ o) → load (store m (p + o) 8 v) (p + k) 8 ≡ load m (p + k) 8
  other_word k (inl h) = load-store_apart m (p + o) 8 v (p + k) 8 (inl (omega arith))
  other_word k (inr h) = load-store_apart m (p + o) 8 v (p + k) 8 (inr (omega arith))

  other_byte : (k : ℕ) → (o + 8 ≤ k) ⊎ (k < o) → store m (p + o) 8 v (p + k) ≡ m (p + k)
  other_byte k (inl h) = store_outside m (p + o) 8 v (p + k) (ground arith)
  other_byte k (inr h) = store_outside m (p + o) 8 v (p + k) (ground arith)

module _ (m : Mem) (p v : ℕ) (fits : v < word_mod) where
  pub set_size_self : header (set_size m p v) p ≡ record (header m p) { size = v }
  unfolding set_size size_at is_free_at next_at prev_at next_free_at prev_free_at
  set_size_self = ground (
    arith,
    same_word m p 0 v fits,
    other_byte m p 0 v 8 (inl (omega arith)),
    other_word m p 0 v 16 (inl (omega arith)),
    other_word m p 0 v 24 (inl (omega arith)),
    other_word m p 0 v 32 (inl (omega arith)),
    other_word m p 0 v 40 (inl (omega arith)),
  )

  pub set_next_self : header (set_next m p v) p ≡ record (header m p) { next = v }
  unfolding set_next size_at is_free_at next_at prev_at next_free_at prev_free_at
  set_next_self = ground (
    arith,
    same_word m p 16 v fits,
    other_byte m p 16 v 8 (inr (omega arith)),
    other_word m p 16 v 0 (inr (omega arith)),
    other_word m p 16 v 24 (inl (omega arith)),
    other_word m p 16 v 32 (inl (omega arith)),
    other_word m p 16 v 40 (inl (omega arith)),
  )

  pub set_prev_self : header (set_prev m p v) p ≡ record (header m p) { prev = v }
  unfolding set_prev size_at is_free_at next_at prev_at next_free_at prev_free_at
  set_prev_self = ground (
    arith,
    same_word m p 24 v fits,
    other_byte m p 24 v 8 (inr (omega arith)),
    other_word m p 24 v 0 (inr (omega arith)),
    other_word m p 24 v 16 (inr (omega arith)),
    other_word m p 24 v 32 (inl (omega arith)),
    other_word m p 24 v 40 (inl (omega arith)),
  )

  pub set_next_free_self : header (set_next_free m p v) p ≡ record (header m p) { next_free = v }
  unfolding set_next_free size_at is_free_at next_at prev_at next_free_at prev_free_at
  set_next_free_self = ground (
    arith,
    same_word m p 32 v fits,
    other_byte m p 32 v 8 (inr (omega arith)),
    other_word m p 32 v 0 (inr (omega arith)),
    other_word m p 32 v 16 (inr (omega arith)),
    other_word m p 32 v 24 (inr (omega arith)),
    other_word m p 32 v 40 (inl (omega arith)),
  )

  pub set_prev_free_self : header (set_prev_free m p v) p ≡ record (header m p) { prev_free = v }
  unfolding set_prev_free size_at is_free_at next_at prev_at next_free_at prev_free_at
  set_prev_free_self = ground (
    arith,
    same_word m p 40 v fits,
    other_byte m p 40 v 8 (inr (omega arith)),
    other_word m p 40 v 0 (inr (omega arith)),
    other_word m p 40 v 16 (inr (omega arith)),
    other_word m p 40 v 24 (inr (omega arith)),
    other_word m p 40 v 32 (inr (omega arith)),
  )

-- The byte of `is_free`, and the words beside it.
word_beside :
    (m : Mem) (p k v : ℕ)
    → (9 ≤ k) ⊎ (k + 8 ≤ 8)
    → load (write m (p + 8) v) (p + k) 8 ≡ load m (p + k) 8
unfolding write
word_beside m p k v (inl h) = load-eq _ m (p + k) 8 (λ a w. ground arith)
word_beside m p k v (inr h) = load-eq _ m (p + k) 8 (λ a w. ground arith)

pub set_is_free_self :
    (m : Mem) (p : ℕ) (b : Bool)
    → header (set_is_free m p b) p ≡ record (header m p) { is_free = b }
unfolding set_is_free size_at is_free_at next_at prev_at next_free_at prev_free_at
set_is_free_self m p b =
    let v : ℕ = if b then 1 else 0 in
    ground (
      arith,
      word_beside m p 0 v (inr (omega arith)),
      word_beside m p 16 v (inl (omega arith)),
      word_beside m p 24 v (inl (omega arith)),
      word_beside m p 32 v (inl (omega arith)),
      word_beside m p 40 v (inl (omega arith)),
      byte,
    )
  where
    byte : write m (p + 8) (if b then 1 else 0) (p + 8) ≡ (if b then 1 else 0)
    byte = unfold write in ground arith
