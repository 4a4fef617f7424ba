-- ===== src/Heap/Malloc.antt =====
-- `kmalloc` of src/memory/kheap.c where the free list has a block that is large enough: what becomes
-- of the list, of the block and of its bytes.
pub mod Split
pub mod Found
use meringue_os.Prelude.{
  ℕ, zero, suc, ◌+◌, ◌-◌, ◌%◌, ◌<◌, ◌≤◌, ◌≡◌, ◌≢◌, ◌⊎◌, refl, ap, sym, ◌∙◌, Bool, true, false, not,
  Option, some, List, [], ◌∷◌, ◌++◌, length, All, All-mono, All-zip, arith, leb, ◌==◌,
  if◌then◌else◌, Bool-cases, inl, inr, word_mod, add64,
}
use meringue_os.Memory.{Mem, memset, memset_lem, within}
use meringue_os.Heap.{Kheap, mem, with_mem}
use meringue_os.Heap.Header.{
  header_size, size_at, is_free_at, next_at, next_free_at, prev_free_at, set_is_free, set_prev,
}
use meringue_os.Heap.Fields.{
  header, Apart, memset_apart, set_is_free_apart, set_is_free_self, set_prev_self, set_prev_apart,
}
use meringue_os.Heap.Links.{Apart-sym}
use meringue_os.Heap.Links.Rest.{Meets}
use meringue_os.Heap.Segments.{Seg, IsPtr, IsFreeList}

-- The header at `q` has no byte in the block at `block`, its header and its `n` bytes of data.
abbrev pub Clear : ℕ → ℕ → ℕ → Type 0
Clear n block q = (block + header_size + n ≤ q) ⊎ (q + header_size ≤ block)

pub Clear-Apart : (n block q : ℕ) → Clear n block q → Apart block q
Clear-Apart n block q (inl h) = inl (omega arith)
Clear-Apart n block q (inr h) = inr h

pub Clear-less : (n k block q : ℕ) → k ≤ n → Clear n block q → Clear k block q
Clear-less n k block q le (inl h) = inl (omega arith)
Clear-less n k block q le (inr h) = inr h

-- `k` has what the free list uses of the header at `q` in `m`.
abbrev pub Linked : Mem → Mem → ℕ → Type 0
Linked m k q =
    (next_free_at k q ≡ next_free_at m q)
    × (prev_free_at k q ≡ prev_free_at m q)
    × (is_free_at k q ≡ is_free_at m q)

pub Linked-header : (m k : Mem) (q : ℕ) → header k q ≡ header m q → Linked m k q
Linked-header m k q e = (ap (λ r. r.next_free) e, ap (λ r. r.prev_free) e, ap (λ r. r.is_free) e)

pub Linked-trans : (a b c : Mem) (q : ℕ) → Linked a b q → Linked b c q → Linked a c q
Linked-trans a b c q (n, p, f) (n', p', f') = (n' ∙ n, p' ∙ p, f' ∙ f)

pub set_prev-Linked : (m : Mem) (p q v : ℕ) → v < word_mod → Meets p q → Linked m (set_prev m p v) q
set_prev-Linked m p q v fits (inl e) =
    let h = set_prev_self m p v fits in
    rw (sym e) (ap (λ r. r.next_free) h, ap (λ r. r.prev_free) h, ap (λ r. r.is_free) h)
set_prev-Linked m p q v fits (inr a) = Linked-header m _ q (set_prev_apart m p q a v)

Seg-Linked :
    (m k : Mem) (prev p : ℕ) (xs : List ℕ) (stop : ℕ)
    → All (Linked m k) xs
    → Seg m prev p xs stop
    → Seg k prev p xs stop
Seg-Linked m k prev p [] stop same s = s
Seg-Linked m k prev p (b ∷ bs) stop ((n, e, f), same) (here, back, rest) =
    (here, e ∙ back, rw n (Seg-Linked m k b (next_free_at m b) bs stop same rest))

pub IsFreeList-Linked :
    (m k : Mem) (head : ℕ) (xs : List ℕ)
    → IsFreeList m head xs
    → All (Linked m k) xs
    → IsFreeList k head xs
IsFreeList-Linked m k head xs f same = record {
  chain = Seg-Linked m k 0 head xs 0 same f.chain;
  ptrs = f.ptrs;
  spread = f.spread;
  free = All-zip (Linked m k) _ _ xs (λ q l e. l.2 ∙ e) same f.free;
}

-- The head of a free list meets no header that lies apart from the list's.
pub head-Meets :
    (m : Mem) (head q : ℕ) (xs : List ℕ)
    → IsFreeList m head xs
    → All (Apart q) xs
    → (head ≢ 0 → Meets head q) × (head < word_mod)
head-Meets m head q [] f a = let z : head ≡ 0 = f.chain in (λ ne. absurd (ne z), omega arith)
head-Meets m head q (x ∷ xs) f a =
    let e : head ≡ x = f.chain.0 in
    let p : x < word_mod = f.ptrs.0.1 in (λ ne. inr (rw e (Apart-sym q x a.0)), omega arith)

-- The state `h` after the block at `block` was allocated for `size` bytes: the free list holds `xs`,
-- the block is not free and large enough, and all bytes of its data are 0.
pub record Allocated (h : Kheap) (block size : ℕ) (xs : List ℕ) : Type 0 where
  pub list : IsFreeList (mem h) h.free_list_head xs
  pub used : is_free_at (mem h) block ≡ false
  pub room : size ≤ size_at (mem h) block
  pub zeroed : (a : ℕ) → within (block + header_size) (size_at (mem h) block) a ≡ true → mem h a ≡ 0

-- The end of `kmalloc`, on a block that is out of the list already.
module _ (h : Kheap) (block : ℕ) where
  pub marked : Mem
  marked = set_is_free (mem h) block false

  pub finish : Kheap
  finish = with_mem h (memset marked (block + header_size) 0 (size_at marked block))

  finish_size : size_at marked block ≡ size_at (mem h) block
  unfolding marked
  finish_size = ap (λ r. r.size) (set_is_free_self (mem h) block false)

  finish-header : header (mem finish) block ≡ header marked block
  unfolding finish
  finish-header =
      memset_apart marked (block + header_size) 0 (size_at marked block) block (inr (omega arith))

  -- The data of the block, as a range that headers clear of the block stay out of.
  data-Clear :
      (q : ℕ)
      → Clear (size_at (mem h) block) block q
      → (block + header_size + size_at marked block ≤ q) ⊎ (q + header_size ≤ block + header_size)
  data-Clear q (inl l) = inl (omega (arith, finish_size))
  data-Clear q (inr l) = inr (omega arith)

  finish_other :
      (q : ℕ) → Clear (size_at (mem h) block) block q → header (mem finish) q ≡ header (mem h) q
  unfolding finish
  finish_other q c =
      memset_apart marked (block + header_size) 0 (size_at marked block) q (data-Clear q c)
      ∙ unfold marked in set_is_free_apart (mem h) block q (Clear-Apart _ block q c) false

  pub finish-Allocated :
      (size : ℕ) (xs : List ℕ)
      → IsFreeList (mem h) h.free_list_head xs
      → size ≤ size_at (mem h) block
      → All (Clear (size_at (mem h) block) block) xs
      → Allocated finish block size xs
  unfolding finish
  finish-Allocated size xs f room clear =
      let n = size_at marked block in
      let same : size_at (mem finish) block ≡ n = ap (λ r. r.size) finish-header in
      record {
        list =
            IsFreeList-Linked (mem h) (mem finish) h.free_list_head xs f
              (All-mono _ _ xs (λ q c. Linked-header (mem h) _ q (finish_other q c)) clear);
        used =
            ap (λ r. r.is_free) finish-header
            ∙ unfold marked in ap (λ r. r.is_free) (set_is_free_self (mem h) block false);
        room = omega (arith, same, finish_size);
        zeroed = λ a w. ground (arith, same, memset_lem marked (block + header_size) 0 n a);
      }
