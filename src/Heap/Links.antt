-- ===== src/Heap/Links.antt =====
-- What linking a block into the free list and unlinking it do to the headers.
pub mod Rest
use meringue_os.Prelude.{
  ℕ, ◌+◌, ◌≤◌, ◌<◌, ◌≡◌, ◌≢◌, ◌⊎◌, inl, inr, refl, sym, ap, ◌∙◌, Bool, true, false, ◌&&◌, not,
  arith, ◌==◌, if◌then◌else◌, word_mod,
}
use meringue_os.Memory.{Mem}
use meringue_os.Heap.{link_free, bypass, unlink}
use meringue_os.Heap.Header.{
  header_size, is_free_at, next_free_at, prev_free_at, set_is_free, set_next_free, set_prev_free,
}
use meringue_os.Heap.Fields.{
  Header, header, Apart, set_is_free_apart, set_next_free_apart, set_prev_free_apart,
  set_is_free_self, set_next_free_self, set_prev_free_self,
}

-- A pointer that is NULL, or to a header apart from that at `q`.
abbrev pub Aside : ℕ → ℕ → Type 0
Aside p q = (p ≡ 0) ⊎ ((p ≢ 0) × Apart p q)

-- A write to the header at `p`, made only if `p` is not NULL.
module _ (m k : Mem) (p q : ℕ) where
  guarded-Apart :
      Aside p q
      → (p ≢ 0 → Apart p q → header k q ≡ header m q)
      → header (if not (p == 0) then k else m) q ≡ header m q
  guarded-Apart (inl z) h = rw z
  guarded-Apart (inr (ne, apart)) h = let t : (p == 0) ≡ false = ground arith in rw t (h ne apart)

module _ (m : Mem) (head block : ℕ) (hh : head < word_mod) (hb : block < word_mod) where
  -- The block's header before the old head is told of it.
  three : Mem
  three = set_prev_free (set_next_free (set_is_free m block true) block head) block 0

  three_self :
      header three block
      ≡ record (header m block) { is_free = true; next_free = head; prev_free = 0 }
  unfolding three
  three_self =
      let a = set_is_free m block true in
      let b = set_next_free a block head in
      cc (
        set_is_free_self m block true,
        set_next_free_self a block head hh,
        set_prev_free_self b block 0 (omega arith),
      )

  three-Apart : (q : ℕ) → Apart block q → header three q ≡ header m q
  unfolding three
  three-Apart q apart =
      let a = set_is_free m block true in
      let b = set_next_free a block head in
      set_prev_free_apart b block q apart 0
      ∙ set_next_free_apart a block q apart head
      ∙ set_is_free_apart m block q apart true

  pub link_free_self :
      Aside head block
      → header (link_free m head block) block
        ≡ record (header m block) { is_free = true; next_free = head; prev_free = 0 }
  unfolding link_free three
  link_free_self aside =
      guarded-Apart three (set_prev_free three head block) head block aside
        (λ ne apart. set_prev_free_apart three head block apart block)
      ∙ three_self

  pub link_free_head :
      head ≢ 0
      → Apart block head
      → header (link_free m head block) head ≡ record (header m head) { prev_free = block }
  unfolding link_free three
  link_free_head ne apart =
      let t : (head == 0) ≡ false = ground arith in
      rw t (cc (set_prev_free_self three head block hb, three-Apart head apart))

  pub link_free-Apart :
      (q : ℕ) → Aside head q → Apart block q → header (link_free m head block) q ≡ header m q
  unfolding link_free three
  link_free-Apart q aside apart =
      guarded-Apart three (set_prev_free three head block) head q aside
        (λ ne ap'. set_prev_free_apart three head q ap' block)
      ∙ three-Apart q apart

pub Apart-sym : (p q : ℕ) → Apart p q → Apart q p
Apart-sym p q (inl h) = inr h
Apart-sym p q (inr h) = inl h

-- `remove_from_free_list` of a block whose neighbours in the list, where it has them, lie apart.
pub record IsLinked (m : Mem) (block pf nf : ℕ) : Type 0 where
  pub to_prev : prev_free_at m block ≡ pf
  pub to_next : next_free_at m block ≡ nf
  pub prev_fits : pf < word_mod
  pub next_fits : nf < word_mod
  pub prev_aside : Aside pf block
  pub next_aside : Aside nf block

module _ (m : Mem) (block pf nf : ℕ) (l : IsLinked m block pf nf) where
  -- Memory after the write to the block before, and after that to the block behind.
  forward : Mem
  forward = if not (pf == 0) then set_next_free m pf nf else m

  both : Mem
  both = if not (nf == 0) then set_prev_free forward nf pf else forward

  forward_apart : (q : ℕ) → Aside pf q → header forward q ≡ header m q
  unfolding forward
  forward_apart q aside =
      guarded-Apart m (set_next_free m pf nf) pf q aside
        (λ ne apart. set_next_free_apart m pf q apart nf)

  both_apart : (q : ℕ) → Aside pf q → Aside nf q → header both q ≡ header m q
  unfolding both
  both_apart q ap_ an =
      guarded-Apart forward (set_prev_free forward nf pf) nf q an
        (λ ne apart. set_prev_free_apart forward nf q apart pf)
      ∙ forward_apart q ap_

  bypass_lem : bypass m block ≡ both
  unfolding bypass both forward
  bypass_lem =
      let same = forward_apart block l.prev_aside in
      let en : next_free_at (if not (pf == 0) then set_next_free m pf nf else m) block ≡ nf =
        unfold forward in (ap (λ r. r.next_free) same ∙ l.to_next) in
      let ep : prev_free_at (if not (pf == 0) then set_next_free m pf nf else m) block ≡ pf =
        unfold forward in (ap (λ r. r.prev_free) same ∙ l.to_prev) in
      rw (l.to_prev, l.to_next, en, ep)

  -- The writes to the block itself.
  cleared : Mem → Mem
  cleared k = set_prev_free (set_next_free (set_is_free k block false) block 0) block 0

  cleared_self :
      (k : Mem)
      → header (cleared k) block
        ≡ record (header k block) { is_free = false; next_free = 0; prev_free = 0 }
  unfolding cleared
  cleared_self k =
      let a = set_is_free k block false in
      let b = set_next_free a block 0 in
      cc (
        set_is_free_self k block false,
        set_next_free_self a block 0 (omega arith),
        set_prev_free_self b block 0 (omega arith),
      )

  cleared-Apart : (k : Mem) (q : ℕ) → Apart block q → header (cleared k) q ≡ header k q
  unfolding cleared
  cleared-Apart k q apart =
      let a = set_is_free k block false in
      let b = set_next_free a block 0 in
      set_prev_free_apart b block q apart 0
      ∙ set_next_free_apart a block q apart 0
      ∙ set_is_free_apart k block q apart false

  unlink_lem : unlink m block ≡ cleared both
  unfolding unlink cleared
  unlink_lem = rw bypass_lem

  pub unlink_self :
      header (unlink m block) block
      ≡ record (header m block) { is_free = false; next_free = 0; prev_free = 0 }
  unlink_self = rw unlink_lem (cc (cleared_self both, both_apart block l.prev_aside l.next_aside))

  pub unlink-Apart :
      (q : ℕ) → Aside pf q → Aside nf q → Apart block q → header (unlink m block) q ≡ header m q
  unlink-Apart q ap_ an apart = rw unlink_lem (cleared-Apart both q apart ∙ both_apart q ap_ an)

  pub unlink_prev :
      pf ≢ 0
      → Aside nf pf
      → Apart block pf
      → header (unlink m block) pf ≡ record (header m pf) { next_free = nf }
  unlink_prev ne an apart = rw unlink_lem (cleared-Apart both pf apart ∙ behind ∙ here)
    where
      behind : header both pf ≡ header forward pf
      behind =
          unfold both in
          guarded-Apart forward (set_prev_free forward nf pf) nf pf an
            (λ ne' apart'. set_prev_free_apart forward nf pf apart' pf)

      here : header forward pf ≡ record (header m pf) { next_free = nf }
      here =
          let t : (pf == 0) ≡ false = ground arith in
          unfold forward in rw t (set_next_free_self m pf nf l.next_fits)

  pub unlink_next :
      nf ≢ 0
      → Aside pf nf
      → Apart block nf
      → header (unlink m block) nf ≡ record (header m nf) { prev_free = pf }
  unlink_next ne ap_ apart = rw unlink_lem (cleared-Apart both nf apart ∙ here)
    where
      here : header both nf ≡ record (header m nf) { prev_free = pf }
      here =
          let t : (nf == 0) ≡ false = ground arith in
          unfold both in
          rw t (cc (set_prev_free_self forward nf pf l.prev_fits, forward_apart nf ap_))
