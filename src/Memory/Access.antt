-- ===== src/Memory/Access.antt =====
-- Loads and stores of several bytes, the least significant first (AArch64 as the boot code leaves
-- it): what `*(uint64_t *)p` and a field of a `struct` stand for.
use meringue_os.Prelude.{
  ℕ, zero, suc, ◌+◌, ◌*◌, ◌/◌, ◌%◌, ◌^◌, ◌≤◌, ◌<◌, ◌≡◌, ◌⊎◌, inl, inr, ◌∙◌, ap, true, false, arith,
  refl, sym,
}
use native.Mathlib.Nat.{pow-suc, div-add-mod, mod-lt, mod-eq_of_lt, add-mul-mod_self_left}
use meringue_os.Memory.{Mem, IsBytes, write, write-IsBytes, within}

unfoldable pub load : Mem → ℕ → ℕ → ℕ
load m a zero = 0
load m a (suc n) = m a + 256 * load m (a + 1) n

unfoldable pub store : Mem → ℕ → ℕ → ℕ → Mem
store m a zero v = m
store m a (suc n) v = store (write m a v) (a + 1) n (v / 256)

-- A store leaves the bytes outside its range alone.
pub store_outside : (m : Mem) (a n v b : ℕ) → within a n b ≡ false → store m a n v b ≡ m b
unfolding store write
store_outside m a zero v b o = refl
store_outside m a (suc n) v b o =
    store_outside (write m a v) (a + 1) n (v / 256) b (ground arith) ∙ ground arith

-- A load reads the bytes of its range only.
pub load-eq :
    (m k : Mem) (a n : ℕ) → ((b : ℕ) → within a n b ≡ true → m b ≡ k b) → load m a n ≡ load k a n
unfolding load
load-eq m k a zero h = refl
load-eq m k a (suc n) h =
    let first : m a ≡ k a = h a (ground arith) in
    omega (arith, first, load-eq m k (a + 1) n (λ b w. h b (ground arith)))

pub load-store_apart :
    (m : Mem) (a n v b k : ℕ) → (a + n ≤ b) ⊎ (b + k ≤ a) → load (store m a n v) b k ≡ load m b k
load-store_apart m a n v b k (inl h) =
    load-eq _ m b k (λ c w. store_outside m a n v c (ground arith))
load-store_apart m a n v b k (inr h) =
    load-eq _ m b k (λ c w. store_outside m a n v c (ground arith))

-- The lowest digit and the others make up the number, to any number of digits.
digits_mod : (v x : ℕ) → 0 < x → v % 256 + 256 * (v / 256 % x) ≡ v % (256 * x)
digits_mod v x h =
    let q = v / 256 in
    let small = v % 256 + 256 * (q % x) in
    let whole : v ≡ small + 256 * x * (q / x) =
      omega (arith, ap (λ (t : ℕ). 256 * t) (div-add-mod q x)) in
    let fits : small < 256 * x = omega (arith, mod-lt q h) in
    sym (
      ap (λ t. t % (256 * x)) whole
      ∙ add-mul-mod_self_left small (256 * x) (q / x)
      ∙ mod-eq_of_lt fits)

pow_pos : (n : ℕ) → 0 < 256 ^ n
pow_pos zero = omega arith
pow_pos (suc n) = rw pow-suc (omega (arith, pow_pos n))

-- What is stored is loaded again, cut to the bytes that were stored.
pub load-store_self : (m : Mem) (a n v : ℕ) → load (store m a n v) a n ≡ v % 256 ^ n
unfolding load store
load-store_self m a zero v = omega arith
load-store_self m a (suc n) v =
    let low : store (write m a v) (a + 1) n (v / 256) a ≡ v % 256 =
      store_outside (write m a v) (a + 1) n (v / 256) a (ground arith)
      ∙ unfold write in ground arith in
    rw
      (
        low,
        load-store_self (write m a v) (a + 1) n (v / 256),
        digits_mod v (256 ^ n) (pow_pos n),
        pow-suc,
      )
      (ap (λ t. v % t) (omega arith))

pub store-IsBytes : (m : Mem) (a n v : ℕ) → IsBytes m → IsBytes (store m a n v)
unfolding store
store-IsBytes m a zero v b = b
store-IsBytes m a (suc n) v b =
    store-IsBytes (write m a v) (a + 1) n (v / 256) (write-IsBytes m a v b)
