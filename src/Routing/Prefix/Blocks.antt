-- ===== src/Routing/Prefix/Blocks.antt =====
-- Networks as aligned blocks of addresses: the masks as arithmetic, the tree that prefixes form.
use native.Mathlib.Nat.{
  pow-suc, one-le-pow, div-lt_iff_lt-mul, mod-eq_of_lt, div-div-eq-div-mul, zero-add, suc-add,
}
use leshy.Prelude.{
  ℕ, zero, suc, ◌+◌, ◌-◌, ◌*◌, ◌/◌, ◌^◌, ◌≤◌, ◌<◌, ◌≡◌, refl, sym, ap, ◌∙◌, ◌⊎◌, inl, inr, arith,
}
use leshy.Prelude.Word.{
  u32_mod, bit32, mul-two-pow-suc, bit_and-shifted, bit_and-low_mask, bit_or-clear,
}
use leshy.Routing.Prefix.{mask, network_address, split_network}

two_pow_add : (a b : ℕ) → 2 ^ (a + b) ≡ 2 ^ a * 2 ^ b
two_pow_add zero b = rw zero-add (omega arith)
two_pow_add (suc a) b = rw suc-add (
    omega (
      arith,
      pow-suc 2 (a + b),
      pow-suc 2 a,
      ap (λ (t : ℕ). t * 2 ^ b) (pow-suc 2 a),
      two_pow_add a b,
    ))

pub two_pow_32 : (p k : ℕ) → p + k ≡ 32 → 2 ^ p * 2 ^ k ≡ u32_mod
two_pow_32 p k e = sym (two_pow_add p k) ∙ ap (λ (t : ℕ). 2 ^ t) e

pub bit32-lt : (k : ℕ) → k < 32 → bit32 k ≡ 2 ^ k
bit32-lt k h = mod-eq_of_lt (
    grind (
      arith,
      two_pow_32 (suc (31 - k)) k (omega arith),
      pow-suc 2 (31 - k),
      one-le-pow (31 - k) 2,
      one-le-pow k 2,
    ))

-- The multiple of 2 ^ k at or below an address.
abbrev pub block : ℕ → ℕ → ℕ
block k a = a / 2 ^ k * 2 ^ k

pred_mul : (x y : ℕ) → 0 < x → (x - 1) * y + y ≡ x * y
pred_mul zero y h = absurd (omega arith)
pred_mul (suc x) y h = let e : suc x - 1 ≡ x = omega arith in rw e (omega arith)

mask-shifted : (p k : ℕ) → suc p + k ≡ 32 → mask (suc p) ≡ (2 ^ suc p - 1) * 2 ^ k
mask-shifted p k e =
    let h : 32 - suc p ≡ k = omega arith in
    rw (h, bit32-lt k (omega arith))
      (omega (
        arith,
        two_pow_32 (suc p) k e,
        pred_mul (2 ^ suc p) (2 ^ k) (one-le-pow (suc p) 2 (omega arith)),
        one-le-pow k 2 (omega arith),
      ))

pub high_part-lt : (a p k : ℕ) → p + k ≡ 32 → a < u32_mod → a / 2 ^ k < 2 ^ p
high_part-lt a p k e h =
    (div-lt_iff_lt-mul {y = 2 ^ p} (one-le-pow k 2 (omega arith))).1 (rw (two_pow_32 p k e) h)

pub network_address-block : (a p k : ℕ) → p + k ≡ 32 → a < u32_mod → network_address a p ≡ block k a
unfolding network_address
network_address-block a zero k e h = let e' : k ≡ 32 = omega arith in rw e' (omega arith)
network_address-block a (suc p) k e h =
    rw
      (
        mask-shifted p k e,
        bit_and-shifted,
        bit_and-low_mask,
        mod-eq_of_lt (high_part-lt a (suc p) k e h),
      )
      (ground arith)

block_cancel : (k x y : ℕ) → x * 2 ^ k ≡ y * 2 ^ k → x ≡ y
block_cancel k x y h = grind (arith, one-le-pow k 2)

quotient-suc : (k a : ℕ) → a / 2 ^ suc k ≡ a / 2 ^ k / 2
quotient-suc k a = rw (div-div-eq-div-mul, pow-suc)

-- Equal blocks lie in equal wider blocks.
quotient_mono : (j d a b : ℕ) → a / 2 ^ j ≡ b / 2 ^ j → a / 2 ^ (d + j) ≡ b / 2 ^ (d + j)
quotient_mono j zero a b h = rw zero-add h
quotient_mono j (suc d) a b h =
    rw (suc-add, quotient-suc) (rw quotient-suc (ap (λ (t : ℕ). t / 2) (quotient_mono j d a b h)))

block_mono : (j d a b : ℕ) → block j a ≡ block j b → block (d + j) a ≡ block (d + j) b
block_mono j d a b h =
    ap (λ (t : ℕ). t * 2 ^ (d + j)) (quotient_mono j d a b (block_cancel j _ _ h))

half_product : (x t : ℕ) → (x * t ≡ 2 * (x / 2 * t)) ⊎ (x * t ≡ 2 * (x / 2 * t) + t)
half_product x t = elim (parity x) [
  | inl e ↦ inl (omega (arith, ap (λ (n : ℕ). n * t) e))
  | inr e ↦ inr (omega (arith, ap (λ (n : ℕ). n * t) e))
]
  where
    parity : (n : ℕ) → (n ≡ 2 * (n / 2)) ⊎ (n ≡ 2 * (n / 2) + 1)
    parity n = omega arith

-- A block is one of the halves of the block around it.
block-halves : (k a : ℕ) → (block k a ≡ block (suc k) a) ⊎ (block k a ≡ block (suc k) a + 2 ^ k)
block-halves k a =
    rw (quotient-suc k a, mul-two-pow-suc (a / 2 ^ k / 2) k) (half_product (a / 2 ^ k) (2 ^ k))

-- A block that is a half of another block has that one around it.
block-lower : (k a b : ℕ) → block k a ≡ block (suc k) b → block (suc k) a ≡ block (suc k) b
block-lower k a b h =
    let e : a / 2 ^ k ≡ 2 * (b / 2 ^ suc k) =
      block_cancel k _ _ (omega (arith, mul-two-pow-suc (b / 2 ^ suc k) k)) in
    ap (λ (t : ℕ). t * 2 ^ suc k) (omega (arith, quotient-suc k a))

block-upper : (k a b : ℕ) → block k a ≡ block (suc k) b + 2 ^ k → block (suc k) a ≡ block (suc k) b
block-upper k a b h =
    let e : a / 2 ^ k ≡ 2 * (b / 2 ^ suc k) + 1 =
      block_cancel k _ _ (omega (arith, mul-two-pow-suc (b / 2 ^ suc k) k)) in
    ap (λ (t : ℕ). t * 2 ^ suc k) (omega (arith, quotient-suc k a))

-- At 32 bits a network is its one address.
pub network_address-host : (a : ℕ) → a < u32_mod → network_address a 32 ≡ a
network_address-host a h = network_address-block a 32 0 refl h ∙ omega arith

-- Addresses of one network share every wider network.
pub network_address_mono :
    (p q a b : ℕ)
    → p ≤ q
    → q ≤ 32
    → a < u32_mod
    → b < u32_mod
    → network_address a q ≡ network_address b q
    → network_address a p ≡ network_address b p
network_address_mono p q a b pq q32 ha hb h =
    let j = 32 - q in
    let k = q - p + j in
    rw (network_address-block a p k (omega arith) ha, network_address-block b p k (omega arith) hb)
      (block_mono j (q - p) a b (
        rw
          (
            network_address-block a q j (omega arith) ha,
            network_address-block b q j (omega arith) hb,
          )
          at h))

module _ (p : ℕ) (p32 : p < 32) where
  -- The distance between the two halves of a network.
  abbrev pub stride : ℕ
  stride = 2 ^ (31 - p)

  module _ (a : ℕ) (ha : a < u32_mod) where
    parent : network_address a p ≡ block (suc (31 - p)) a
    parent = network_address-block a p (suc (31 - p)) (omega arith) ha

    child : network_address a (p + 1) ≡ block (31 - p) a
    child = network_address-block a (p + 1) (31 - p) (omega arith) ha

    pub split_network-halves :
        split_network (network_address a p) p ≡ (network_address a p, network_address a p + stride)
    unfolding split_network
    split_network-halves =
        let e : 32 - (p + 1) ≡ 31 - p = omega arith in
        rw (parent, e, bit32-lt (31 - p) (omega arith), bit_or-clear)

    -- An address lies in the lower or in the upper half of its network.
    pub network_address-halves :
        (network_address a (p + 1) ≡ network_address a p)
        ⊎ (network_address a (p + 1) ≡ network_address a p + stride)
    network_address-halves = rw (child, parent) (block-halves (31 - p) a)

    module _ (b : ℕ) (hb : b < u32_mod) where
      -- What lies in a half of a network lies in the network.
      pub network_address-inside :
          (network_address a (p + 1) ≡ network_address b p)
            ⊎ (network_address a (p + 1) ≡ network_address b p + stride)
          → network_address a p ≡ network_address b p
      network_address-inside h =
          let around = network_address-block b p (suc (31 - p)) (omega arith) hb in
          rw (parent, around)
            (elim h [
              | inl e ↦ block-lower (31 - p) a b (rw (child, around) at e)
              | inr e ↦ block-upper (31 - p) a b (rw (child, around) at e)
            ])
