-- ===== src/Routing/Prefix/Networks.antt =====
-- What a network is: an aligned address, with a prefix length of at most 32.
use native.Mathlib.Nat.{one-le-pow, mul-div_cancel, div-mul-le_self, pow-suc}
use leshy.Prelude.{suc, ℕ, ◌+◌, ◌-◌, ◌*◌, ◌/◌, ◌^◌, ◌≤◌, ◌<◌, ◌≡◌, ◌∙◌, ap, arith}
use leshy.Prelude.Word.{u32_mod, mul-two-pow-suc}
use leshy.Routing.Prefix.{network_address}
use leshy.Routing.Prefix.Blocks.{
  block, stride, high_part-lt, two_pow_32, network_address-block, network_address_mono,
}

pub record IsNetwork (net prefix : ℕ) : Type 0 where
  pub address : net < u32_mod
  pub bounded : prefix ≤ 32
  pub aligned : network_address net prefix ≡ net

block-multiple : (k m : ℕ) → block k (m * 2 ^ k) ≡ m * 2 ^ k
block-multiple k m = ap (λ (x : ℕ). x * 2 ^ k) (mul-div_cancel m (one-le-pow k 2 (omega arith)))

block-le : (k a : ℕ) → block k a ≤ a
block-le k a = div-mul-le_self a (2 ^ k)

-- A multiple of the size of a network is one.
multiple-IsNetwork : (p k m : ℕ) → p + k ≡ 32 → m * 2 ^ k < u32_mod → IsNetwork (m * 2 ^ k) p
multiple-IsNetwork p k m e lt = record {
  address = lt;
  bounded = omega arith;
  aligned = network_address-block (m * 2 ^ k) p k e lt ∙ block-multiple k m;
}

pub network_address-IsNetwork : (a p : ℕ) → a < u32_mod → p ≤ 32 → IsNetwork (network_address a p) p
network_address-IsNetwork a p ha p32 =
    let k = 32 - p in
    let e : p + k ≡ 32 = omega arith in
    rw (network_address-block a p k e ha)
      (multiple-IsNetwork p k (a / 2 ^ k) e (omega (arith, block-le k a)))

-- The wider network around a network is the one around its addresses.
pub network_address-wider :
    (p q a : ℕ)
    → p ≤ q
    → q ≤ 32
    → a < u32_mod
    → network_address (network_address a q) p ≡ network_address a p
network_address-wider p q a pq q32 ha =
    let n = network_address-IsNetwork a q ha q32 in
    network_address_mono p q (network_address a q) a pq q32 n.address ha n.aligned

-- The upper half of a network is one, and so is the lower half.
two_times : (x t : ℕ) → 2 * (x * t) ≡ 2 * x * t
two_times x t = grind arith

odd_times : (x t : ℕ) → 2 * x * t + t ≡ (2 * x + 1) * t
odd_times x t = grind arith

odd-lt : (x y t : ℕ) → x < y → 0 < t → (2 * x + 1) * t < y * (t * 2)
odd-lt x y t lt pos = grind arith

module _ (p : ℕ) (p32 : p < 32) (a : ℕ) (ha : a < u32_mod) where
  abbrev half : ℕ
  half = 31 - p

  abbrev index : ℕ
  index = a / 2 ^ (suc half)

  lower-multiple : network_address a p ≡ 2 * index * 2 ^ half
  lower-multiple =
      network_address-block a p (suc half) (omega arith) ha
      ∙ mul-two-pow-suc index half
      ∙ two_times index (2 ^ half)

  upper-lt : (2 * index + 1) * 2 ^ half < u32_mod
  upper-lt =
      let high = high_part-lt a p (suc half) (omega arith) ha in
      let lt = odd-lt index (2 ^ p) (2 ^ half) high (one-le-pow half 2 (omega arith)) in
      omega (
        arith,
        lt,
        two_pow_32 p (suc half) (omega arith),
        ap (λ (x : ℕ). 2 ^ p * x) (pow-suc 2 half),
      )

  pub lower-IsNetwork : IsNetwork (network_address a p) (p + 1)
  lower-IsNetwork = rw lower-multiple (
      multiple-IsNetwork (p + 1) half (2 * index) (omega arith)
        (omega (arith, upper-lt, odd_times index (2 ^ half))))

  pub upper-IsNetwork : IsNetwork (network_address a p + stride p p32) (p + 1)
  upper-IsNetwork =
      let e : network_address a p + stride p p32 ≡ (2 * index + 1) * 2 ^ half =
        ap (λ (x : ℕ). x + 2 ^ half) lower-multiple ∙ odd_times index (2 ^ half) in
      rw e (multiple-IsNetwork (p + 1) half (2 * index + 1) (omega arith) upper-lt)
