-- ===== src/Cache/Index/Shards.antt =====
-- src/cache/availability_index.rs: the bucket of a hash lies in its shard.
use native.Mathlib.Nat.{mul-le-mul_left, div-add-mod, mod-lt}
use nntp_proxy.Base.{
  ℕ, ◌+◌, ◌*◌, ◌/◌, ◌%◌, ◌^◌, ◌<◌, ◌≤◌, ◌≡◌, arith, inl, inr, ltb, ◌==◌, if◌then◌else◌, false,
  Bool-cases,
}
use Prim.Native.Nat.{bit_xor}
use nntp_proxy.Cache.Index.{block_index, locate_hash, blocks_of_shard}

bucket-lt : (g n d : ℕ) → 0 < d → g < n → g / d < n / d + (if ltb (g % d) (n % d) then 1 else 0)
bucket-lt g n d h l =
    let e = div-add-mod g d in
    let f = div-add-mod n d in
    let u = mod-lt g h in
    let v = mod-lt n h in
    elim (Bool-cases (ltb (g / d) (n / d))) [
      | inl c ↦ ground (arith, c)
      | inr c ↦ elim (Bool-cases (g / d == n / d)) [
        | inl s ↦ ground (arith, e, f, u, v, l, s, c)
        | inr s ↦
            let more : n / d + 1 ≤ g / d = ground (arith, c, s) in
            let q = mul-le-mul_left d more in absurd (omega (arith, q, e, f, v, l))
      ]
    ]

-- The bucket that a hash is sent to lies in its shard, and together with the shard it still tells the
-- bucket of the unpartitioned generation, so that the shards split the buckets among them. For at
-- least one block and at least one shard.
pub locate_hash_lem :
    (shards blocks hash : ℕ)
    → 0 < shards
    → 0 < blocks
    → ((locate_hash shards blocks hash).0 < shards)
      × ((locate_hash shards blocks hash).1
          < blocks_of_shard shards blocks (locate_hash shards blocks hash).0)
      × (shards * (locate_hash shards blocks hash).1 + (locate_hash shards blocks hash).0
          ≡ block_index hash blocks)
      × (block_index hash blocks < blocks)
unfolding locate_hash block_index
locate_hash_lem shards blocks hash h k =
    let n : (blocks == 0) ≡ false = ground (arith, k) in
    let g = bit_xor (hash / 2 ^ 32) hash % blocks in
    let l = mod-lt (bit_xor (hash / 2 ^ 32) hash) k in
    rw n (mod-lt g h, bucket-lt g blocks shards h l, div-add-mod g shards, l)
