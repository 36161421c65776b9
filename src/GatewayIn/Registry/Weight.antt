-- ===== src/GatewayIn/Registry/Weight.antt =====
-- The weights of `failbackWeight` over time.
use marketmesh.Prelude.{ℕ, ◌+◌, ◌*◌, ◌/◌, ◌^◌, ◌≤◌, ◌<◌, ◌≡◌, refl, ◌⊎◌, inl, inr, arith}
use native.Mathlib.Nat.{le-div_iff_mul-le, div-mul-le_self, div-le_of_le-mul}
use marketmesh.Protocol.Payloads.{pos}
use marketmesh.GatewayIn.Registry.{wrap_int64, share_of, failback_weight}

lt_cases : (m n : ℕ) → (m < n) ⊎ (n ≤ m)
lt_cases m n = omega arith

share_le : (e w : ℕ) → e < w → e * 900 / w ≤ 900
share_le e w h = div-le_of_le-mul w (omega arith)

share_grows : (e e' w : ℕ) → 0 < w → e ≤ e' → e * 900 / w ≤ e' * 900 / w
share_grows e e' w p h = (le-div_iff_mul-le p).1 (omega (arith, div-mul-le_self (e * 900) w))

-- The product of an elapsed time within the warmup does not wrap.
no_wrap : (n : ℕ) → n < 2 ^ 63 → wrap_int64 n ≡ pos n
unfolding wrap_int64
no_wrap n h = ground arith

share_is :
    (e w : ℕ) → e * 900 < 2 ^ 63 → share_of (wrap_int64 (e * 900)) w ≡ pos (100 + e * 900 / w)
unfolding share_of
share_is e w h = rw (no_wrap (e * 900) h) refl

within_warmup :
    (e w : ℕ)
    → 0 < w
    → w ≤ 600000000000
    → e < w
    → failback_weight (pos e) (pos w) ≡ pos (100 + e * 900 / w)
unfolding failback_weight share_of
within_warmup e w p most h = ground (arith, share_is e w (omega arith), nothing_yet)
  where
    nothing_yet : 0 * 900 / w ≡ 0
    nothing_yet = omega arith

after_warmup : (e w : ℕ) → w ≤ e → failback_weight (pos e) (pos w) ≡ pos 1000
unfolding failback_weight
after_warmup e w h = ground arith

-- Traffic returns step by step. For a warmup of at most ten minutes, the most that the settings allow,
-- and times that are not negative, in nanoseconds: the weight of a data center is between 100 and 1000,
-- no less after a longer time, and 1000 once the warmup is over.
pub failback_weight_grows :
    (elapsed later warmup : ℕ)
    → warmup ≤ 600000000000
    → elapsed ≤ later
    → (a : ℕ) × ((b : ℕ) × (((failback_weight (pos elapsed) (pos warmup) ≡ pos a)
            × (failback_weight (pos later) (pos warmup) ≡ pos b))
          × (((100 ≤ a) × (a ≤ b)) × ((b ≤ 1000) × (warmup ≤ later → b ≡ 1000)))))
failback_weight_grows e l w most h = elim (lt_cases e w) [
  | inr past ↦ (
    1000,
    (
      1000,
      (
        (after_warmup e w past, after_warmup l w (omega arith)),
        (omega arith, (omega arith, λ x. refl)),
      ),
    ),
  )
  | inl early ↦ elim (lt_cases l w) [
    | inl still ↦
        let grows = share_grows e l w (omega arith) h in
        (
          100 + e * 900 / w,
          (
            100 + l * 900 / w,
            (
              (
                within_warmup e w (omega arith) most early,
                within_warmup l w (omega arith) most still,
              ),
              (
                omega (arith, grows),
                (omega (arith, share_le l w still), λ x. absurd (omega arith)),
              ),
            ),
          ),
        )
    | inr past ↦ (
      100 + e * 900 / w,
      (
        1000,
        (
          (within_warmup e w (omega arith) most early, after_warmup l w past),
          (omega (arith, share_le e w early), (omega arith, λ x. refl)),
        ),
      ),
    )
  ]
]
