-- ===== src/Worker/Timing.antt =====
-- The alarm and the delays of the coordinator.
use ultratokenizer.Base.{
  ℕ, ◌==◌, zero, suc, ◌-◌, ◌*◌, ◌^◌, ◌≤◌, min, false, ◌≡◌, Option, none, some, arith,
}
use ultratokenizer.Worker.Model.{retry_delay}
use ultratokenizer.Worker.Database.{Database}

delay_bounds :
    (k : ℕ) → k ≤ 6 → (5000 ≤ min (5000 * 2 ^ k) 300000) × (min (5000 * 2 ^ k) 300000 ≤ 300000)
delay_bounds zero h = omega arith
delay_bounds (suc zero) h = omega arith
delay_bounds (suc (suc zero)) h = omega arith
delay_bounds (suc (suc (suc zero))) h = omega arith
delay_bounds (suc (suc (suc (suc zero)))) h = omega arith
delay_bounds (suc (suc (suc (suc (suc zero))))) h = omega arith
delay_bounds (suc (suc (suc (suc (suc (suc zero)))))) h = omega arith
delay_bounds (suc (suc (suc (suc (suc (suc (suc k))))))) h = absurd (omega arith)

-- From the first attempt on, the delay before the next check is between five seconds and five
-- minutes.
pub retry_delay-bounds :
    (attempt : ℕ) → 1 ≤ attempt → (5000 ≤ retry_delay attempt) × (retry_delay attempt ≤ 300000)
unfolding retry_delay
retry_delay-bounds attempt h =
    let first : (attempt == 0) ≡ false = ground (arith, h) in
    rw first (delay_bounds (min (attempt - 1) 6) (omega arith))

-- The alarm is set, for this time or before.
abbrev pub IsBy : Option ℕ → ℕ → Type 0
IsBy none time = ⊥
IsBy (some a) time = a ≤ time
