-- ===== src/Ax25/Airtime/Window.antt =====
-- The sums over a window of bursts in src/ax25/airtime.rs.
use rfircd.Prelude.{
  ℕ, ◌+◌, ◌-◌, ◌≤◌, ◌≡◌, refl, inl, inr, List, [], ◌∷◌, ◌++◌, some, arith, Option-cases,
}
use rfircd.Ax25.Airtime.{Burst, airtime_within, trim, retry_bursts, retry_delay}

-- As time goes on, less is in the window.
pub airtime_within-later :
    (bs : List Burst) (now later window : ℕ)
    → now ≤ later
    → airtime_within bs later window ≤ airtime_within bs now window
unfolding airtime_within
airtime_within-later [] now later window h = omega arith
airtime_within-later (b ∷ bs) now later window h =
    ground (arith, airtime_within-later bs now later window)

-- What is older than a horizon beyond the window is not counted, so that dropping it changes nothing.
pub airtime_within-trim :
    (bs : List Burst) (horizon now later window : ℕ)
    → window ≤ horizon
    → now ≤ later
    → airtime_within (trim horizon now bs) later window ≡ airtime_within bs later window
unfolding airtime_within trim
airtime_within-trim [] horizon now later window h l = refl
airtime_within-trim (b ∷ bs) horizon now later window h l =
    ground (arith, airtime_within-trim bs horizon now later window)

pub airtime_within-append :
    (bs cs : List Burst) (now window : ℕ)
    → airtime_within (bs ++ cs) now window
      ≡ airtime_within bs now window + airtime_within cs now window
unfolding airtime_within
airtime_within-append [] cs now window = omega arith
airtime_within-append (b ∷ bs) cs now window =
    ground (arith, airtime_within-append bs cs now window)

pub airtime_within-one :
    (end len now window : ℕ)
    → airtime_within (record { end = end; len = len } ∷ []) now window ≤ len
unfolding airtime_within
airtime_within-one end len now window = ground arith

retry_bursts-pos :
    (now window allowance cost used : ℕ) (bs : List Burst) {delay : ℕ}
    → retry_bursts now window allowance cost used bs ≡ some delay
    → 1 ≤ delay
unfolding retry_bursts
retry_bursts-pos now window allowance cost used [] h = absurd (cc)
retry_bursts-pos now window allowance cost used (b ∷ bs) {delay} h = ground (
  arith,
  retry_bursts-pos now window allowance cost used bs {delay = delay},
  retry_bursts-pos now window allowance cost (used - b.len) bs {delay = delay},
)

-- A frame that does not fit waits for some time.
pub retry_delay-pos :
    (bs : List Burst) (now window allowance cost : ℕ) → 1 ≤ retry_delay bs now window allowance cost
unfolding retry_delay
retry_delay-pos bs now window allowance cost =
    elim (Option-cases (retry_bursts now window allowance cost (airtime_within bs now window) bs)) [
      | inl ends ↦ rw (retry_delay, ends) (omega arith)
      | inr (delay, found) ↦
          rw (retry_delay, found)
            (retry_bursts-pos now window allowance cost (airtime_within bs now window) bs found)
    ]
