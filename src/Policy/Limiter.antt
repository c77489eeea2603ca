-- ===== src/Policy/Limiter.antt =====
-- The size of the table of a rate limiter, src/policy.rs.
use rfircd.Prelude.{ℕ, ◌-◌, ◌≤◌, arith, Text, ltb, length, length-keep-le}
use rfircd.Prelude.Assoc.{
  Distinct, length-insert-make_room, insert-make_room-Distinct, keep-Distinct,
}
use rfircd.Prelude.Chars.{text_eq}
use rfircd.Prelude.Float.{Float}
use rfircd.Policy.{Bucket, RateLimiter, max_buckets, new, check, expire}

module _ {fl : Float} where
  pub record IsBounded (l : RateLimiter fl) : Type 0 where
    pub distinct : Distinct l.buckets
    pub size : length l.buckets ≤ max_buckets

  pub new-IsBounded : (per_minute burst : ℕ) → IsBounded (new {fl = fl} per_minute burst)
  unfolding new
  new-IsBounded per_minute burst = record { distinct = tt; size = omega arith }

  -- However many keys come, a limiter that has no more than 4096 buckets, each key once, has no more
  -- after a check or an expiry.
  pub limiter-IsBounded :
      (l : RateLimiter fl) (key : Text) (now idle_for : ℕ)
      → IsBounded l
      → IsBounded (check l key now).0 × IsBounded (expire l now idle_for)
  unfolding check expire
  limiter-IsBounded l key now idle_for v = (
    record {
      distinct =
          insert-make_room-Distinct (λ (b : Bucket fl). b.last) key _ max_buckets l.buckets
            v.distinct;
      size = length-insert-make_room (λ (b : Bucket fl). b.last) key _ max_buckets l.buckets v.size;
    },
    record {
      distinct = keep-Distinct _ l.buckets v.distinct;
      size = omega (
        arith,
        v.size,
        length-keep-le (λ (b : Text × Bucket fl). ltb (now - b.1.last) idle_for) l.buckets,
      );
    },
  )
