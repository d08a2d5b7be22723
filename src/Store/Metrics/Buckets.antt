-- ===== src/Store/Metrics/Buckets.antt =====
-- internal/audit/storage/bunrepo/repository.go: the loop of Metrics over its buckets.
use turnstile_appcheck_gatew.Prelude.{
  ℕ, zero, suc, ◌+◌, ◌*◌, ◌/◌, ◌≤◌, ◌<◌, true, false, List, [], ◌∷◌, some, All, ltb, leb, leb→le,
  le→leb, lt→ltb, ltb→lt, eqb, eqb_iff, ◌≡◌, refl, sym, ap, ◌∙◌, arith, Bool-cases, inl, inr,
}
use turnstile_appcheck_gatew.Audit.Event.{Time, MetricRollup}
use turnstile_appcheck_gatew.Store.Metrics.{
  MetricPoint, sum_case, second, unix_epoch, unix, from_unix, count_at, points_from, add_point,
}

pub not_zero : (k : ℕ) → 0 < k → eqb k 0 ≡ false
not_zero k p = ground arith

abbrev pub sum_points : List MetricPoint → ℕ
sum_points [] = 0
sum_points (p ∷ ps) = p.count + sum_points ps

pub unix-from_unix : (n : ℕ) → unix (from_unix n) ≡ n
unfolding unix from_unix
unix-from_unix n = omega arith

unix-le : (t u : Time) → t ≤ u → unix t ≤ unix u
unfolding unix
unix-le t u h = omega arith

pub from_unix-le : (n : ℕ) (t : Time) → unix_epoch ≤ t → n ≤ unix t → from_unix n ≤ t
unfolding unix from_unix
from_unix-le n t e h = omega arith

from_unix_next : (k i : ℕ) → from_unix (i * k) + k * second ≡ from_unix (suc i * k)
unfolding from_unix
from_unix_next k i = grind arith

later_start :
    (k i to fuel : ℕ)
    → 0 < k
    → to < from_unix (i * k) + suc fuel
    → to < from_unix (suc i * k) + fuel
later_start k i to fuel p h = omega (arith, from_unix_next k i)

module _ (counts : ℕ → ℕ) (to : Time) (bucket : ℕ) where
  pub points_end :
      (fuel : ℕ) (ts : Time)
      → ltb to ts ≡ true
      → points_from (suc fuel) counts to bucket ts ≡ some []
  unfolding points_from
  points_end fuel ts l = rw l refl

  pub points_next :
      (fuel : ℕ) (ts : Time)
      → ltb to ts ≡ false
      → points_from (suc fuel) counts to bucket ts
        ≡ add_point
            (record { timestamp = ts; count = counts (unix ts) })
            (points_from fuel counts to bucket (ts + bucket))
  unfolding points_from
  points_next fuel ts l = rw l refl

module _ (seconds : ℕ) (p : 0 < seconds) where
  -- the number of the bucket that a rollup falls in
  pub index : MetricRollup → ℕ
  index r = unix r.bucket_start / seconds

  -- the count of the rollups from a bucket on
  pub count_from : ℕ → List MetricRollup → ℕ
  unfolding index
  count_from i rows = sum_case (λ (r : MetricRollup). leb i (index r)) (λ r. r.count) rows

  lt_bucket : (i j : ℕ) → i < j → i * seconds < j * seconds
  lt_bucket i j h = grind arith

  ne_bucket : (i j : ℕ) → eqb j i ≡ false → eqb (j * seconds) (i * seconds) ≡ false
  ne_bucket i j e = ground (arith, lt_bucket i j, lt_bucket j i)

  same_bucket : (i j : ℕ) → eqb (j * seconds) (i * seconds) ≡ eqb j i
  same_bucket i j = elim (Bool-cases (eqb j i)) [
    | inl e ↦ rw e (rw ((eqb_iff j i).0 e) ((eqb_iff (i * seconds) (i * seconds)).1 refl))
    | inr e ↦ rw e (ne_bucket i j e)
  ]

  mul_le_of_div : (i n : ℕ) → i ≤ n / seconds → i * seconds ≤ n
  mul_le_of_div i n h = grind arith

  div_mono : (m n : ℕ) → m ≤ n → m / seconds ≤ n / seconds
  div_mono m n h = grind arith

  count_from_next :
      (i : ℕ) (rows : List MetricRollup)
      → count_from i rows ≡ count_at seconds rows (i * seconds) + count_from (suc i) rows
  unfolding count_from count_at sum_case index
  count_from_next i [] = omega arith
  count_from_next i (r ∷ rows) =
      rw (same_bucket i (unix r.bucket_start / seconds)) (ground (arith, count_from_next i rows))

  abbrev pub InRange : Time → Time → MetricRollup → Type 0
  InRange from to r = (from ≤ r.bucket_start) × (r.bucket_start ≤ to)

  in_later_bucket :
      (i : ℕ) (to : Time) (r : MetricRollup)
      → unix_epoch ≤ r.bucket_start
      → r.bucket_start ≤ to
      → to < from_unix (i * seconds)
      → leb i (index r) ≡ false
  unfolding index
  in_later_bucket i to r e h l = elim (Bool-cases (leb i (unix r.bucket_start / seconds))) [
    | inl b ↦ absurd (
        omega (
          arith,
          from_unix-le (i * seconds) r.bucket_start e
              (mul_le_of_div i (unix r.bucket_start) (leb→le i (unix r.bucket_start / seconds) b)),
        ))
    | inr b ↦ b
  ]

  count_from_later :
      (i : ℕ) (to : Time) (rows : List MetricRollup)
      → All (InRange unix_epoch to) rows
      → to < from_unix (i * seconds)
      → count_from i rows ≡ 0
  unfolding count_from sum_case
  count_from_later i to [] a l = refl
  count_from_later i to (r ∷ rows) a l =
      rw (in_later_bucket i to r a.0.0 a.0.1 l) (omega (arith, count_from_later i to rows a.1 l))

  pub count_from_first :
      (from : Time) (to : Time) (rows : List MetricRollup)
      → All (InRange from to) rows
      → count_from (unix from / seconds) rows
        ≡ sum_case (λ (r : MetricRollup). true) (λ r. r.count) rows
  unfolding count_from sum_case index
  count_from_first from to [] a = refl
  count_from_first from to (r ∷ rows) a =
      rw
        (le→leb (unix from / seconds) (unix r.bucket_start / seconds)
          (div_mono (unix from) (unix r.bucket_start) (unix-le from r.bucket_start a.0.0)))
        (ap (λ n. r.count + n) (count_from_first from to rows a.1))

  abbrev pub Counts : ℕ → List MetricRollup → Time → ℕ → Type 0
  Counts fuel rows to i =
      (points : List MetricPoint) × (points_from (suc fuel) (count_at seconds rows) to
          (seconds * second) (from_unix (i * seconds))
        ≡ some points)
      × (sum_points points ≡ count_from i rows)

  one_more :
      (fuel : ℕ) (rows : List MetricRollup) (to : Time) (i : ℕ)
      → ltb to (from_unix (i * seconds)) ≡ false
      → Counts fuel rows to (suc i)
      → Counts (suc fuel) rows to i
  one_more fuel rows to i l (points, e, s) =
      let ts = from_unix (i * seconds) in
      let point : MetricPoint = record {
        timestamp = ts;
        count = count_at seconds rows (unix ts);
      } in
      (
        point ∷ points,
        points_next (count_at seconds rows) to (seconds * second) (suc fuel) ts l
            ∙ rw (from_unix_next seconds i) (rw e refl),
        rw (unix-from_unix (i * seconds)) (omega (arith, count_from_next i rows)),
      )

  -- the points from a bucket on are there, and count the rollups from it on
  pub points_from-Counts :
      (fuel : ℕ) (rows : List MetricRollup) (to : Time) (i : ℕ)
      → All (InRange unix_epoch to) rows
      → to < from_unix (i * seconds) + fuel
      → Counts fuel rows to i
  points_from-Counts zero rows to i a h =
      let l = lt→ltb to (from_unix (i * seconds)) (omega arith) in
      (
        [],
        points_end (count_at seconds rows) to (seconds * second) zero (from_unix (i * seconds)) l,
        sym (count_from_later i to rows a (omega arith)),
      )
  points_from-Counts (suc fuel) rows to i a h =
      elim (Bool-cases (ltb to (from_unix (i * seconds)))) [
        | inl l ↦ (
          [],
          points_end (count_at seconds rows) to (seconds * second) (suc fuel)
              (from_unix (i * seconds)) l,
          sym (count_from_later i to rows a (ltb→lt to (from_unix (i * seconds)) l)),
        )
        | inr l ↦
            one_more fuel rows to i l
              (points_from-Counts fuel rows to (suc i) a (later_start seconds i to fuel p h))
      ]
