-- ===== src/Store/Metrics/Totals.antt =====
-- internal/audit/storage/bunrepo/repository.go: the numbers of a summary, and the points of the metrics,
-- add up.
use turnstile_appcheck_gatew.Prelude.{
  String, ℕ, ◌+◌, ◌≤◌, Bool, true, false, not, ◌&&◌, List, [], ◌∷◌, ◌≡◌, refl, arith,
}
use turnstile_appcheck_gatew.Audit.Event.{result_success}
use turnstile_appcheck_gatew.Store.Metrics.{Summary, Columns, sum_case, summary_of}

module _ {ℓ} {A : Type ℓ} (weight : A → ℕ) where
  -- a test and its opposite share the rows
  sum_split :
      (p : A → Bool) (xs : List A)
      → sum_case p weight xs + sum_case (λ x. not (p x)) weight xs ≡ sum_case (λ x. true) weight xs
  unfolding sum_case
  sum_split p [] = omega arith
  sum_split p (x ∷ xs) = ground (arith, sum_split p xs)

  -- two tests that exclude each other, below a third
  sum_pair :
      (p q r : A → Bool)
      → ((x : A)
          → ((p x && q x) ≡ false) × ((p x && not (r x)) ≡ false) × ((q x && not (r x)) ≡ false))
      → (xs : List A) → sum_case p weight xs + sum_case q weight xs ≤ sum_case r weight xs
  unfolding sum_case
  sum_pair p q r h [] = omega arith
  sum_pair p q r h (x ∷ xs) = ground (arith, sum_pair p q r h xs, h x)

-- the parts of a summary agree
pub record IsConsistent (s : Summary) : Type 0 where
  pub outcomes : s.successful + s.failed ≡ s.total
  pub successes : s.exchange_successes + s.verify_successes ≤ s.successful
  pub failures : s.exchange_failures + s.verify_failures ≤ s.failed
  pub errors : s.count4xx + s.count5xx ≤ s.total

exclusive :
    (a b c : Bool)
    → (a && b) ≡ false
    → (((a && c) && (b && c)) ≡ false)
      × (((a && c) && not c) ≡ false)
      × (((b && c) && not c) ≡ false)
exclusive true true c h = cc
exclusive true false true h = (refl, refl, refl)
exclusive true false false h = (refl, refl, refl)
exclusive false true true h = (refl, refl, refl)
exclusive false true false h = (refl, refl, refl)
exclusive false false c h = (refl, refl, refl)

-- The numbers of a summary agree, for events as for rollups: successes and failures make the total, the
-- exchanges and verifications are among them, and the errors of the two classes are at most the total.
-- No text of an action equals both of the names that the query compares it with.
pub summary_of-IsConsistent {ℓ} :
    {A : Type ℓ} (c : Columns A) (rows : List A)
    → ((action : String)
        → (c.same action "exchange.request" && c.same action "verify.request") ≡ false)
    → IsConsistent (summary_of c rows)
unfolding summary_of
summary_of-IsConsistent {A} c rows distinct =
    let succeeded = λ (x : A). c.same (c.result x) result_success in
    let is_exchange = λ (x : A). c.same (c.action x) "exchange.request" in
    let is_verify = λ (x : A). c.same (c.action x) "verify.request" in
    record {
      outcomes = sum_split c.weight succeeded rows;
      successes =
          sum_pair c.weight _ _ _
            (λ x. exclusive (is_exchange x) (is_verify x) (succeeded x) (distinct (c.action x)))
            rows;
      failures =
          sum_pair c.weight _ _ _
            (λ x.
              exclusive (is_exchange x) (is_verify x) (not (succeeded x)) (distinct (c.action x)))
            rows;
      errors = sum_pair c.weight _ _ (λ x. true) (λ x. ground arith) rows;
    }
