-- ===== src/Billing/Service/Soundness.antt =====
-- Service.Reserve and Service.Release (internal/billing/service.go) keep the books sound.
use bablo.Prelude.{
  IsInt64, subst, sym, ◌≡◌, refl, ℤ, pos, eqb_ℤ, Bool, true, false, arith, if◌then◌else◌, ◌==◌,
}
use bablo.Billing.Model.{nil_uuid, Result, ok, err, ReserveInput, ReleaseInput, CreditInput, Quote}
use bablo.Billing.Quote.Bounds.{IsQuoted, calculate_quote-IsQuoted}
use bablo.Billing.Store.Tables.{Db}
use bablo.Billing.Store.Tx.{Tx, pure, throw}
use bablo.Billing.Store.Statements.{Env}
use bablo.Billing.Reserve.Soundness.{reserve-IsSound}
use bablo.Billing.Release.Soundness.{release-IsSound}
use bablo.Billing.Credit.Soundness.{credit-IsSound}
use bablo.Billing.Service.{
  normalize_credit_input, service_credit, with_result, free_reservation, reserve_quote,
  reserve_normalized, service_reserve, service_release,
}
use bablo.Billing.Books.Sound.{IsSound}

-- A call without effects, and what is done with its result.
with_result-IsSound :
    {A B : Type 0} (m : Result A) (f : A → Tx B) (db : Db)
    → IsSound db
    → ((a : A) → m ≡ ok a → IsSound (f a db).1)
    → IsSound (with_result m f db).1
unfolding with_result throw
with_result-IsSound (ok a) f db s h = h a refl
with_result-IsSound (err e) f db s h = s

if-IsSound :
    {A : Type 0} (c : Bool) (m n : Tx A) (db : Db)
    → (c ≡ true → IsSound (m db).1)
    → (c ≡ false → IsSound (n db).1)
    → IsSound ((if c then m else n) db).1
if-IsSound true m n db h k = h refl
if-IsSound false m n db h k = k refl

pure-IsSound : {A : Type 0} (a : A) (db : Db) → IsSound db → IsSound (pure a db).1
unfolding pure
pure-IsSound a db s = s

reserve_quote-IsSound :
    (env : Env) (input : ReserveInput) (quote : Quote) (db : Db)
    → IsQuoted quote
    → IsSound db
    → IsSound (reserve_quote env input quote db).1
unfolding reserve_quote
reserve_quote-IsSound env input quote db quoted s =
    if-IsSound (eqb_ℤ quote.amount_minor (pos 0)) _ _ db
      (λ free. pure-IsSound (free_reservation env input quote) db s)
      (λ charged. reserve-IsSound env input quote db (ground arith) s)

-- Whatever the request, the prices and the usage are, Service.Reserve keeps the books sound, whether
-- it succeeds or fails: each wallet's balances stay those of its ledger and of its open
-- reservations, not negative and within int64.
pub service_reserve-IsSound :
    (env : Env) (default_output : ℤ) (input : ReserveInput) (db : Db)
    → IsSound db
    → IsSound (service_reserve env default_output input db).1
unfolding service_reserve reserve_normalized
service_reserve-IsSound env default_output input db s =
    with_result-IsSound _ _ db s (λ normalized _. with_result-IsSound _ _ db s (λ quote quoted.
      reserve_quote-IsSound env normalized quote db
        (calculate_quote-IsQuoted normalized.price normalized.estimated_usage quoted) s))

-- Service.Release keeps the books sound, whether it succeeds or fails.
pub service_release-IsSound :
    (env : Env) (input : ReleaseInput) (db : Db)
    → IsSound db
    → IsSound (service_release env input db).1
unfolding service_release
service_release-IsSound env input db s =
    if-IsSound (input.reservation_id == nil_uuid) _ _ db (λ _. pure-IsSound tt db s)
      (λ _. release-IsSound env _ db s)

normalize_credit_input-amount :
    (input : CreditInput) {n : CreditInput}
    → normalize_credit_input input ≡ ok n
    → n.amount_minor ≡ input.amount_minor
unfolding normalize_credit_input
normalize_credit_input-amount input {n} h = ground arith

-- Service.Credit of an int64 amount keeps the books sound, whether it succeeds or fails: each
-- wallet's balances stay those of its ledger and of its open reservations, not negative and within
-- int64, and no liability is recovered beyond its principal.
pub service_credit-IsSound :
    (env : Env) (input : CreditInput) (db : Db)
    → IsInt64 input.amount_minor
    → IsSound db
    → IsSound (service_credit env input db).1
unfolding service_credit
service_credit-IsSound env input db int64 s = with_result-IsSound _ _ db s (λ n normal.
    credit-IsSound env n db (subst IsInt64 (sym (normalize_credit_input-amount input normal)) int64)
      s)
