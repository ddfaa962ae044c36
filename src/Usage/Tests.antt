-- ===== src/Usage/Tests.antt =====
-- The outbox at three rows: one waits, one is leased and one is published.
use bablo.Prelude.{
  ℕ, ℤ, pos, true, false, Option, none, some, [], ◌∷◌, map, any, Text, codes, ◌≡◌, refl, ◌-ℤ◌,
  text_eq, negsuc,
}
use bablo.Usage.Outbox.{
  OutboxStatus, pending, processing, published, failed, OutboxEvent, Outbox, not_owned, claim_rows,
  publish_row, fail_row, is_claimable, is_stale, candidates, due_rows, order_rows, insert_row,
  comes_before, leased_to, lease_chosen, update_owned, owned_count, is_owned, is_claimed_by,
  if_owned, as_published, or_now, outbox_ownership_error, ownership_of,
}
use bablo.Usage.Outbox.Delivery.{row, has_id, claim_rows-leaves, IsKeyed, held}
use bablo.Usage.Outbox.Answers.{IsAnswered, acknowledge-IsAnswered}
use bablo.Usage.Outbox.Service.{claim_outbox, IsWithin, claim_outbox-IsWithin}
use bablo.Usage.Outbox.Settled.{claims, publishes, stays, follows, settled-stays}

abbrev first_worker : Text
first_worker = codes "w1"

abbrev second_worker : Text
second_worker = codes "w2"

abbrev row_of : ℕ → OutboxStatus → Option ℤ → Option Text → Option ℤ → OutboxEvent
row_of id status claimed_at claimed_by published_at = record {
  id = id;
  aggregate_type = codes "usage_event";
  aggregate_id = id;
  event_type = codes "usage.recorded";
  idempotency_key = [];
  payload = [];
  status = status;
  attempts = 0;
  next_attempt_at = pos 100;
  claimed_at = claimed_at;
  claimed_by = claimed_by;
  published_at = published_at;
  last_error_class = none;
  created_at = pos id;
}

abbrev leased_row : OutboxEvent
leased_row = row_of 2 processing (some (pos 150)) (some first_worker) none

abbrev published_row : OutboxEvent
published_row = row_of 3 published none none (some (pos 120))

abbrev three_rows : Outbox
three_rows = row_of 1 pending none none none ∷ leased_row ∷ published_row ∷ []

-- A second worker gets the row that waits, and not the one that is leased.
second_claim : map (λ e. e.id) (claim_rows second_worker 5 (pos 30) (pos 160) three_rows).0 ≡ 1 ∷ []
unfolding claim_rows candidates due_rows order_rows insert_row is_claimable is_stale ◌-ℤ◌ leased_to
second_claim = refl

-- Once the lease is over it gets both, in their order, and the first worker has lost its row.
late_claim :
    map (λ e. e.id) (claim_rows second_worker 5 (pos 30) (pos 200) three_rows).0 ≡ 1 ∷ 2 ∷ []
unfolding claim_rows candidates due_rows order_rows insert_row is_claimable is_stale ◌-ℤ◌ leased_to
    comes_before
late_claim = refl

lost_lease :
    (publish_row 2 first_worker
      (pos 0)
      (pos 210)
      (claim_rows second_worker 5 (pos 30) (pos 200) three_rows).1).0
    ≡ some not_owned
unfolding publish_row update_owned claim_rows candidates due_rows order_rows insert_row is_claimable
    is_stale ◌-ℤ◌ leased_to lease_chosen comes_before owned_count is_owned is_claimed_by if_owned
    as_published or_now outbox_ownership_error ownership_of text_eq
lost_lease = refl

claim_rows-leaves_example :
    (row 2 (claim_rows second_worker 5 (pos 30) (pos 160) three_rows).1 ≡ some leased_row)
    × (any (has_id 2) (claim_rows second_worker 5 (pos 30) (pos 160) three_rows).0 ≡ false)
unfolding is_claimable is_stale ◌-ℤ◌
claim_rows-leaves_example =
    claim_rows-leaves second_worker 5 (pos 30) (pos 160) three_rows 2 leased_row
      (refl, (refl, (refl, tt))) refl (held (pos 150) refl refl refl)

abbrev timed_out : OutboxEvent → OutboxEvent
timed_out e = record e {
  status = failed;
  next_attempt_at = pos 170;
  last_error_class = some (codes "timeout");
  claimed_at = none;
  claimed_by = none;
}

abbrev delivered_at : ℤ → OutboxEvent → OutboxEvent
delivered_at at e = record e {
  status = published;
  published_at = some at;
  claimed_at = none;
  claimed_by = none;
}

acknowledge-IsAnswered_example :
    IsAnswered 2 first_worker
      (delivered_at (pos 170))
      three_rows
      (publish_row 2 first_worker (pos 0) (pos 170) three_rows)
    × IsAnswered 2 first_worker timed_out three_rows
        (fail_row 2 first_worker (codes "timeout") (pos 0) true (pos 170) three_rows)
acknowledge-IsAnswered_example =
    acknowledge-IsAnswered 2 first_worker (codes "timeout") (pos 0) (pos 170) true three_rows
      (refl, (refl, (refl, tt)))

abbrev after_claim : Outbox
after_claim = (claim_rows second_worker 5 (pos 30) (pos 200) three_rows).1

abbrev after_both : Outbox
after_both = (publish_row 1 second_worker (pos 0) (pos 210) after_claim).1

settled-stays_example : IsKeyed after_both × (row 3 after_both ≡ some published_row)
settled-stays_example =
    settled-stays 3 published_row three_rows after_both
      (follows _ _ _ (claims three_rows second_worker 5 (pos 30) (pos 200))
        (follows _ _ _ (publishes after_claim 1 second_worker (pos 0) (pos 210)) (stays _)))
      (refl, (refl, (refl, tt))) refl refl

claim_outbox-IsWithin_example :
    IsWithin second_worker
      (negsuc 2)
      (pos 30000000000)
      three_rows
      (claim_outbox second_worker (negsuc 2) (pos 0) (pos 200) three_rows)
claim_outbox-IsWithin_example =
    claim_outbox-IsWithin second_worker (negsuc 2) (pos 0) (pos 200) three_rows
