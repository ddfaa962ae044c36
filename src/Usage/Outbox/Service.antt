-- ===== src/Usage/Outbox/Service.antt =====
-- Service.ClaimOutbox, MarkOutboxPublished and MarkOutboxFailed of internal/usage/service.go: the
-- checks before the transactions. The nil checks of the service are left out.
use bablo.Prelude.{
  ℕ, suc, zero, ◌==◌, ◌≤◌, ltb, ℤ, pos, ltb_ℤ, eqb_ℤ, Bool, true, not, ◌&&◌, ◌||◌, Option, some, [],
  ◌∷◌, map, length, take, Text, text_eq, trim_space, byte_len, contains_any, is_empty, ◌≡◌, refl,
  ap, ◌∙◌, subst, pos_part, negsuc, ◌≤ℤ◌, if◌then◌else◌, arith, Bool-cases, inl, inr, ◌⊎◌, ◌-ℤ◌,
  false,
}
use bablo.Usage.Outbox.{
  OutboxEvent, Outbox, OutboxError, invalid_input, claim_rows, publish_row, fail_row, or_now,
  candidates, leased_to, order_rows, due_rows,
}

-- "\r\n\x00".
abbrev pub breaks : Text
breaks = 13 ∷ 10 ∷ 0 ∷ []

unfoldable pub normalize_text : Text → ℕ → Text
normalize_text value max =
    let trimmed = trim_space value in
    if is_empty trimmed || (ltb max (byte_len trimmed) || contains_any trimmed breaks)
    then []
    else trimmed

-- normalizeWorkerID: it returns its argument or an error.
unfoldable pub is_worker_id : Text → Bool
is_worker_id value = text_eq value (trim_space value) && not (is_empty (normalize_text value 128))

abbrev pub second : ℤ
second = pos 1000000000

abbrev pub day : ℤ
day = pos 86400000000000

unfoldable pub default_limit : ℤ → ℤ
default_limit limit = if eqb_ℤ limit (pos 0) then pos 32 else limit

unfoldable pub default_lease : ℤ → ℤ
default_lease lease = if eqb_ℤ lease (pos 0) then pos 30000000000 else lease

unfoldable pub is_claim : Text → ℤ → ℤ → Bool
is_claim worker limit lease =
    is_worker_id worker
    && (not (ltb_ℤ limit (pos 1) || ltb_ℤ (pos 100) limit)
        && not (ltb_ℤ lease second || ltb_ℤ day lease))

-- The limit that the repository is called with is positive.
unfoldable pub claim_outbox : Text → ℤ → ℤ → ℤ → Outbox → (OutboxError ⊎ Outbox) × Outbox
unfolding is_claim
claim_outbox worker limit lease now t =
    let n = default_limit limit in
    let l = default_lease lease in
    if is_claim worker n l
    then (let (events, t') = claim_rows worker (pos_part n) l now t in (inr events, t'))
    else (inl invalid_input, t)

unfoldable pub mark_outbox_published : ℕ → Text → ℤ → ℤ → Outbox → Option OutboxError × Outbox
mark_outbox_published id worker at now t =
    if is_worker_id worker && not (id == 0)
    then publish_row id worker (or_now now at) now t
    else (some invalid_input, t)

unfoldable pub mark_outbox_failed :
    ℕ → Text → Text → ℤ → Bool → ℤ → Outbox → Option OutboxError × Outbox
mark_outbox_failed id worker class retry_at permanent now t =
    let named = normalize_text class 128 in
    if is_worker_id worker && (not (is_empty named) && not (id == 0))
    then fail_row id worker named (or_now now retry_at) permanent now t
    else (some invalid_input, t)

length-take : (n : ℕ) (es : Outbox) → length (take n es) ≤ n
length-take zero es = omega arith
length-take (suc n) [] = omega arith
length-take (suc n) (e ∷ es) = omega (arith, length-take n es)

length-map : (f : OutboxEvent → OutboxEvent) (es : Outbox) → length (map f es) ≡ length es
length-map f [] = refl
length-map f (e ∷ es) = omega (arith, length-map f es)

claim_rows-length :
    (worker : Text) (limit : ℕ) (lease now : ℤ) (t : Outbox)
    → length (claim_rows worker limit lease now t).0 ≤ limit
unfolding claim_rows candidates
claim_rows-length worker limit lease now t =
    let due = order_rows (due_rows now (now -ℤ lease) t) in
    rw (length-map (leased_to worker now) (take limit due)) (length-take limit due)

-- A worker id that is one, a limit of 1 to 100, and a lease of a second to a day.
abbrev pub IsProper : Text → ℤ → ℤ → Type 0
IsProper worker limit lease =
    (is_worker_id worker ≡ true)
    × (pos 1 ≤ℤ limit)
    × (limit ≤ℤ pos 100)
    × (second ≤ℤ lease)
    × (lease ≤ℤ day)

-- A proper call returns no more events than it asks for; any other changes nothing.
abbrev pub IsWithin : Text → ℤ → ℤ → Outbox → (OutboxError ⊎ Outbox) × Outbox → Type 0
IsWithin worker limit lease t r =
    (IsProper worker limit lease
      × ((events : Outbox) × (r.0 ≡ inr events) × (pos (length events) ≤ℤ limit)))
    ⊎ (¬ (IsProper worker limit lease) × (r ≡ (inl invalid_input, t)))

is_claim-IsProper :
    (worker : Text) (limit lease : ℤ)
    → is_claim worker limit lease ≡ true
    → IsProper worker limit lease
unfolding is_claim
is_claim-IsProper worker limit lease h =
    (ground arith, ground arith, ground arith, ground arith, ground arith)

improper :
    (worker : Text) (limit lease : ℤ)
    → is_claim worker limit lease ≡ false
    → ¬ (IsProper worker limit lease)
unfolding is_claim
improper worker limit lease h (a, b, c, d, e) = ground arith

pos-pos_part : (z : ℤ) → pos 1 ≤ℤ z → pos (pos_part z) ≡ z
pos-pos_part (pos n) h = refl
pos-pos_part (negsuc n) h = absurd (ground arith)

refused-or-IsWithin :
    (worker : Text) (n l now : ℤ) (t : Outbox) (r : (OutboxError ⊎ Outbox) × Outbox)
    → r ≡ (
        if is_claim worker n l
        then (
          inr (claim_rows worker (pos_part n) l now t).0,
          (claim_rows worker (pos_part n) l now t).1,
        )
        else (inl invalid_input, t))
    → IsWithin worker n l t r
refused-or-IsWithin worker n l now t r e = elim (Bool-cases (is_claim worker n l)) [
  | inl ok ↦
      let proper = is_claim-IsProper worker n l ok in
      let few = claim_rows-length worker (pos_part n) l now t in
      let few_as : pos (length (claim_rows worker (pos_part n) l now t).0) ≤ℤ pos (pos_part n) =
        ground arith in
      inl (
        proper,
        (
          (claim_rows worker (pos_part n) l now t).0,
          ap (λ p. p.0) e ∙ rw (ok) refl,
          subst (λ z. pos (length (claim_rows worker (pos_part n) l now t).0) ≤ℤ z)
              (pos-pos_part n proper.1) few_as,
        ),
      )
  | inr bad ↦ inr (improper worker n l bad, e ∙ rw (bad) refl)
]

-- Whatever the worker, the limit and the lease that it asks for, negative ones included, the time
-- and the table. Where the worker has a proper id and the limit, 32 if it is 0, is from 1 to 100,
-- and the lease, 30 seconds if it is 0, from a second to a day, ClaimOutbox returns events, no more
-- than the limit; otherwise it answers ErrInvalidInput and changes nothing.
pub claim_outbox-IsWithin :
    (worker : Text) (limit lease now : ℤ) (t : Outbox)
    → IsWithin worker
        (if eqb_ℤ limit (pos 0) then pos 32 else limit)
        (if eqb_ℤ lease (pos 0) then pos 30000000000 else lease)
        t
        (claim_outbox worker limit lease now t)
unfolding claim_outbox default_limit default_lease
claim_outbox-IsWithin worker limit lease now t =
    refused-or-IsWithin worker (default_limit limit) (default_lease lease) now t _ refl
