-- ===== src/Usage/Outbox/Answers.antt =====
-- What the acknowledgements of a row answer, and what they write.
use bablo.Prelude.{
  ℕ, ◌==◌, ℤ, eqb_ℤ, pos, Bool, true, false, Option, none, some, [], ◌∷◌, map, any, Text, ◌≡◌, ◌⊎◌,
  refl, sym, subst, ◌∙◌, ap, arith, Bool-cases, Option-cases, inl, inr, is_empty, text_eq_refl,
  text_eq→eq, suc, if◌then◌else◌,
}
use bablo.Usage.Outbox.{
  OutboxStatus, pending, processing, published, failed, OutboxEvent, Outbox, OutboxError, not_found,
  not_owned, is_owned, is_claimed_by, if_owned, update_owned, as_published, as_failed, publish_row,
  fail_row, owned_count, ownership_of, outbox_ownership_error, or_now, string_arg,
}
use bablo.Usage.Outbox.Delivery.{has_id, row, IsKeyed, row-head, row-tail, absent_below}

-- The worker holds the lease of the row.
abbrev pub IsHolder : Text → OutboxEvent → Type 0
IsHolder worker e = (e.status ≡ processing) × (e.claimed_by ≡ some worker)

-- The row of the id alone is set anew.
abbrev pub with_row : ℕ → (OutboxEvent → OutboxEvent) → Outbox → Outbox
with_row id set t = map (λ e. if e.id == id then set e else e) t

-- The worker holds the row, which is set anew; or another one does or none, or there is no such
-- row, and the table stays as it is.
abbrev pub IsAnswered :
    ℕ → Text → (OutboxEvent → OutboxEvent) → Outbox → Option OutboxError × Outbox → Type 0
IsAnswered id worker set t r =
    ((e : OutboxEvent) × (row id t ≡ some e) × IsHolder worker e × (r ≡ (none, with_row id set t)))
    ⊎ (((e : OutboxEvent) × (row id t ≡ some e) × ¬ (IsHolder worker e) × (r ≡ (some not_owned, t)))
        ⊎ ((row id t ≡ none) × (r ≡ (some not_found, t))))

module _ (id : ℕ) (worker : Text) (set : OutboxEvent → OutboxEvent) where
  count-absent : (t : Outbox) → any (has_id id) t ≡ false → owned_count id worker t ≡ 0
  unfolding owned_count is_owned
  count-absent [] h = refl
  count-absent (e ∷ es) h = ground (arith, count-absent es)

  absent-kept : (t : Outbox) → any (has_id id) t ≡ false → with_row id set t ≡ t
  absent-kept [] h = refl
  absent-kept (e ∷ es) h = ground (arith, absent-kept es)

  absent-if_owned : (t : Outbox) → any (has_id id) t ≡ false → map (if_owned id worker set) t ≡ t
  unfolding if_owned is_owned
  absent-if_owned [] h = refl
  absent-if_owned (e ∷ es) h = ground (arith, absent-if_owned es)

  absent-row : (t : Outbox) → row id t ≡ none → any (has_id id) t ≡ false
  absent-row [] h = refl
  absent-row (e ∷ es) h = ground (arith, absent-row es)

  -- The update of an owned row of unique ids, and of one that is not owned.
  owned-update :
      (t : Outbox) (e : OutboxEvent)
      → IsKeyed t
      → row id t ≡ some e
      → is_claimed_by worker e.status e.claimed_by ≡ true
      → (owned_count id worker t ≡ 1) × (map (if_owned id worker set) t ≡ with_row id set t)
  unfolding owned_count if_owned is_owned
  owned-update [] e k r o = absurd (cc r)
  owned-update (f ∷ fs) e k r o = elim (Bool-cases (has_id id f)) [
    | inl s ↦
        let below = absent_below id f fs k s in
        let mine : is_claimed_by worker f.status f.claimed_by ≡ true =
          subst (λ g. is_claimed_by worker g.status g.claimed_by ≡ true)
            (sym (row-head id f fs e s r)) o in
        (
          rw (s, mine, owned_count) (ap suc (count-absent fs below)),
          rw (s, mine)
              (ap (λ gs. set f ∷ gs) (absent-if_owned fs below ∙ sym (absent-kept fs below))),
        )
    | inr s ↦
        let (n, m) = owned-update fs e k.1 (sym (row-tail id f fs s) ∙ r) o in
        (rw (s, owned_count) n, rw (s) (ap (λ gs. f ∷ gs) m))
  ]

  unowned-count :
      (t : Outbox) (e : OutboxEvent)
      → IsKeyed t
      → row id t ≡ some e
      → is_claimed_by worker e.status e.claimed_by ≡ false
      → (owned_count id worker t ≡ 0) × (map (if_owned id worker set) t ≡ t)
  unfolding owned_count if_owned is_owned
  unowned-count [] e k r o = absurd (cc r)
  unowned-count (f ∷ fs) e k r o = elim (Bool-cases (has_id id f)) [
    | inl s ↦
        let below = absent_below id f fs k s in
        let other : is_claimed_by worker f.status f.claimed_by ≡ false =
          subst (λ g. is_claimed_by worker g.status g.claimed_by ≡ false)
            (sym (row-head id f fs e s r)) o in
        (
          rw (s, other, owned_count) (count-absent fs below),
          rw (s, other) (ap (λ gs. f ∷ gs) (absent-if_owned fs below)),
        )
    | inr s ↦
        let (n, m) = unowned-count fs e k.1 (sym (row-tail id f fs s) ∙ r) o in
        (rw (s, owned_count) n, rw (s) (ap (λ gs. f ∷ gs) m))
  ]

holder :
    (worker : Text) (s : OutboxStatus) (w : Option Text)
    → is_claimed_by worker s w ≡ true
    → (s ≡ processing) × (w ≡ some worker)
unfolding is_claimed_by
holder worker pending w h = absurd (cc h)
holder worker published w h = absurd (cc h)
holder worker failed w h = absurd (cc h)
holder worker processing none h = absurd (cc h)
holder worker processing (some v) h = (refl, ap some (text_eq→eq v worker h))

holds : (worker : Text) → is_claimed_by worker processing (some worker) ≡ true
unfolding is_claimed_by
holds worker = text_eq_refl worker

not-IsHolder :
    (worker : Text) (e : OutboxEvent)
    → is_claimed_by worker e.status e.claimed_by ≡ false
    → ¬ (IsHolder worker e)
not-IsHolder worker e h (s, c) = absurd (cc (h, holds worker, s, c))

-- An update of an owned row.
update_owned-IsAnswered :
    (id : ℕ) (worker : Text) (set : OutboxEvent → OutboxEvent) (t : Outbox)
    → IsKeyed t
    → IsAnswered id worker set t (update_owned id worker set t)
unfolding update_owned outbox_ownership_error ownership_of
update_owned-IsAnswered id worker set t k = elim (Option-cases (row id t)) [
  | inl r ↦
      let absent = absent-row id worker set t r in
      inr (
        inr (
          r,
          rw (count-absent id worker set t absent, absent-if_owned id worker set t absent, r) refl,
        ))
  | inr (e, r) ↦ elim (Bool-cases (is_claimed_by worker e.status e.claimed_by)) [
    | inl o ↦
        let (one, m) = owned-update id worker set t e k r o in
        inl (e, r, holder worker e.status e.claimed_by o, rw (one, m) refl)
    | inr o ↦
        let (none_owned, m) = unowned-count id worker set t e k r o in
        inr (inl (e, r, not-IsHolder worker e o, rw (none_owned, m, r, o) refl))
  ]
]

-- In a table of unique ids, MarkOutboxPublished and MarkOutboxFailed of a worker that holds the lease
-- of the row set that row, with the fields as written here, and no other; for a worker that does not
-- hold it they answer ErrOutboxNotOwned, and without such a row ErrNotFound, and change nothing.
pub acknowledge-IsAnswered :
    (id : ℕ) (worker class : Text) (at now : ℤ) (permanent : Bool) (t : Outbox)
    → IsKeyed t
    → IsAnswered id worker
        (λ e. record e {
          status = published;
          published_at = some (if eqb_ℤ at (pos 0) then now else at);
          claimed_at = none;
          claimed_by = none;
        })
        t
        (publish_row id worker at now t)
      × IsAnswered id worker
          (λ e. record e {
            status = if permanent then failed else pending;
            next_attempt_at = if eqb_ℤ at (pos 0) then now else at;
            last_error_class = if is_empty class then none else some class;
            claimed_at = none;
            claimed_by = none;
          })
          t
          (fail_row id worker class at permanent now t)
unfolding publish_row fail_row as_published as_failed or_now string_arg
acknowledge-IsAnswered id worker class at now true t k =
    (update_owned-IsAnswered id worker _ t k, update_owned-IsAnswered id worker _ t k)
acknowledge-IsAnswered id worker class at now false t k =
    (update_owned-IsAnswered id worker _ t k, update_owned-IsAnswered id worker _ t k)
