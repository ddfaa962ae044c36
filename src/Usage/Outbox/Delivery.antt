-- ===== src/Usage/Outbox/Delivery.antt =====
-- What becomes of one row of the outbox while workers claim and acknowledge rows.
use bablo.Prelude.{
  ℕ, zero, suc, ◌==◌, ℤ, ◌-ℤ◌, ltb_ℤ, Bool, true, false, ◌||◌, Option, some, [], ◌∷◌, map, take,
  any, find?, Text, ◌≡◌, refl, sym, subst, ◌∙◌, ap, arith, Bool-cases, inl, inr,
}
use bablo.Usage.Outbox.{
  pending, processing, published, failed, OutboxEvent, Outbox, is_stale, is_claimable, due_rows,
  insert_row, order_rows, candidates, leased_to, lease_chosen, claim_rows, if_owned,
}

abbrev pub has_id : ℕ → OutboxEvent → Bool
has_id id e = e.id == id

-- The row of an id.
abbrev pub row : ℕ → Outbox → Option OutboxEvent
row id t = find? (has_id id) t

-- The primary key.
abbrev pub IsKeyed : Outbox → Type 0
IsKeyed [] = Unit
IsKeyed (e ∷ es) = (any (has_id e.id) es ≡ false) × IsKeyed es

any-insert_row :
    (id : ℕ) (e : OutboxEvent) (es : Outbox)
    → any (has_id id) (insert_row e es) ≡ (has_id id e || any (has_id id) es)
unfolding insert_row
any-insert_row id e [] = refl
any-insert_row id e (f ∷ fs) = ground (arith, any-insert_row id e fs)

any-order_rows : (id : ℕ) (es : Outbox) → any (has_id id) (order_rows es) ≡ any (has_id id) es
unfolding order_rows
any-order_rows id [] = refl
any-order_rows id (e ∷ es) =
    any-insert_row id e (order_rows es) ∙ ap (λ b. has_id id e || b) (any-order_rows id es)

any-take :
    (id n : ℕ) (es : Outbox) → any (has_id id) es ≡ false → any (has_id id) (take n es) ≡ false
any-take id zero es h = refl
any-take id (suc n) [] h = refl
any-take id (suc n) (e ∷ es) h = ground (arith, any-take id n es)

any-due_rows :
    (id : ℕ) (now cutoff : ℤ) (es : Outbox)
    → any (has_id id) es ≡ false
    → any (has_id id) (due_rows now cutoff es) ≡ false
unfolding due_rows
any-due_rows id now cutoff [] h = refl
any-due_rows id now cutoff (e ∷ es) h = ground (arith, any-due_rows id now cutoff es)

-- The row of an id is the first of the table, or stands further on.
pub row-head :
    (id : ℕ) (f : OutboxEvent) (fs : Outbox) (e : OutboxEvent)
    → has_id id f ≡ true
    → row id (f ∷ fs) ≡ some e
    → f ≡ e
row-head id f fs e s r = cc

pub row-here :
    (id : ℕ) (f : OutboxEvent) (fs : Outbox) → has_id id f ≡ true → row id (f ∷ fs) ≡ some f
row-here id f fs s = ground arith

pub row-tail :
    (id : ℕ) (f : OutboxEvent) (fs : Outbox) → has_id id f ≡ false → row id (f ∷ fs) ≡ row id fs
row-tail id f fs s = ground arith

pub absent_below :
    (id : ℕ) (f : OutboxEvent) (fs : Outbox)
    → IsKeyed (f ∷ fs)
    → has_id id f ≡ true
    → any (has_id id) fs ≡ false
absent_below id f fs k s =
    let same : f.id ≡ id = ground arith in subst (λ n. any (has_id n) fs ≡ false) same k.0

unclaimable-due :
    (id : ℕ) (now cutoff : ℤ) (t : Outbox) (e : OutboxEvent)
    → IsKeyed t
    → row id t ≡ some e
    → is_claimable now cutoff e.status e ≡ false
    → any (has_id id) (due_rows now cutoff t) ≡ false
unfolding due_rows
unclaimable-due id now cutoff [] e k r h = refl
unclaimable-due id now cutoff (f ∷ fs) e k r h = elim (Bool-cases (has_id id f)) [
  | inl s ↦
      let here : is_claimable now cutoff f.status f ≡ false =
        subst (λ g. is_claimable now cutoff g.status g ≡ false) (sym (row-head id f fs e s r)) h in
      rw (here, due_rows) (any-due_rows id now cutoff fs (absent_below id f fs k s))
  | inr s ↦
      let below = unclaimable-due id now cutoff fs e k.1 (sym (row-tail id f fs s) ∙ r) h in
      ground (arith, below)
]

any-map :
    (id : ℕ) (f : OutboxEvent → OutboxEvent) (es : Outbox)
    → ((e : OutboxEvent) → (f e).id ≡ e.id)
    → any (has_id id) (map f es) ≡ any (has_id id) es
any-map id f [] keeps = refl
any-map id f (e ∷ es) keeps = rw (keeps e, any-map id f es keeps) refl

pub map-IsKeyed :
    (f : OutboxEvent → OutboxEvent) (t : Outbox)
    → ((e : OutboxEvent) → (f e).id ≡ e.id)
    → IsKeyed t
    → IsKeyed (map f t)
map-IsKeyed f [] keeps k = k
map-IsKeyed f (e ∷ es) keeps k =
    (rw (keeps e) (any-map e.id f es keeps ∙ k.0), map-IsKeyed f es keeps k.1)

pub row-map :
    (id : ℕ) (f : OutboxEvent → OutboxEvent) (t : Outbox) (e : OutboxEvent)
    → ((e : OutboxEvent) → (f e).id ≡ e.id)
    → row id t ≡ some e
    → row id (map f t) ≡ some (f e)
row-map id f [] e keeps r = absurd (cc r)
row-map id f (g ∷ gs) e keeps r =
    let same : has_id id (f g) ≡ has_id id g = ap (λ n. n == id) (keeps g) in
    elim (Bool-cases (has_id id g)) [
      | inl s ↦
          row-here id (f g) (map f gs) (same ∙ s) ∙ ap (λ x. some (f x)) (row-head id g gs e s r)
      | inr s ↦
          row-tail id (f g) (map f gs) (same ∙ s)
          ∙ row-map id f gs e keeps (sym (row-tail id g gs s) ∙ r)
    ]

pub row-id : (id : ℕ) (t : Outbox) (e : OutboxEvent) → row id t ≡ some e → e.id ≡ id
row-id id [] e r = absurd (cc r)
row-id id (g ∷ gs) e r = elim (Bool-cases (has_id id g)) [
  | inl s ↦
      let same : g.id ≡ id = ground arith in subst (λ x. x.id ≡ id) (row-head id g gs e s r) same
  | inr s ↦ row-id id gs e (sym (row-tail id g gs s) ∙ r)
]

pub lease_chosen-id :
    (worker : Text) (now : ℤ) (chosen : Outbox) (e : OutboxEvent)
    → (lease_chosen worker now chosen e).id ≡ e.id
unfolding lease_chosen leased_to
lease_chosen-id worker now chosen e = ground arith

pub if_owned-id :
    (id : ℕ) (worker : Text) (set : OutboxEvent → OutboxEvent) (e : OutboxEvent)
    → ((e : OutboxEvent) → (set e).id ≡ e.id)
    → (if_owned id worker set e).id ≡ e.id
unfolding if_owned
if_owned-id id worker set e keeps = ground (arith, keeps e)

unchosen :
    (worker : Text) (now : ℤ) (chosen : Outbox) (e : OutboxEvent)
    → any (has_id e.id) chosen ≡ false
    → lease_chosen worker now chosen e ≡ e
unfolding lease_chosen
unchosen worker now chosen e h = rw (h) refl

leased_to-id : (worker : Text) (now : ℤ) (e : OutboxEvent) → (leased_to worker now e).id ≡ e.id
unfolding leased_to
leased_to-id worker now e = refl

-- A row that is not due yet; that was leased, and the lease is not over; that is published; that
-- has failed for good.
pub data Kept (now cutoff : ℤ) (e : OutboxEvent) : Type 0 where
  waits : e.status ≡ pending → ltb_ℤ now e.next_attempt_at ≡ true → Kept now cutoff e
  held :
      (at : ℤ)
      → e.status ≡ processing
      → e.claimed_at ≡ some at
      → ltb_ℤ at cutoff ≡ false
      → Kept now cutoff e
  delivered : e.status ≡ published → Kept now cutoff e
  abandoned : e.status ≡ failed → Kept now cutoff e

Kept-unclaimable :
    (now cutoff : ℤ) (e : OutboxEvent)
    → Kept now cutoff e
    → is_claimable now cutoff e.status e ≡ false
unfolding is_claimable is_stale
Kept-unclaimable now cutoff e (waits s n) = rw (s, n) refl
Kept-unclaimable now cutoff e (held at s c l) = rw (s, c, l) refl
Kept-unclaimable now cutoff e (delivered s) = rw (s) refl
Kept-unclaimable now cutoff e (abandoned s) = rw (s) refl

-- In a table whose ids are unique, a claim at some time neither returns nor changes a pending row
-- whose next attempt is later, a processing row that was claimed no longer ago than a lease, a
-- published row, or a failed one.
pub claim_rows-leaves :
    (worker : Text) (limit : ℕ) (lease now : ℤ) (t : Outbox) (id : ℕ) (e : OutboxEvent)
    → IsKeyed t
    → row id t ≡ some e
    → Kept now (now -ℤ lease) e
    → (row id (claim_rows worker limit lease now t).1 ≡ some e)
      × (any (has_id id) (claim_rows worker limit lease now t).0 ≡ false)
unfolding claim_rows candidates
claim_rows-leaves worker limit lease now t id e k r kept_row =
    let cutoff = now -ℤ lease in
    let h = Kept-unclaimable now cutoff e kept_row in
    let chosen = candidates now cutoff limit t in
    let due = unclaimable-due id now cutoff t e k r h in
    let out = any-take id limit _ (any-order_rows id (due_rows now cutoff t) ∙ due) in
    let kept =
      row-map id (lease_chosen worker now chosen) t e (lease_chosen-id worker now chosen) r in
    (
      kept ∙ ap some (unchosen worker now chosen e (rw (row-id id t e r) out)),
      any-map id (leased_to worker now) chosen (leased_to-id worker now) ∙ out,
    )
