-- ===== src/Usage/Outbox/Settled.antt =====
-- The life of a row through any sequence of arrivals, claims, acknowledgements and failures.
use bablo.Prelude.{
  ℕ, ◌==◌, ℤ, Bool, true, false, Option, none, some, [], ◌∷◌, any, Text, ◌≡◌, refl, subst, ◌∙◌, ap,
  arith, Bool-cases, inl, inr, ◌-ℤ◌,
}
use bablo.Usage.Outbox.{
  OutboxStatus, pending, processing, published, failed, OutboxEvent, Outbox, claim_rows, is_owned,
  is_claimed_by, if_owned, update_owned, as_published, as_failed, publish_row, fail_row,
  owned_count,
}
use bablo.Usage.Outbox.Delivery.{
  has_id, row, Kept, delivered, abandoned, IsKeyed, map-IsKeyed, row-map, lease_chosen-id,
  if_owned-id, claim_rows-leaves, row-tail,
}

abbrev pub is_settled : OutboxStatus → Bool
is_settled pending = false
is_settled processing = false
is_settled published = true
is_settled failed = true

pub data Step : Outbox → Outbox → Type 0 where
  arrives : (t : Outbox) (e : OutboxEvent) → any (has_id e.id) t ≡ false → Step t (e ∷ t)
  claims :
      (t : Outbox) (worker : Text) (limit : ℕ) (lease now : ℤ)
      → Step t (claim_rows worker limit lease now t).1
  publishes :
      (t : Outbox) (id : ℕ) (worker : Text) (at now : ℤ) → Step t (publish_row id worker at now t).1
  fails :
      (t : Outbox) (id : ℕ) (worker class : Text) (retry_at : ℤ) (permanent : Bool) (now : ℤ)
      → Step t (fail_row id worker class retry_at permanent now t).1

pub data Steps : Outbox → Outbox → Type 0 where
  stays : (t : Outbox) → Steps t t
  follows : (t u v : Outbox) → Step t u → Steps u v → Steps t v

-- The row stands in the table of unique ids as it is.
abbrev Keeps : ℕ → OutboxEvent → Outbox → Type 0
Keeps id e t = IsKeyed t × (row id t ≡ some e)

settled-unclaimed :
    (worker : Text) (s : OutboxStatus) (w : Option Text)
    → is_settled s ≡ true
    → is_claimed_by worker s w ≡ false
unfolding is_claimed_by
settled-unclaimed worker pending w h = absurd (cc h)
settled-unclaimed worker processing w h = absurd (cc h)
settled-unclaimed worker published w h = refl
settled-unclaimed worker failed w h = refl

settled-Kept :
    (now cutoff : ℤ) (s : OutboxStatus) (e : OutboxEvent)
    → e.status ≡ s
    → is_settled s ≡ true
    → Kept now cutoff e
settled-Kept now cutoff pending e p h = absurd (cc h)
settled-Kept now cutoff processing e p h = absurd (cc h)
settled-Kept now cutoff published e p h = delivered p
settled-Kept now cutoff failed e p h = abandoned p

if_owned-settled :
    (id : ℕ) (worker : Text) (set : OutboxEvent → OutboxEvent) (e : OutboxEvent)
    → is_settled e.status ≡ true
    → if_owned id worker set e ≡ e
unfolding if_owned is_owned
if_owned-settled id worker set e h =
    let free = settled-unclaimed worker e.status e.claimed_by h in
    elim (Bool-cases (e.id == id)) [ inl s ↦ rw (s, free) refl | inr s ↦ rw (s) refl ]

update_owned-Keeps :
    (id n : ℕ) (worker : Text) (set : OutboxEvent → OutboxEvent) (e : OutboxEvent) (t : Outbox)
    → ((g : OutboxEvent) → (set g).id ≡ g.id)
    → is_settled e.status ≡ true
    → Keeps n e t
    → Keeps n e (update_owned id worker set t).1
unfolding update_owned
update_owned-Keeps id n worker set e t keeps h k =
    elim (Bool-cases (owned_count id worker t == 1)) [
      | inl one ↦
          let same = λ (g : OutboxEvent). if_owned-id id worker set g keeps in
          rw (one, update_owned)
            (
              map-IsKeyed (if_owned id worker set) t same k.0,
              row-map n (if_owned id worker set) t e same k.1
                  ∙ ap some (if_owned-settled id worker set e h),
            )
      | inr other ↦ rw (other, update_owned) k
    ]

row-absent : (id : ℕ) (t : Outbox) → any (has_id id) t ≡ false → row id t ≡ none
row-absent id [] h = refl
row-absent id (f ∷ fs) h = ground (arith, row-absent id fs)

arrival :
    (id : ℕ) (e f : OutboxEvent) (t : Outbox)
    → any (has_id f.id) t ≡ false
    → row id t ≡ some e
    → has_id id f ≡ false
arrival id e f t fresh r = elim (Bool-cases (has_id id f)) [
  | inl s ↦
      let same : f.id ≡ id = ground arith in
      absurd (cc (row-absent id t (subst (λ n. any (has_id n) t ≡ false) same fresh), r))
  | inr s ↦ s
]

Step-Keeps :
    (id : ℕ) (e : OutboxEvent) (t u : Outbox)
    → Step t u
    → is_settled e.status ≡ true
    → Keeps id e t
    → Keeps id e u
unfolding claim_rows publish_row fail_row as_published as_failed
Step-Keeps id e t u (arrives _ f fresh) h k =
    ((fresh, k.0), row-tail id f t (arrival id e f t fresh k.1) ∙ k.1)
Step-Keeps id e t u (claims _ worker limit lease now) h k = (
  map-IsKeyed _ t (lease_chosen-id worker now _) k.0,
  (claim_rows-leaves worker limit lease now t id e k.0 k.1
      (settled-Kept now (now -ℤ lease) e.status e refl h)).0,
)
Step-Keeps id e t u (publishes _ i worker at now) h k =
    update_owned-Keeps i id worker _ e t (λ g. refl) h k
Step-Keeps id e t u (fails _ i worker class retry_at permanent now) h k =
    update_owned-Keeps i id worker _ e t (λ g. refl) h k

Steps-Keeps :
    (id : ℕ) (e : OutboxEvent) (t u : Outbox)
    → Steps t u
    → is_settled e.status ≡ true
    → Keeps id e t
    → Keeps id e u
Steps-Keeps id e t u (stays _) h k = k
Steps-Keeps id e t v (follows _ u _ s ss) h k =
    Steps-Keeps id e u v ss h (Step-Keeps id e t u s h k)

-- A row that is published or has failed for good stays in the outbox as it is, through any sequence
-- of arrivals of rows of new ids, claims, acknowledgements and failure reports by whatever workers
-- at whatever times, if the ids of the table are unique to begin with: they stay so.
pub settled-stays :
    (id : ℕ) (e : OutboxEvent) (t u : Outbox)
    → Steps t u
    → IsKeyed t
    → row id t ≡ some e
    → is_settled e.status ≡ true
    → IsKeyed u × (row id u ≡ some e)
settled-stays id e t u ss k r h = Steps-Keeps id e t u ss h (k, r)
