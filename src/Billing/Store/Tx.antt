-- ===== src/Billing/Store/Tx.antt =====
-- A transaction of internal/data/database.go: the tables as state, and an error that ends it.
use bablo.Prelude.{
  Bool, true, false, Option, none, some, List, [], ◌∷◌, ◌≡◌, refl, subst, sym, if◌then◌else◌,
}
use bablo.Billing.Model.{Uuid, Error, Result, ok, err, repository}
use bablo.Billing.Store.Tables.{Db, Fate, runs, unbegun, undone, unheard}

abbrev pub Tx : Type 0 → Type 0
Tx A = Db → Result A × Db

module _ {A : Type 0} where
  unfoldable pub pure : A → Tx A
  pure a db = (ok a, db)

  unfoldable pub throw : Error → Tx A
  throw e db = (err e, db)

  unfoldable pub reads : (Db → A) → Tx A
  reads f db = (ok (f db), db)

  unfoldable pub or_throw : Option A → Error → Tx A
  or_throw none e db = (err e, db)
  or_throw (some a) e db = (ok a, db)

infixl 5 ◌>>=◌ ◌>>◌
unfoldable pub ◌>>=◌ : {A B : Type 0} → Tx A → (A → Tx B) → Tx B
◌>>=◌ m f db = let (r, db') = m db in elim r [ ok a ↦ f a db' | err e ↦ (err e, db') ]

unfoldable pub ◌>>◌ : {A B : Type 0} → Tx A → Tx B → Tx B
m >> k = m >>= λ _. k

-- `if test { return error }`.
unfoldable pub throw_if : Bool → Error → Tx (Unit {0})
throw_if true e db = (err e, db)
throw_if false e db = (ok tt, db)

unfoldable pub modify : (Db → Db) → Tx (Unit {0})
modify f db = (ok tt, f db)

-- id.New: the next identifier. Its failure stands for that of the random source.
unfoldable pub new_id : Tx Uuid
new_id db = elim db.ids [ [] ↦ (err repository, db) | k ∷ ks ↦ (ok k, record db { ids = ks }) ]

abbrev pub rolled_back : Db → Db → Db
rolled_back db db' = record db { ids = db'.ids }

-- The end of a transaction that has begun in a database: it commits if the callback succeeded and
-- the commit does not fail, else it is rolled back; identifiers stay used.
abbrev pub ended : {A : Type 0} → Fate → Db → Result A × Db → Result A × Db
ended fate db (err e, db') = (err e, rolled_back db db')
ended runs db (ok a, db') = (ok a, db')
ended unheard db (ok a, db') = (err repository, db')
ended undone db (ok a, db') = (err repository, rolled_back db db')
ended unbegun db (ok a, db') = (err repository, rolled_back db db')

abbrev pub after_fate : {A : Type 0} → List Fate → Result A × Db → Result A × Db
after_fate left (r, db) = (r, record db { fates = left })

-- Store.WithTx, of a callback that leaves the fates to come as they are.
unfoldable pub with_tx : {A : Type 0} → Tx A → Tx A
with_tx m db = elim db.fates [
  | [] ↦ ended runs db (m db)
  | fate ∷ left ↦ elim fate [
    | unbegun ↦ after_fate left (err repository, db)
    | runs ↦ after_fate left (ended runs db (m db))
    | undone ↦ after_fate left (ended undone db (m db))
    | unheard ↦ after_fate left (ended unheard db (m db))
  ]
]

-- To unfold the steps of a transaction, name this.
unfoldable pub steps : Unit {0}
unfolding ◌>>=◌ ◌>>◌ pure throw reads or_throw throw_if modify
steps = tt

-- What holds of the outcome unless it is an error.
abbrev pub Holds : {A : Type 0} → (A → Db → Type 0) → Result A × Db → Type 0
Holds P (ok a, db) = P a db
Holds P (err e, db) = Unit

-- A run of the transaction fails, or has the property.
unfoldable pub Ensures : {A : Type 0} → (A → Db → Type 0) → Tx A → Db → Type 0
Ensures P m db = Holds P (m db)

pub Ensures->>= :
    {A B : Type 0} (P : A → Db → Type 0) (Q : B → Db → Type 0) (m : Tx A) (f : A → Tx B) (db : Db)
    → Ensures P m db
    → ((a : A) (db' : Db) → P a db' → Ensures Q (f a) db')
    → Ensures Q (m >>= f) db
unfolding Ensures steps
Ensures->>= {A} {B} P Q m f db h k = go (m db) h
  where
    go :
        (r : Result A × Db)
        → Holds P r
        → Holds Q (elim r.0 [ ok a ↦ f a r.1 | err e ↦ (err e, r.1) ])
    go (ok a, db') h = k a db' h
    go (err e, db') h = tt

pub Ensures-weaken :
    {A : Type 0} (P Q : A → Db → Type 0) (m : Tx A) (db : Db)
    → Ensures P m db
    → ((a : A) (db' : Db) → P a db' → Q a db')
    → Ensures Q m db
unfolding Ensures
Ensures-weaken {A} P Q m db h k = go (m db) h
  where
    go : (r : Result A × Db) → Holds P r → Holds Q r
    go (ok a, db') h = k a db' h
    go (err e, db') h = tt

pub Ensures->> :
    {A B : Type 0} (P : A → Db → Type 0) (Q : B → Db → Type 0) (m : Tx A) (n : Tx B) (db : Db)
    → Ensures P m db
    → ((a : A) (db' : Db) → P a db' → Ensures Q n db')
    → Ensures Q (m >> n) db
unfolding ◌>>◌
Ensures->> P Q m n db h k = Ensures->>= P Q m (λ _. n) db h k

pub Ensures-pure :
    {A : Type 0} (P : A → Db → Type 0) (a : A) (db : Db) → P a db → Ensures P (pure a) db
unfolding Ensures pure
Ensures-pure P a db h = h

pub Ensures-if :
    {A : Type 0} (P : A → Db → Type 0) (c : Bool) (m n : Tx A) (db : Db)
    → (c ≡ true → Ensures P m db)
    → (c ≡ false → Ensures P n db)
    → Ensures P (if c then m else n) db
Ensures-if P true m n db h k = h refl
Ensures-if P false m n db h k = k refl

pub Ensures-modify :
    {B : Type 0} (Q : B → Db → Type 0) (g : Db → Db) (n : Tx B) (db : Db)
    → Ensures Q n (g db)
    → Ensures Q (modify g >> n) db
unfolding Ensures steps
Ensures-modify Q g n db h = h

pub Ensures-modified :
    (P : Unit {0} → Db → Type 0) (g : Db → Db) (db : Db) → P tt (g db) → Ensures P (modify g) db
unfolding Ensures modify
Ensures-modified P g db h = h

pub Ensures-throw_if :
    {B : Type 0} (Q : B → Db → Type 0) (c : Bool) (e : Error) (n : Tx B) (db : Db)
    → (c ≡ false → Ensures Q n db)
    → Ensures Q (throw_if c e >> n) db
unfolding Ensures steps
Ensures-throw_if Q true e n db h = tt
Ensures-throw_if Q false e n db h = h refl

module _ {A B : Type 0} (Q : B → Db → Type 0) where
  pub Ensures-reads :
      (g : Db → A) (f : A → Tx B) (db : Db) → Ensures Q (f (g db)) db → Ensures Q (reads g >>= f) db
  unfolding Ensures steps
  Ensures-reads g f db h = h

  pub Ensures-or_throw :
      (o : Option A) (e : Error) (f : A → Tx B) (db : Db)
      → ((a : A) → o ≡ some a → Ensures Q (f a) db)
      → Ensures Q (or_throw o e >>= f) db
  unfolding Ensures steps
  Ensures-or_throw none e f db h = tt
  Ensures-or_throw (some a) e f db h = h a refl

-- To prove what holds of a run whose outcome is known.
pub Holds-by :
    {A : Type 0} (P : A → Db → Type 0) (r r' : Result A × Db) → r ≡ r' → Holds P r' → Holds P r
Holds-by P r r' e h = subst (λ o. Holds P o) (sym e) h
