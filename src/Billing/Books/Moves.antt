-- ===== src/Billing/Books/Moves.antt =====
-- A wallet row, the ledger and the holds that move together keep the books sound.
use bablo.Prelude.{
  ◌≡◌, ◌↔◌, +ℤ_parts, -ℤ_parts, ℤ, pos, ◌+ℤ◌, ◌≤ℤ◌, max_int64, min_int64, IsInt64, int_laws,
  add64_lem, sub64_lem, some, List, ◌==◌, if◌then◌else◌, arith,
}
use bablo.Billing.Model.{Uuid, Wallet, Reservation, LedgerEntry, Liability}
use bablo.Billing.Store.Tables.{find_wallet, update_wallet}
use bablo.Billing.Reserve.{safe_add}
use bablo.Billing.Credit.{ledger_available, ledger_reserved}
use bablo.Billing.Books.Wallets.{available_of, reserved_of, balances-update, IsUnique-update}
use bablo.Billing.Books.Holds.{held_of, AreRows}
use bablo.Billing.Books.Sound.{At, Sound, AreDebts}

-- An amount at one wallet, and nothing at the others.
abbrev pub at_wallet : Uuid → Uuid → ℤ → ℤ
at_wallet j k d = if j == k then d else pos 0

safe_add-some : (a b : ℤ) → IsInt64 a → IsInt64 b → IsInt64 (a +ℤ b) → safe_add a b ≡ some (a +ℤ b)
unfolding safe_add
safe_add-some a b ia ib sum = ground (
  arith,
  sub64_lem max_int64 b,
  sub64_lem min_int64 b,
  add64_lem a b sum,
  +ℤ_parts a b,
  -ℤ_parts max_int64 b,
  -ℤ_parts min_int64 b,
)

safe_add-inv :
    (a b : ℤ) {c : ℤ} → IsInt64 a → IsInt64 b → safe_add a b ≡ some c → (c ≡ a +ℤ b) × IsInt64 c
unfolding safe_add
safe_add-inv a b {c} ia ib h = ground (
  arith,
  sub64_lem max_int64 b,
  sub64_lem min_int64 b,
  add64_lem a b,
  +ℤ_parts a b,
  -ℤ_parts max_int64 b,
  -ℤ_parts min_int64 b,
)

-- safeAdd returns exactly the sum of two words, where that is a word, and else nothing.
pub safe_add_lem :
    (a b c : ℤ) → IsInt64 a → IsInt64 b → (safe_add a b ≡ some c) ↔ ((c ≡ a +ℤ b) × IsInt64 c)
safe_add_lem a b c ia ib =
    (safe_add-inv a b ia ib, λ h. rw h.0 (safe_add-some a b ia ib (rw (← h.0) h.1)))

module _ {ws : List Wallet} {rs rs' : List Reservation} {es es' : List LedgerEntry}
    {ls : List Liability} (s : Sound ws rs es ls) (w : Wallet)
    (found : find_wallet w.id ws ≡ some w) (f : Wallet → Wallet)
    (keeps : (v : Wallet) → (f v).id ≡ v.id) (da dr : ℤ)
    (posted_available : (k : Uuid)
      → ledger_available k es' ≡ at_wallet w.id k da +ℤ ledger_available k es)
    (posted_reserved : (k : Uuid)
      → ledger_reserved k es' ≡ at_wallet w.id k dr +ℤ ledger_reserved k es)
    (moved_hold : (k : Uuid) → held_of k rs' ≡ at_wallet w.id k dr +ℤ held_of k rs)
    (available : (f w).available_balance_minor ≡ da +ℤ w.available_balance_minor)
    (reserved : (f w).reserved_balance_minor ≡ dr +ℤ w.reserved_balance_minor)
    (nonneg : pos 0 ≤ℤ (f w).available_balance_minor)
    (cap : (f w).available_balance_minor ≤ℤ max_int64)
    (reserved_cap : (f w).reserved_balance_minor ≤ℤ max_int64) where
  At-move : (k : Uuid) → At k (update_wallet w.id f ws) rs' es'
  unfolding available_of reserved_of
  At-move k = grind (
    int_laws,
    balances-update w.id f keeps k ws found,
    s.at k,
    posted_available k,
    posted_reserved k,
    moved_hold k,
  )

  pub Sound-move :
      (ls' : List Liability)
      → AreRows rs'
      → AreDebts ls'
      → Sound (update_wallet w.id f ws) rs' es' ls'
  Sound-move ls' amounts debts = record {
    unique = IsUnique-update w.id f keeps ws s.unique;
    amounts = amounts;
    debts = debts;
    at = At-move;
  }
