-- ===== src/Limits/Window/Size.antt =====
-- The map of windows stays bounded.
use bablo.Prelude.{
  ℕ, suc, ◌≤◌, leb, ℤ, ltb_ℤ, pos, false, Option, [], ◌∷◌, ◌≡◌, refl, length, if◌then◌else◌, arith,
  Bool-cases, inl, inr,
}
use bablo.Limits.Window.{
  WindowId, WindowCount, Windows, find, put, prune, count_request, counted, count_or_zero, allow,
  allow_window, max_memory_windows, lacks_room, is_none, is_unlimited,
}

length-put :
    (id : WindowId) (c : WindowCount) (ws : Windows)
    → length (put id c ws) ≡ (if is_none (find id ws) then suc (length ws) else length ws)
unfolding put find
length-put id c [] = refl
length-put id c ((i, d) ∷ ws) = ground (arith, length-put id c ws)

length-prune : (m : ℤ) (ws : Windows) → length (prune m ws) ≤ length ws
unfolding prune
length-prune m [] = omega arith
length-prune m ((i, d) ∷ ws) = ground (arith, length-prune m ws)

count_request-bounded :
    (id : WindowId) (rpm tpm : Option ℤ) (tokens : ℤ) (ws : Windows)
    → lacks_room id ws ≡ false
    → length ws ≤ max_memory_windows
    → length (count_request id rpm tpm tokens ws).1 ≤ max_memory_windows
unfolding count_request
count_request-bounded id rpm tpm tokens ws r h =
    ground (arith, length-put id (counted (count_or_zero (find id ws)) tokens) ws)

roomy :
    (id : WindowId) (ws : Windows)
    → leb max_memory_windows (length ws) ≡ false
    → (lacks_room id ws ≡ false) × (length ws ≤ max_memory_windows)
roomy id ws h = (ground arith, ground arith)

allow_window-length :
    (id : WindowId) (rpm tpm : Option ℤ) (tokens : ℤ) (ws : Windows)
    → length ws ≤ max_memory_windows
    → length (allow_window id rpm tpm tokens ws).1 ≤ max_memory_windows
unfolding allow_window
allow_window-length id rpm tpm tokens ws h = elim (Bool-cases (lacks_room id ws)) [
  | inr r ↦ rw (r, allow_window) (count_request-bounded id rpm tpm tokens ws r h)
  | inl r ↦ elim (Bool-cases (leb max_memory_windows (length (prune id.minute ws)))) [
    | inl f ↦ rw (r, f, allow_window) (omega (arith, length-prune id.minute ws))
    | inr f ↦
        let (room, small) = roomy id (prune id.minute ws) f in
        rw (r, f, allow_window)
          (count_request-bounded id rpm tpm tokens (prune id.minute ws) room small)
  ]
]

-- No call lets the map grow beyond maxMemoryWindows, whatever its key, limits, tokens and time.
pub allow-length :
    (key_id : ℕ) (rpm tpm : Option ℤ) (tokens : ℤ) (now : ℕ) (ws : Windows)
    → length ws ≤ max_memory_windows
    → length (allow key_id rpm tpm tokens now ws).1 ≤ max_memory_windows
unfolding allow
allow-length key_id rpm tpm tokens now ws h = elim (Bool-cases (ltb_ℤ tokens (pos 0))) [
  | inl n ↦ rw (n, allow) h
  | inr n ↦ elim (Bool-cases (is_unlimited rpm tpm)) [
    | inl u ↦ rw (n, u, allow) h
    | inr u ↦ rw (n, u, allow) (allow_window-length _ rpm tpm tokens ws h)
  ]
]
