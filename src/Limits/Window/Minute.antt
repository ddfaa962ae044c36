-- ===== src/Limits/Window/Minute.antt =====
-- The calls of one minute: what they leave of the counts of a key, and what they allow in all.
use bablo.Prelude.{
  ℕ, suc, ◌+◌, ◌≤◌, leb, ℤ, pos, negsuc, pos_part, ◌+ℤ◌, ◌≤ℤ◌, max_int64, add64, add64_lem, ltb_ℤ,
  Bool, true, false, Option, none, some, List, [], ◌∷◌, ◌≡◌, refl, sym, ap, subst, ◌∙◌, length,
  if◌then◌else◌, arith, Bool-cases, inl, inr, ◌⊎◌, ◌==◌, All, ==_iff,
}
use bablo.Limits.Window.{
  WindowId, Windows, find, put, prune, same_id, count_request, counted, count_or_zero, allow,
  allow_window, max_memory_windows, lacks_room, is_unlimited, minute_of, LimitError, verdict,
  exceeds,
}
use bablo.Limits.Window.Quota.{
  Call, serve, allowed_requests, allowed_tokens, sum_tokens, AtMost, Counts, put-Counts,
  put_other-Counts, prune-Counts, is_allowed,
}

exceeds→AtMost : (n : ℕ) (limit : Option ℤ) → exceeds (pos n) limit ≡ false → AtMost n limit
exceeds→AtMost n none h = tt
exceeds→AtMost n (some (pos l)) h = ground arith
exceeds→AtMost n (some (negsuc l)) h = ground arith

add_pos : (a b c : ℕ) → a + b ≡ c → pos c ≤ℤ max_int64 → add64 (pos a) (pos b) ≡ pos c
unfolding ◌+ℤ◌
add_pos a b c e l = add64_lem (pos a) (pos b) (ground arith) ∙ ground arith

module _ (id : WindowId) (rpm tpm : Option ℤ) (r t x : ℕ) where
  -- How a request of the key ends: it is refused, or counted and allowed only within the limits.
  abbrev Progress : Option LimitError × Windows → Type 0
  Progress (answer, ws) =
      ((is_allowed answer ≡ false) × Counts id r t ws)
      ⊎ (Counts id (suc r) (t + x) ws
          × ((is_allowed answer ≡ false) ⊎ (AtMost (suc r) rpm × AtMost (t + x) tpm)))

  counted_lem :
      (ws : Windows)
      → pos (suc r) ≤ℤ max_int64
      → pos (t + x) ≤ℤ max_int64
      → Counts id r t ws
      → counted (count_or_zero (find id ws)) (pos x)
        ≡ record { requests = pos (suc r); tokens = pos (t + x) }
  counted_lem ws p q h =
      ap (λ c. counted c (pos x)) h
      ∙ (rw (add_pos r 1 (suc r) (omega arith) p, add_pos t x (t + x) refl q) refl)

  judged :
      (ws : Windows)
      → Counts id (suc r) (t + x) ws
      → Progress (verdict rpm tpm (record { requests = pos (suc r); tokens = pos (t + x) }), ws)
  judged ws h = elim (Bool-cases (exceeds (pos (suc r)) rpm)) [
    | inl e ↦ rw e (inr (h, inl refl))
    | inr e ↦ elim (Bool-cases (exceeds (pos (t + x)) tpm)) [
      | inl f ↦ rw (e, f) (inr (h, inl refl))
      | inr f ↦ rw (e, f) (inr (h, inr (exceeds→AtMost _ rpm e, exceeds→AtMost _ tpm f)))
    ]
  ]

  count_request-Progress :
      (ws : Windows)
      → pos (suc r) ≤ℤ max_int64
      → pos (t + x) ≤ℤ max_int64
      → Counts id r t ws
      → Progress (count_request id rpm tpm (pos x) ws)
  unfolding count_request
  count_request-Progress ws p q h =
      subst (λ c. Progress (verdict rpm tpm c, put id c ws)) (sym (counted_lem ws p q h))
        (judged _ (put-Counts id (suc r) (t + x) ws))

  allow_window-Progress :
      (ws : Windows)
      → pos (suc r) ≤ℤ max_int64
      → pos (t + x) ≤ℤ max_int64
      → Counts id r t ws
      → Progress (allow_window id rpm tpm (pos x) ws)
  unfolding allow_window
  allow_window-Progress ws p q h = elim (Bool-cases (lacks_room id ws)) [
    | inr l ↦ rw (l, allow_window) (count_request-Progress ws p q h)
    | inl l ↦ elim (Bool-cases (leb max_memory_windows (length (prune id.minute ws)))) [
      | inl f ↦ rw (l, f, allow_window) (inl (refl, prune-Counts id id.minute r t ws refl h))
      | inr f ↦
          rw (l, f, allow_window)
            (count_request-Progress (prune id.minute ws) p q
              (prune-Counts id id.minute r t ws refl h))
    ]
  ]

-- The calls of other keys in the same minute.
allow_window_other-Counts :
    (id other : WindowId) (rpm tpm : Option ℤ) (tokens : ℤ) (r t : ℕ) (ws : Windows)
    → id.minute ≡ other.minute
    → same_id other id ≡ false
    → Counts id r t ws
    → Counts id r t (allow_window other rpm tpm tokens ws).1
unfolding allow_window count_request
allow_window_other-Counts id other rpm tpm tokens r t ws m d h =
    elim (Bool-cases (lacks_room other ws)) [
      | inr l ↦ rw (l, allow_window) (put_other-Counts id other _ r t ws d h)
      | inl l ↦ elim (Bool-cases (leb max_memory_windows (length (prune other.minute ws)))) [
        | inl f ↦ rw (l, f, allow_window) (prune-Counts id other.minute r t ws m h)
        | inr f ↦
            rw (l, f, allow_window)
              (put_other-Counts id other _ r t _ d (prune-Counts id other.minute r t ws m h))
      ]
    ]

-- What is allowed from counts on is nothing, or within the limits together with these.
abbrev Bounded : Option ℤ → Option ℤ → ℕ → ℕ → ℕ → ℕ → Type 0
Bounded rpm tpm r t n b = ((n ≡ 0) × (b ≡ 0)) ⊎ (AtMost (r + n) rpm × AtMost (t + b) tpm)

AtMost-mono : (limit : Option ℤ) (m n : ℕ) → m ≤ n → AtMost n limit → AtMost m limit
AtMost-mono none m n l h = tt
AtMost-mono (some x) m n l h = omega arith

-- The calls of one minute, those of a key under its limits.
abbrev pub OfMinute : ℕ → ℤ → Option ℤ → Option ℤ → Call → Type 0
OfMinute k m rpm tpm call =
    (minute_of call.now ≡ m) × ((call.key_id ≡ k) → (call.rpm ≡ rpm) × (call.tpm ≡ tpm))

-- One answer more, before the n requests and b tokens that are allowed after it.
one_more :
    (rpm tpm : Option ℤ) (r t x n b : ℕ) (allowed : Bool)
    → ((allowed ≡ false) × Bounded rpm tpm r t n b)
      ⊎ (Bounded rpm tpm (suc r) (t + x) n b
          × ((allowed ≡ false) ⊎ (AtMost (suc r) rpm × AtMost (t + x) tpm)))
    → Bounded rpm tpm r t ((if allowed then 1 else 0) + n) ((if allowed then x else 0) + b)
one_more rpm tpm r t x n b true (inl (f, h)) = absurd (cc f)
one_more rpm tpm r t x n b true (inr (h, inl f)) = absurd (cc f)
one_more rpm tpm r t x n b true (inr (inl z, inr (p, q))) =
    inr (AtMost-mono rpm _ (suc r) (omega arith) p, AtMost-mono tpm _ (t + x) (omega arith) q)
one_more rpm tpm r t x n b true (inr (inr (p, q), w)) =
    inr
      (AtMost-mono rpm _ (suc r + n) (omega arith) p, AtMost-mono tpm _ (t + x + b) (omega arith) q)
one_more rpm tpm r t x n b false (inl (f, inl z)) = inl (omega arith, omega arith)
one_more rpm tpm r t x n b false (inl (f, inr (p, q))) =
    inr (AtMost-mono rpm _ (r + n) (omega arith) p, AtMost-mono tpm _ (t + b) (omega arith) q)
one_more rpm tpm r t x n b false (inr (inl z, w)) = inl (omega arith, omega arith)
one_more rpm tpm r t x n b false (inr (inr (p, q), w)) =
    inr
      (AtMost-mono rpm _ (suc r + n) (omega arith) p, AtMost-mono tpm _ (t + x + b) (omega arith) q)

negative : (x : ℕ) → ltb_ℤ (negsuc x) (pos 0) ≡ true
negative x = ground arith

not_negative : (x : ℕ) → ltb_ℤ (pos x) (pos 0) ≡ false
not_negative x = ground arith

other_id :
    (a b : ℕ) (m n : ℤ)
    → (a == b) ≡ false
    → same_id (record { key_id = a; minute = m }) (record { key_id = b; minute = n }) ≡ false
unfolding same_id
other_id a b m n h = rw h

module _ (k : ℕ) (m : ℤ) (rpm tpm : Option ℤ) (limited : is_unlimited rpm tpm ≡ false) where
  id_of : WindowId
  id_of = record { key_id = k; minute = m }

  -- A call of another key.
  serve_other-Counts :
      (c : Call) (r t : ℕ) (ws : Windows)
      → minute_of c.now ≡ m
      → (c.key_id == k) ≡ false
      → Counts id_of r t ws
      → Counts id_of r t (serve c ws).1
  unfolding serve allow id_of
  serve_other-Counts c r t ws e d h = elim (Bool-cases (ltb_ℤ c.tokens (pos 0))) [
    | inl f ↦ rw (f, allow) h
    | inr f ↦ elim (Bool-cases (is_unlimited c.rpm c.tpm)) [
      | inl l ↦ rw (f, l, allow) h
      | inr l ↦
          rw (f, l, allow)
            (allow_window_other-Counts (record { key_id = k; minute = m }) _ c.rpm c.tpm c.tokens r
              t ws (sym e) (other_id c.key_id k _ m d) h)
    ]
  ]

  allow-Progress :
      (tokens : ℤ) (now r t : ℕ) (ws : Windows)
      → minute_of now ≡ m
      → pos (suc r) ≤ℤ max_int64
      → pos (t + pos_part tokens) ≤ℤ max_int64
      → Counts id_of r t ws
      → Progress id_of rpm tpm r t (pos_part tokens) (allow k rpm tpm tokens now ws)
  unfolding allow id_of
  allow-Progress (negsuc x) now r t ws e p q h = rw (negative x, allow) (inl (refl, h))
  allow-Progress (pos x) now r t ws e p q h =
      rw (not_negative x, limited, allow)
        (subst
          (λ n.
            Progress id_of rpm tpm r t x
              (allow_window (record { key_id = k; minute = n }) rpm tpm (pos x) ws))
          (sym e) (allow_window-Progress id_of rpm tpm r t x ws p q h))

  -- A call of the key.
  serve_own-Progress :
      (c : Call) (r t : ℕ) (ws : Windows)
      → OfMinute k m rpm tpm c
      → c.key_id ≡ k
      → pos (suc r) ≤ℤ max_int64
      → pos (t + pos_part c.tokens) ≤ℤ max_int64
      → Counts id_of r t ws
      → Progress id_of rpm tpm r t (pos_part c.tokens) (serve c ws)
  unfolding serve
  serve_own-Progress c r t ws u e p q h =
      let step = Progress id_of rpm tpm r t (pos_part c.tokens) in
      let limits = u.1 e in
      subst (λ key. step (allow key c.rpm c.tpm c.tokens c.now ws)) (sym e)
        (subst (λ l. step (allow k l c.tpm c.tokens c.now ws)) (sym limits.0)
          (subst (λ l. step (allow k rpm l c.tokens c.now ws)) (sym limits.1)
            (allow-Progress c.tokens c.now r t ws u.0 p q h)))

  All-Bounded :
      (calls : List Call) (r t : ℕ) (ws : Windows)
      → All (OfMinute k m rpm tpm) calls
      → pos (r + length calls) ≤ℤ max_int64
      → pos (t + sum_tokens calls) ≤ℤ max_int64
      → Counts id_of r t ws
      → Bounded rpm tpm r t (allowed_requests k calls ws) (allowed_tokens k calls ws)
  unfolding allowed_requests allowed_tokens sum_tokens
  All-Bounded [] r t ws u p q h = inl (refl, refl)
  All-Bounded (c ∷ cs) r t ws u p q h = elim (Bool-cases (c.key_id == k)) [
    | inr d ↦
        rw (d, allowed_requests, allowed_tokens)
          (one_more rpm tpm r t 0 _ _ false (
            inl (
              refl,
              All-Bounded cs r t (serve c ws).1 u.1 (omega arith) (omega arith)
                  (serve_other-Counts c r t ws u.0.0 d h),
            )))
    | inl d ↦
        rw (d, allowed_requests, allowed_tokens)
          (one_more rpm tpm r t (pos_part c.tokens) _ _ (is_allowed (serve c ws).0)
            (elim (serve_own-Progress c r t ws u.0 ((==_iff _ _).0 d) (omega arith) (omega arith)
              h) [
                | inl (f, k') ↦
                    inl (f, All-Bounded cs r t (serve c ws).1 u.1 (omega arith) (omega arith) k')
                | inr (k', w) ↦ inr (
                  All-Bounded cs (suc r) (t + pos_part c.tokens) (serve c ws).1 u.1 (omega arith)
                      (omega arith) k',
                  w,
                )
              ]))
  ]

unlimited_trivial :
    (rpm tpm : Option ℤ) (n b : ℕ) → is_unlimited rpm tpm ≡ true → AtMost n rpm × AtMost b tpm
unlimited_trivial none none n b h = (tt, tt)
unlimited_trivial none (some t) n b h = absurd (cc h)
unlimited_trivial (some r) tpm n b h = absurd (cc h)

AtMost-zero : (limit : Option ℤ) → AtMost 0 limit
AtMost-zero none = tt
AtMost-zero (some l) = omega arith

within_limits :
    (rpm tpm : Option ℤ) (n b : ℕ) → Bounded rpm tpm 0 0 n b → AtMost n rpm × AtMost b tpm
within_limits rpm tpm n b (inl z) = (
  AtMost-mono rpm n 0 (omega arith) (AtMost-zero rpm),
  AtMost-mono tpm b 0 (omega arith) (AtMost-zero tpm),
)
within_limits rpm tpm n b (inr (p, q)) =
    (AtMost-mono rpm n (0 + n) (omega arith) p, AtMost-mono tpm b (0 + b) (omega arith) q)

-- Of the calls of one minute, by whatever keys and in whatever order, those of a key that are
-- allowed are no more than its request limit, and their tokens no more than its token limit, if
-- the key's window is empty before and the counters do not overflow.
pub allowed-within_limits :
    (k : ℕ) (m : ℤ) (rpm tpm : Option ℤ) (calls : List Call) (ws : Windows)
    → All (OfMinute k m rpm tpm) calls
    → pos (length calls) ≤ℤ max_int64
    → pos (sum_tokens calls) ≤ℤ max_int64
    → find (record { key_id = k; minute = m }) ws ≡ none
    → AtMost (allowed_requests k calls ws) rpm × AtMost (allowed_tokens k calls ws) tpm
unfolding id_of
allowed-within_limits k m rpm tpm calls ws u p q h = elim (Bool-cases (is_unlimited rpm tpm)) [
  | inl l ↦ unlimited_trivial rpm tpm _ _ l
  | inr l ↦
      within_limits rpm tpm _ _
        (All-Bounded k m rpm tpm l calls 0 0 ws u (omega arith) (omega arith) (ap count_or_zero h))
]
