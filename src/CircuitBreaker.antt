-- ===== src/CircuitBreaker.antt =====
-- `CircuitBreaker` of src/utils/circuitBreaker.ts. `now` is the clock at a call.
use unit_ai_specialists.Common.{
  ℕ, suc, ◌-◌, ltb, leb, ◌≡◌, refl, ◌∙◌, ap, Bool, true, false, not, ◌&&◌, ◌||◌, Option, none, some,
  List, [], ◌∷◌, String, eq_refl, length, if◌then◌else◌, arith, Bool-cases, inl, inr,
}
use unit_ai_specialists.Common.Dict.{Dict, get, set, get-set}

pub data State : Type 0 where
  closed half_open opened : State

pub record Entry : Type 0 where
  pub state : State
  pub failures : ℕ
  pub opened_at : Option ℕ

abbrev pub is_opened : State → Bool
is_opened opened = true
is_opened _ = false

-- An entry without the time of its opening compares with no time.
abbrev cooled : ℕ → ℕ → Option ℕ → Bool
cooled cooldown now none = false
cooled cooldown now (some t) = ltb cooldown (now - t)

abbrev or_closed : Option Entry → Entry
or_closed none = record { state = closed; failures = 0; opened_at = none }
or_closed (some e) = e

module _ (threshold cooldown : ℕ) (backend : String) where
  state_of : ℕ → Option Entry → Dict Entry → State × Dict Entry
  state_of now none states = (closed, states)
  state_of now (some e) states =
      if is_opened e.state && cooled cooldown now e.opened_at
      then (half_open, set backend (record e { state = half_open }) states)
      else (e.state, states)

  unfoldable pub get_state : ℕ → Dict Entry → State × Dict Entry
  unfolding state_of
  get_state now states = state_of now (get backend states) states

  unfoldable pub is_available : ℕ → Dict Entry → Bool × Dict Entry
  unfolding get_state
  is_available now states =
      let (state, after) = get_state now states in (not (is_opened state), after)

  unfoldable pub record_success : Dict Entry → Dict Entry
  record_success states =
      set backend (record { state = closed; failures = 0; opened_at = none }) states

  failed : ℕ → Entry → Entry
  failed now e =
      if leb threshold (suc e.failures)
      then record { state = opened; failures = suc e.failures; opened_at = some now }
      else record e { failures = suc e.failures }

  unfoldable pub record_failure : ℕ → Dict Entry → Dict Entry
  unfolding failed
  record_failure now states = set backend (failed now (or_closed (get backend states))) states

  -- Failures at these times, the latest first, after a success.
  unfoldable pub failures_at : List ℕ → Dict Entry → Dict Entry
  failures_at [] states = record_success states
  failures_at (t ∷ ts) states = record_failure t (failures_at ts states)

  -- What a run of failures leaves of the entry.
  abbrev Counted : List ℕ → Entry → Type 0
  Counted ts e =
      (e.failures ≡ length ts)
      × ((leb threshold (length ts) ≡ false) → (e.state ≡ closed) × (e.opened_at ≡ none))

  failed-Counted : (t : ℕ) (ts : List ℕ) (e : Entry) → Counted ts e → Counted (t ∷ ts) (failed t e)
  unfolding failed
  failed-Counted t ts e (count, shut) = elim (Bool-cases (leb threshold (suc e.failures))) [
    | inl o ↦ rw o (ap suc count, λ n. absurd (ground (arith, o, n, count)))
    | inr o ↦ rw o (ap suc count, λ n. shut (ground (arith, o, n, count)))
  ]

  entry_after :
      (ts : List ℕ) (states : Dict Entry)
      → (e : Entry) × (get backend (failures_at ts states) ≡ some e) × Counted ts e
  unfolding failures_at record_success record_failure
  entry_after [] states = (
    record { state = closed; failures = 0; opened_at = none },
    rw (get-set, eq_refl backend) refl,
    (refl, λ n. (refl, refl)),
  )
  entry_after (t ∷ ts) states =
      let (e, there, counted) = entry_after ts states in
      (failed t e, rw (get-set, eq_refl backend, there) refl, failed-Counted t ts e counted)

  state_of_latest :
      (t now : ℕ) (e : Entry) (states : Dict Entry)
      → (leb threshold (suc e.failures) ≡ false → e.state ≡ closed)
      → not (is_opened (state_of now (some (failed t e)) states).0)
        ≡ (ltb (suc e.failures) threshold || ltb cooldown (now - t))
  unfolding state_of failed
  state_of_latest t now e states shut = elim (Bool-cases (leb threshold (suc e.failures))) [
    | inl o ↦ rw o (ground (arith, o))
    | inr o ↦ rw o (ground (arith, o, shut o))
  ]

  -- After a success and then failures alone, the last of them at `t`, a backend is unavailable exactly
  -- when the failures have reached the threshold and no more than the cooldown has passed since `t`.
  pub trips_iff :
      (t now : ℕ) (ts : List ℕ) (states : Dict Entry)
      → (is_available now (failures_at (t ∷ ts) states)).0
        ≡ (ltb (length (t ∷ ts)) threshold || ltb cooldown (now - t))
  unfolding is_available get_state failures_at record_failure
  trips_iff t now ts states =
      let (e, there, (count, shut)) = entry_after ts states in
      let not_full : leb threshold (suc e.failures) ≡ false → e.state ≡ closed =
        λ n. (shut (ground (arith, n, count))).0 in
      rw (get-set, eq_refl backend, there)
        (state_of_latest t now e _ not_full
          ∙ ap (λ n. ltb (suc n) threshold || ltb cooldown (now - t)) count)
