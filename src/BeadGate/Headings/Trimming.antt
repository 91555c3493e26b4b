-- ===== src/BeadGate/Headings/Trimming.antt =====
-- `trim` and the removal of a colon on texts with a part that is not known.
use mathlib.Core.List.{reverse, reverse-append, reverse-reverse, append_assoc}
use unit_ai_specialists.Common.{
  ℕ, Bool, true, false, ◌≡◌, refl, sym, ap, ◌∙◌, inl, inr, List, [], ◌∷◌, ◌++◌, All, filter,
  Bool-cases,
}
use unit_ai_specialists.Common.Text.{is_space, skip, trim}
use unit_ai_specialists.BeadGate.Headings.{EndsInText}

pub EndsInText-append : (xs ys : List ℕ) → EndsInText ys → EndsInText (xs ++ ys)
EndsInText-append [] ys h = h
EndsInText-append (x ∷ []) [] h = absurd h
EndsInText-append (x ∷ []) (y ∷ ys) h = h
EndsInText-append (x ∷ y ∷ xs) ys h = EndsInText-append (y ∷ xs) ys h

last_of :
    (s : List ℕ) → EndsInText s → (w : List ℕ) × (z : ℕ) × (s ≡ w ++ z ∷ []) × (is_space z ≡ false)
last_of [] h = absurd h
last_of (c ∷ []) h = ([], c, refl, h)
last_of (c ∷ d ∷ s) h = let (w, z, e, k) = last_of (d ∷ s) h in (c ∷ w, z, ap (λ l. c ∷ l) e, k)

skip_stop : (c : ℕ) (s : List ℕ) → is_space c ≡ false → skip is_space (c ∷ s) ≡ c ∷ s
unfolding skip
skip_stop c s h = rw h refl

-- Nothing is trimmed where both ends are text.
pub trim_text :
    (c : ℕ) (s : List ℕ) → is_space c ≡ false → EndsInText (c ∷ s) → trim (c ∷ s) ≡ c ∷ s
unfolding trim
trim_text c s h ends =
    let (w, z, e, k) = last_of (c ∷ s) ends in
    let back : reverse (c ∷ s) ≡ z ∷ reverse w = ap reverse e ∙ reverse-append w (z ∷ []) in
    ap (λ l. reverse (skip is_space (reverse l))) (skip_stop c s h)
    ∙ ap (λ l. reverse (skip is_space l)) back
    ∙ ap reverse (skip_stop z (reverse w) k)
    ∙ ap reverse (sym back)
    ∙ reverse-reverse (c ∷ s)

-- What is skipped in front of a text stands before it.
skip_until :
    (xs : List ℕ) (c : ℕ) (ys : List ℕ)
    → is_space c ≡ false
    → (left : List ℕ) × (skip is_space (xs ++ c ∷ ys) ≡ left ++ c ∷ ys)
unfolding skip
skip_until [] c ys h = ([], skip_stop c ys h)
skip_until (x ∷ xs) c ys h = elim (Bool-cases (is_space x)) [
  | inl blank ↦ let (left, e) = skip_until xs c ys h in (left, rw blank e)
  | inr full ↦ (x ∷ xs, rw full refl)
]

pub trim_until :
    (a : ℕ) (xs : List ℕ) (c : ℕ) (ys : List ℕ)
    → is_space a ≡ false
    → is_space c ≡ false
    → (left : List ℕ) × (trim (a ∷ xs ++ c ∷ ys) ≡ a ∷ xs ++ c ∷ left)
unfolding trim
trim_until a xs c ys h k =
    let (front, e) = skip_until (reverse ys) c (reverse (a ∷ xs)) k in
    let split : reverse (a ∷ xs ++ c ∷ ys) ≡ reverse ys ++ c ∷ reverse (a ∷ xs) =
      reverse-append (a ∷ xs) (c ∷ ys)
      ∙ ap (λ l. l ++ reverse (a ∷ xs)) (reverse-append (c ∷ []) ys)
      ∙ append_assoc (reverse ys) (c ∷ []) (reverse (a ∷ xs)) in
    (
      reverse front,
      ap (λ l. reverse (skip is_space (reverse l))) (skip_stop a (xs ++ c ∷ ys) h)
          ∙ ap (λ l. reverse (skip is_space l)) split
          ∙ ap reverse e
          ∙ reverse-append front (c ∷ reverse (a ∷ xs))
          ∙ ap (λ l. l ++ reverse front)
              (reverse-append (c ∷ []) (reverse (a ∷ xs))
                ∙ ap (λ l. l ++ c ∷ []) (reverse-reverse (a ∷ xs)))
          ∙ append_assoc (a ∷ xs) (c ∷ []) (reverse front),
    )

pub filter-All : (p : ℕ → Bool) (s : List ℕ) → All (λ c. p c ≡ true) s → filter p s ≡ s
filter-All p [] h = refl
filter-All p (c ∷ s) h = rw (h.0) (ap (λ l. c ∷ l) (filter-All p s h.1))
