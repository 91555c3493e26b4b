-- ===== src/TaskPrompt/Skills/Laws.antt =====
-- The skills at the head of a prompt.
use unit_ai_specialists.Common.{
  ℕ, ◌==◌, Bool, true, false, ◌||◌, ◌≡◌, refl, subst, inl, inr, some, List, [], ◌∷◌, ◌++◌, any, All,
  Bool-cases, arith,
}
use unit_ai_specialists.Common.Text.{same_codes}
use unit_ai_specialists.TaskPrompt.Template.{Text}
use unit_ai_specialists.TaskPrompt.Skills.{is_skill_name, skill_names}

same_codes-swap : (s t : Text) → same_codes s t ≡ same_codes t s
same_codes-swap [] [] = refl
same_codes-swap [] (b ∷ t) = refl
same_codes-swap (a ∷ s) [] = refl
same_codes-swap (a ∷ s) (b ∷ t) = rw (same_codes-swap s t, ==_swap a b) refl
  where
    ==_swap : (a b : ℕ) → (a == b) ≡ (b == a)
    ==_swap a b = ground arith

same_codes_self : (s : Text) → same_codes s s ≡ true
same_codes_self [] = refl
same_codes_self (a ∷ s) = ground (arith, same_codes_self s)

abbrev pub named : List Text → Text → Bool
named names n = any (same_codes n) names

abbrev pub Distinct : List Text → Type 0
Distinct [] = Unit {0}
Distinct (n ∷ ns) = (named ns n ≡ false) × Distinct ns

any-append : (n : Text) (xs ys : List Text) → named (xs ++ ys) n ≡ (named xs n || named ys n)
any-append n [] ys = refl
any-append n (x ∷ xs) ys = ground (arith, any-append n xs ys)

Distinct-snoc :
    (names : List Text) (n : Text)
    → named names n ≡ false
    → Distinct names
    → Distinct (names ++ n ∷ [])
Distinct-snoc [] n h d = (refl, tt)
Distinct-snoc (x ∷ xs) n h d = (
  ground (arith, any-append x xs (n ∷ []), same_codes-swap n x, h, d.0),
  Distinct-snoc xs n (ground (arith, h)) d.1,
)

-- What the loop over the paths keeps of the names it holds, and what it makes of the rest.
record Loaded (held rest out : List Text) : Type 0 where
  distinct : Distinct held → Distinct out
  keeps : (n : Text) → named held n ≡ true → named out n ≡ true
  lists : All (λ n. (named out n ≡ true) × (is_skill_name n ≡ true)) rest
  only : (n : Text) → named out n ≡ true → (named held n || named rest n) ≡ true

Loaded-none : (held : List Text) → Loaded held [] held
Loaded-none held = record {
  distinct = λ d. d;
  keeps = λ n h. h;
  lists = tt;
  only = λ n h. ground (arith, h);
}

Loaded-again :
    (held ns out : List Text) (n : Text)
    → is_skill_name n ≡ true
    → named held n ≡ true
    → Loaded held ns out
    → Loaded held (n ∷ ns) out
Loaded-again held ns out n valid seen l = record {
  distinct = l.distinct;
  keeps = l.keeps;
  lists = ((l.keeps n seen, valid), l.lists);
  only = λ m h. ground (arith, l.only m h);
}

Loaded-new :
    (held ns out : List Text) (n : Text)
    → is_skill_name n ≡ true
    → named held n ≡ false
    → Loaded (held ++ n ∷ []) ns out
    → Loaded held (n ∷ ns) out
Loaded-new held ns out n valid fresh l = record {
  distinct = λ d. l.distinct (Distinct-snoc held n fresh d);
  keeps = λ m h. l.keeps m (ground (arith, any-append m held (n ∷ []), h));
  lists =
      ((l.keeps n (ground (arith, any-append n held (n ∷ []), same_codes_self n)), valid), l.lists);
  only = λ m h. ground (arith, any-append m held (n ∷ []), l.only m h);
}

skill_names-Loaded :
    (held rest out : List Text) → skill_names held rest ≡ some out → Loaded held rest out
unfolding skill_names
skill_names-Loaded held [] out h = subst (Loaded held []) (cc h) (Loaded-none held)
skill_names-Loaded held (n ∷ ns) out h = elim (Bool-cases (is_skill_name n)) [
  | inr bad ↦ absurd (cc (rw bad at h))
  | inl valid ↦ elim (Bool-cases (named held n)) [
    | inl seen ↦
        Loaded-again held ns out n valid seen
          (skill_names-Loaded held ns out (rw (valid, seen) at h))
    | inr fresh ↦
        Loaded-new held ns out n valid fresh
          (skill_names-Loaded (held ++ n ∷ []) ns out (rw (valid, fresh) at h))
  ]
]

-- The skills of a prompt that is not refused for a name: no name comes twice, every name of the
-- paths is among them and has the form of a name, and no other is.
pub skill_names-Distinct :
    (paths out : List Text)
    → skill_names [] paths ≡ some out
    → Distinct out
      × All (λ n. (named out n ≡ true) × (is_skill_name n ≡ true)) paths
      × ((n : Text) → named out n ≡ true → named paths n ≡ true)
skill_names-Distinct paths out h =
    let l = skill_names-Loaded [] paths out h in (l.distinct tt, l.lists, l.only)
