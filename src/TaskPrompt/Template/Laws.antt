-- ===== src/TaskPrompt/Template/Laws.antt =====
-- The replacement of the tokens of a template.
use mathlib.Core.List.{append_assoc}
use unit_ai_specialists.Common.{
  ℕ, ◌==◌, ==_iff, true, false, ◌≡◌, refl, sym, ◌∙◌, subst, inl, inr, Option, some, List, [], ◌∷◌,
  ◌++◌, All, All-append, Bool-cases, Option-cases, defined,
}
use unit_ai_specialists.TaskPrompt.Template.{
  Text, starts_name, continues_name, Piece, copied, token, Reading, plain, dollar, name, begin,
  advance, scan, tokens_of, extract_template_tokens, written_as, render_pieces, render_template,
}

-- The first code unit of a text continues no name.
abbrev pub Stops : Text → Type 0
Stops [] = Unit {0}
Stops (c ∷ s) = continues_name c ≡ false

-- A `$` before this text begins no token.
abbrev pub Bare : Text → Type 0
Bare [] = Unit {0}
Bare (c ∷ s) = starts_name c ≡ false

abbrev pub IsName : Text → Type 0
IsName [] = ⊥
IsName (c ∷ s) = (starts_name c ≡ true) × All (λ d. continues_name d ≡ true) s

-- The second text is the first one with every token replaced by its value and nothing else changed.
-- A token is a `$` with the longest name behind it.
pub data Fills (variables : Text → Option Text) : Text → Text → Type 0 where
  ends : Fills variables [] []
  copies :
      {c : ℕ} {s o : Text}
      → ((c == b'$') ≡ true → Bare s)
      → Fills variables s o
      → Fills variables (c ∷ s) (c ∷ o)
  fills :
      {n v s o : Text}
      → IsName n
      → Stops s
      → variables n ≡ some v
      → Fills variables s o
      → Fills variables (b'$' ∷ n ++ s) (v ++ o)

abbrev pending : Reading → Text
pending plain = []
pending dollar = b'$' ∷ []
pending (name n) = b'$' ∷ n

scan_dollar : (c : ℕ) (s : Text) → (c == b'$') ≡ true → scan plain (c ∷ s) ≡ scan dollar s
unfolding scan advance
scan_dollar c s h = rw h refl

scan_copy : (c : ℕ) (s : Text) → (c == b'$') ≡ false → scan plain (c ∷ s) ≡ copied c ∷ scan plain s
unfolding scan advance
scan_copy c s h = rw h refl

scan_start :
    (c : ℕ) (s : Text) → starts_name c ≡ true → scan dollar (c ∷ s) ≡ scan (name (c ∷ [])) s
unfolding scan advance
scan_start c s h = rw h refl

scan_more :
    (n : Text) (c : ℕ) (s : Text)
    → continues_name c ≡ true
    → scan (name n) (c ∷ s) ≡ scan (name (n ++ c ∷ [])) s
unfolding scan advance
scan_more n c s h = rw h refl

-- What ends a token or a `$` is read as it is anywhere.
begin-plain :
    (p : Piece) (c : ℕ) (s : Text)
    → (begin (p ∷ []) c).0 ++ scan (begin (p ∷ []) c).1 s ≡ p ∷ scan plain (c ∷ s)
unfolding scan advance
begin-plain p c s = elim (Bool-cases (c == b'$')) [ inl h ↦ rw h refl | inr h ↦ rw h refl ]

scan_bare :
    (c : ℕ) (s : Text)
    → starts_name c ≡ false
    → scan dollar (c ∷ s) ≡ copied b'$' ∷ scan plain (c ∷ s)
unfolding scan advance
scan_bare c s h = first c s h ∙ begin-plain (copied b'$') c s
  where
    first :
        (c : ℕ) (s : Text)
        → starts_name c ≡ false
        → scan dollar (c ∷ s)
          ≡ (begin (copied b'$' ∷ []) c).0 ++ scan (begin (copied b'$' ∷ []) c).1 s
    first c s h = rw h refl

scan_stop :
    (n : Text) (c : ℕ) (s : Text)
    → continues_name c ≡ false
    → scan (name n) (c ∷ s) ≡ token n ∷ scan plain (c ∷ s)
unfolding scan advance
scan_stop n c s h = first n c s h ∙ begin-plain (token n) c s
  where
    first :
        (n : Text) (c : ℕ) (s : Text)
        → continues_name c ≡ false
        → scan (name n) (c ∷ s) ≡ (begin (token n ∷ []) c).0 ++ scan (begin (token n ∷ []) c).1 s
    first n c s h = rw h refl

IsName-more : (n : Text) (c : ℕ) → IsName n → continues_name c ≡ true → IsName (n ++ c ∷ [])
IsName-more [] c h k = absurd h
IsName-more (a ∷ n) c h k = (h.0, All-append (λ d. continues_name d ≡ true) n (c ∷ []) h.1 (k, tt))

module _ (v : Text → Option Text) where
  abbrev pub Known : List Piece → Type 0
  Known ps = All (λ n. defined (v n) ≡ true) (tokens_of ps)

  abbrev Plain : Text → Type 0
  Plain s = Known (scan plain s) → Fills v s (render_pieces v (scan plain s))

  abbrev Dollar : Text → Type 0
  Dollar s = Known (scan dollar s) → Fills v (b'$' ∷ s) (render_pieces v (scan dollar s))

  abbrev Named : Text → Type 0
  Named s =
      (n : Text)
      → IsName n
      → Known (scan (name n) s)
      → Fills v (b'$' ∷ n ++ s) (render_pieces v (scan (name n) s))

  -- A token whose name has ended.
  token-Fills :
      (n s : Text) (ps : List Piece)
      → IsName n
      → Stops s
      → (Known ps → Fills v s (render_pieces v ps))
      → Known (token n ∷ ps)
      → Fills v (b'$' ∷ n ++ s) (render_pieces v (token n ∷ ps))
  unfolding render_pieces
  token-Fills n s ps named stops next known = elim (Option-cases (v n)) [
    | inl e ↦ absurd (cc (e, known.0))
    | inr (w, e) ↦
        subst (λ o. Fills v (b'$' ∷ n ++ s) (written_as n o ++ render_pieces v ps)) (sym e)
          (fills named stops e (next known.1))
  ]

  copied_at :
      (c : ℕ) (s : Text) (ps : List Piece)
      → ((c == b'$') ≡ true → Bare s)
      → Fills v s (render_pieces v ps)
      → Fills v (c ∷ s) (render_pieces v (copied c ∷ ps))
  unfolding render_pieces
  copied_at c s ps bare next = copies bare next

  abbrev Scanned : Text → List Piece → Type 0
  Scanned s ps = Known ps → Fills v s (render_pieces v ps)

  Plain-from : (c : ℕ) (s : Text) → Plain s → Dollar s → Plain (c ∷ s)
  Plain-from c s p d = elim (Bool-cases (c == b'$')) [
    | inl h ↦
        subst (λ (x : ℕ). Scanned (x ∷ s) (scan plain (c ∷ s))) (sym ((==_iff c b'$').0 h))
          (subst (Scanned (b'$' ∷ s)) (sym (scan_dollar c s h)) d)
    | inr h ↦
        subst (Scanned (c ∷ s)) (sym (scan_copy c s h))
          (λ known. copied_at c s (scan plain s) (λ t. absurd (cc (h, t))) (p known))
  ]

  Dollar-from : (c : ℕ) (s : Text) → Named s → Plain (c ∷ s) → Dollar (c ∷ s)
  Dollar-from c s n p = elim (Bool-cases (starts_name c)) [
    | inl h ↦ subst (Scanned (b'$' ∷ c ∷ s)) (sym (scan_start c s h)) (n (c ∷ []) (h, tt))
    | inr h ↦
        subst (Scanned (b'$' ∷ c ∷ s)) (sym (scan_bare c s h))
          (λ known. copied_at b'$' (c ∷ s) (scan plain (c ∷ s)) (λ _. h) (p known))
  ]

  Named-from : (c : ℕ) (s : Text) → Named s → Plain (c ∷ s) → Named (c ∷ s)
  Named-from c s more p n h = elim (Bool-cases (continues_name c)) [
    | inl k ↦ subst (Scanned (b'$' ∷ n ++ c ∷ s)) (sym (scan_more n c s k)) (
        subst (λ t. Scanned (b'$' ∷ t) (scan (name (n ++ c ∷ [])) s)) (append_assoc n (c ∷ []) s)
          (more (n ++ c ∷ []) (IsName-more n c h k)))
    | inr k ↦
        subst (Scanned (b'$' ∷ n ++ c ∷ s)) (sym (scan_stop n c s k))
          (token-Fills n (c ∷ s) (scan plain (c ∷ s)) h k p)
  ]

  scan-Fills : (s : Text) → Plain s × Dollar s × Named s
  unfolding scan render_pieces
  scan-Fills [] =
      (λ _. ends, λ _. copies (λ _. tt) ends, λ n h. token-Fills n [] [] h tt (λ _. ends))
  scan-Fills (c ∷ s) =
      let (p, d, n) = scan-Fills s in
      let whole = Plain-from c s p d in (whole, Dollar-from c s n whole, Named-from c s n whole)

-- The rendering of a template whose tokens all have values.
pub render-Fills :
    (v : Text → Option Text) (template : Text)
    → All (λ n. defined (v n) ≡ true) (extract_template_tokens template)
    → Fills v template (render_template template v)
unfolding extract_template_tokens render_template
render-Fills v template known = (scan-Fills v template).0 known
