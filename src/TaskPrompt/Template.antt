-- ===== src/TaskPrompt/Template.antt =====
-- src/specialist/templateEngine.ts: the `$name` tokens of a template, as
-- `/\$([a-zA-Z_][a-zA-Z0-9_]*)/g` matches them from left to right, and their replacement. A text is
-- the list of its code units.
pub mod Laws
use unit_ai_specialists.Common.{
  ℕ, leb, ◌==◌, Bool, true, false, ◌&&◌, ◌||◌, ◌≡◌, refl, Option, none, some, List, [], ◌∷◌, ◌++◌,
  if◌then◌else◌,
}
use unit_ai_specialists.Common.Text.{codes}

abbrev pub Text : Type 0
Text = List ℕ

unfoldable pub starts_name : ℕ → Bool
starts_name c = (leb b'a' c && leb c b'z') || (leb b'A' c && leb c b'Z') || c == b'_'

unfoldable pub continues_name : ℕ → Bool
unfolding starts_name
continues_name c = starts_name c || (leb b'0' c && leb c b'9')

pub data Piece : Type 0 where
  copied : ℕ → Piece
  token : Text → Piece

-- What the matcher holds: nothing, a `$`, or a `$` with the name read so far.
pub data Reading : Type 0 where
  plain dollar : Reading
  name : Text → Reading

-- The pieces that a code unit ends, and what is held after it.
abbrev pub begin : List Piece → ℕ → List Piece × Reading
begin ended c = if c == b'$' then (ended, dollar) else (ended ++ copied c ∷ [], plain)

unfoldable pub advance : Reading → ℕ → List Piece × Reading
unfolding starts_name continues_name
advance plain c = begin [] c
advance dollar c = if starts_name c then ([], name (c ∷ [])) else begin (copied b'$' ∷ []) c
advance (name n) c = if continues_name c then ([], name (n ++ c ∷ [])) else begin (token n ∷ []) c

abbrev pub end_of : Reading → List Piece
end_of plain = []
end_of dollar = copied b'$' ∷ []
end_of (name n) = token n ∷ []

unfoldable pub scan : Reading → Text → List Piece
unfolding advance
scan held [] = end_of held
scan held (c ∷ s) = let next = advance held c in next.0 ++ scan next.1 s

abbrev pub tokens_of : List Piece → List Text
tokens_of [] = []
tokens_of (copied c ∷ ps) = tokens_of ps
tokens_of (token n ∷ ps) = n ∷ tokens_of ps

unfoldable pub extract_template_tokens : Text → List Text
unfolding scan
extract_template_tokens template = tokens_of (scan plain template)

-- A token without a value stays as it is written.
abbrev pub written_as : Text → Option Text → Text
written_as n none = b'$' ∷ n
written_as n (some v) = v

unfoldable pub render_pieces : (Text → Option Text) → List Piece → Text
render_pieces variables [] = []
render_pieces variables (copied c ∷ ps) = c ∷ render_pieces variables ps
render_pieces variables (token n ∷ ps) = written_as n (variables n) ++ render_pieces variables ps

unfoldable pub render_template : Text → (Text → Option Text) → Text
unfolding scan render_pieces
render_template template variables = render_pieces variables (scan plain template)

rendered_text :
    render_template (codes "a $x$yy1-$$z $9") (λ n. some (codes "V")) ≡ codes "a VV-$V $9"
unfolding render_template
rendered_text = refl
