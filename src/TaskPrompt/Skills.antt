-- ===== src/TaskPrompt/Skills.antt =====
-- `deriveSkillName` and `buildSkillPrefix` of src/specialist/task-prompt.ts. The functions `basename`
-- and `dirname` of the runtime are arguments.
pub mod Laws
use mathlib.Core.Option.{map as map_option}
use unit_ai_specialists.Common.{
  ℕ, leb, ◌==◌, Bool, true, false, not, ◌&&◌, ◌||◌, Option, none, some, List, [], ◌∷◌, ◌++◌, map,
  any, all, String, if◌then◌else◌,
}
use unit_ai_specialists.Common.Text.{codes, same_codes}
use unit_ai_specialists.TaskPrompt.Template.{Text}

pub data Surface : Type 0 where
  pi claude codex : Surface

-- The text without `.md` at its end, where it has it.
abbrev without_md : Text → Text
without_md [] = []
without_md (c ∷ s) =
    let rest = without_md s in if same_codes (c ∷ s) (codes ".md") then [] else c ∷ rest

unfoldable pub derive_skill_name : (Text → Text) → (Text → Text) → Text → Text
derive_skill_name basename dirname path =
    if same_codes (basename path) (codes "SKILL.md")
    then basename (dirname path)
    else without_md (basename path)

abbrev is_letter_or_digit : ℕ → Bool
is_letter_or_digit c =
    (leb b'a' c && leb c b'z') || (leb b'A' c && leb c b'Z') || (leb b'0' c && leb c b'9')

-- `/^[A-Za-z0-9][A-Za-z0-9._-]*$/`
unfoldable pub is_skill_name : Text → Bool
is_skill_name [] = false
is_skill_name (c ∷ s) =
    is_letter_or_digit c && all (λ d. is_letter_or_digit d || d == b'.' || d == b'_' || d == b'-') s

-- The loop over the paths, after these names; `none` is the error.
unfoldable pub skill_names : List Text → List Text → Option (List Text)
skill_names names [] = some names
skill_names names (n ∷ ns) =
    if not (is_skill_name n)
    then none
    else skill_names (if any (same_codes n) names then names else names ++ n ∷ []) ns

abbrev pub join : Text → List Text → Text
join between [] = []
join between (n ∷ []) = n
join between (n ∷ ns) = n ++ between ++ join between ns

abbrev command : Surface → Text → Text
command pi n = codes "/skill:" ++ n
command claude n = codes "/" ++ n
command codex n = codes "$" ++ n

abbrev between : Surface → Text
between claude = codes "\n"
between _ = codes " "

abbrev prefix_of : Surface → List Text → Text
prefix_of surface [] = []
prefix_of surface (n ∷ ns) = join (between surface) (map (command surface) (n ∷ ns)) ++ codes "\n\n"

unfoldable pub build_skill_prefix :
    (Text → Text) → (Text → Text) → List Text → Surface → Option Text
unfolding derive_skill_name skill_names
build_skill_prefix basename dirname paths surface =
    map_option (prefix_of surface) (skill_names [] (map (derive_skill_name basename dirname) paths))
