-- ===== src/StaleJobs/Commands.antt =====
-- `isSpecialistRunCommand` of src/specialist/process-health.ts, on the code units of a command line.
use unit_ai_specialists.Common.{
  ℕ, ◌==◌, Bool, true, false, not, ◌&&◌, ◌||◌, List, [], ◌∷◌, String, map, ◌≡◌, refl, if◌then◌else◌,
}
use unit_ai_specialists.Common.Text.{codes, is_space, same_codes}

-- `raw.replace(/\0/g, ' ')`.
unfoldable pub spaced : List ℕ → List ℕ
spaced s = map (λ c. if c == 0 then 32 else c) s

abbrev push_word : List ℕ → List (List ℕ) → List (List ℕ)
push_word [] words = words
push_word (c ∷ cs) words = (c ∷ cs) ∷ words

abbrev first_word : List (List ℕ) → List ℕ
first_word [] = []
first_word (w ∷ ws) = w

abbrev other_words : List (List ℕ) → List (List ℕ)
other_words [] = []
other_words (w ∷ ws) = ws

-- The pieces between white space, the empty ones too: the first piece may be empty.
pieces : List ℕ → List (List ℕ)
pieces [] = [] ∷ []
pieces (c ∷ s) =
    let rest = pieces s in
    if is_space c then [] ∷ rest else (c ∷ first_word rest) ∷ other_words rest

drop_empty : List (List ℕ) → List (List ℕ)
drop_empty [] = []
drop_empty (w ∷ ws) = push_word w (drop_empty ws)

-- `cmdline.split(/\s+/).filter(Boolean)`.
unfoldable pub tokens : List ℕ → List (List ℕ)
unfolding pieces drop_empty is_space
tokens s = drop_empty (pieces s)

-- `command.split('/').pop()`: what follows the last slash; `seen` is what followed the one before.
basename_from : List ℕ → List ℕ → List ℕ
basename_from [] seen = seen
basename_from (c ∷ s) seen = basename_from s (if c == b'/' then [] else append_one seen c)
  where
    append_one : List ℕ → ℕ → List ℕ
    append_one [] c = c ∷ []
    append_one (x ∷ xs) c = x ∷ append_one xs c

unfoldable pub basename : List ℕ → List ℕ
unfolding basename_from
basename s = basename_from s []

abbrev pub is_named : String → List ℕ → Bool
is_named name s = same_codes (codes name) (basename s)

unfoldable pub is_shell_wrapper : List ℕ → Bool
unfolding basename
is_shell_wrapper s = is_named "sh" s || is_named "bash" s || is_named "zsh" s || is_named "fish" s

abbrev is_run : List (List ℕ) → Bool
is_run [] = false
is_run (w ∷ ws) = same_codes (codes "run") w

-- The token after the first one that names the program is `run`.
unfoldable pub runs_specialist : List (List ℕ) → Bool
unfolding basename
runs_specialist [] = false
runs_specialist (w ∷ ws) =
    let rest = runs_specialist ws in
    if is_named "specialists" w || is_named "sp" w then is_run ws else rest

unfoldable pub is_command : List (List ℕ) → Bool
unfolding is_shell_wrapper runs_specialist
is_command [] = false
is_command (w ∷ ws) = not (is_shell_wrapper w) && runs_specialist (w ∷ ws)

unfoldable pub is_specialist_run_command : List ℕ → Bool
unfolding tokens is_command
is_specialist_run_command s = is_command (tokens s)

read_command : is_specialist_run_command (codes "/usr/bin/node  /opt/bin/sp run explorer") ≡ true
unfolding is_specialist_run_command
read_command = refl

wrapped_command : is_specialist_run_command (codes "/bin/bash -c sp run explorer") ≡ false
unfolding is_specialist_run_command
wrapped_command = refl
