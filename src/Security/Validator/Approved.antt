-- ===== src/Security/Validator/Approved.antt =====
-- What is known of a command that runs without asking.
use tell_me_go.Base.{ℕ, true, false, ◌≡◌, ◌⊎◌, [], ◌∷◌, ◌++◌, Bytes, codes, contains}
use tell_me_go.Security.Quotes.{pipe}
use tell_me_go.Security.Quotes.Bare.{has_bare, in_open}
use tell_me_go.Security.Validator.{Validator, is_go_test}

-- The command does not have the character, or is a `go test` in which it is harmless: a `$` that opens no
-- substitution, or a pipe that stands in quotes everywhere.
abbrev pub IsHarmless : Bytes → ℕ → Type 0
IsHarmless command c =
    (contains command (c ∷ []) ≡ false)
    ⊎ ((is_go_test command ≡ true)
        × (((c ≡ 36) × (contains command (codes "$(") ≡ false))
            ⊎ ((c ≡ pipe) × (has_bare pipe in_open command ≡ false))))

-- The characters that a shell gives a meaning: pipes, lists, redirections, groups, substitutions, patterns
-- and line breaks.
abbrev pub shell_chars : Bytes
shell_chars = codes "|&;><(){}$`*?[" ++ 10 ∷ 13 ∷ []
