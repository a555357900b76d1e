-- ===== src/Commands/Laws.antt =====
-- Which command of the table a text names.
use xdccget_for_windows.Base.{
  ℕ, true, false, List, [], ◌∷◌, ◌≡◌, ◌≢◌, ◌⊎◌, inl, inr, refl, arith, length, All, Bool-cases,
  some, get_elem?, ◌∙◌, sym, subst, ◌==◌, suc,
}
use xdccget_for_windows.Bytes.{Bytes, strn_equals, str_equals, starts_with}
use xdccget_for_windows.Commands.{IrcCommand, irc_unknown, commands, find_command, get_command}

strn_equals-starts_with :
    (text name : Bytes) → strn_equals text name (length text) ≡ starts_with name text
unfolding strn_equals str_equals starts_with
strn_equals-starts_with [] name = refl
strn_equals-starts_with (c ∷ text) [] = refl
strn_equals-starts_with (c ∷ text) (d ∷ name) = ground (arith, strn_equals-starts_with text name)

-- An entry of the table whose name begins with the text, or no entry.
abbrev Found : List (Bytes × IrcCommand) → Bytes → IrcCommand → Type 0
Found table text command =
    ((i : ℕ) × (name : Bytes) × (get_elem? table i ≡ some (name, command))
      × (starts_with name text ≡ true))
    ⊎ ((command ≡ irc_unknown)
        × All (λ (e : Bytes × IrcCommand). starts_with e.0 text ≡ false) table)

find_command-Found :
    (table : List (Bytes × IrcCommand)) (text : Bytes)
    → Found table text (find_command table text (length text))
unfolding find_command
find_command-Found [] text = inr (refl, tt)
find_command-Found ((name, command) ∷ rest) text =
    let same = strn_equals-starts_with text name in
    elim (Bool-cases (starts_with name text)) [
      | inl yes_ ↦ rw (same ∙ yes_) (inl (0, name, refl, yes_))
      | inr no_ ↦ rw (same ∙ no_) (elim (find_command-Found rest text) [
        | inl (i, other, e, begins) ↦ inl (suc i, other, e, begins)
        | inr (unknown, others) ↦ inr (unknown, (no_, others))
      ])
    ]

get_command_some :
    (c : ℕ) (text : Bytes)
    → get_command (c ∷ text) (length (c ∷ text))
      ≡ find_command commands (c ∷ text) (length (c ∷ text))
unfolding get_command
get_command_some c text = rw (get_command, nonzero) refl
  where
    nonzero : (suc (length text) == 0) ≡ false
    nonzero = ground arith

-- For a text that is not empty get_command gives a command whose name begins with the text, and the
-- unknown command only if no name in the table does.
pub get_command-commands :
    (text : Bytes)
    → text ≢ []
    → ((i : ℕ) × (name : Bytes) × (get_elem? commands i
          ≡ some (name, get_command text (length text)))
        × (starts_with name text ≡ true))
      ⊎ ((get_command text (length text) ≡ irc_unknown)
          × All (λ (e : Bytes × IrcCommand). starts_with e.0 text ≡ false) commands)
get_command-commands [] some_text = absurd (some_text refl)
get_command-commands (c ∷ text) some_text =
    subst (Found commands (c ∷ text)) (sym (get_command_some c text))
      (find_command-Found commands (c ∷ text))
