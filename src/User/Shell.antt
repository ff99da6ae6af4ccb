-- ===== src/User/Shell.antt =====
-- The command line of user/start.c: parse_command, and how superShell finds and runs a command.
--
-- strtok, of the C library, is an argument: it maps the text to start with or null, the separators, its own
-- variable and the memory to the word that it found, its variable and the memory.
pub mod Commands
pub mod Words
use kernel_genesis_os.Base.{
  ℕ, zero, suc, Bool, true, false, Option, none, some, List, [], ◌∷◌, ◌++◌, ◌==◌, ◌||◌,
  if◌then◌else◌, Bytes,
}

abbrev pub Strtok : Type 0
Strtok = (input delim holder : ℕ) → Bytes → ℕ × ℕ × Bytes

-- The loop of parse_command, with the entries of `argv` so far and `holder`, strtok's variable.
unfoldable pub parse_loop :
    Strtok → (rounds delim token holder : ℕ) → List ℕ → Bytes → Option (List ℕ × Bytes)
parse_loop strtok zero delim token holder argv m = none
parse_loop strtok (suc rounds) delim token holder argv m =
    let r = strtok 0 delim holder m in
    let rest = parse_loop strtok rounds delim r.0 r.1 (argv ++ token ∷ []) r.2 in
    if token == 0 || m token == 0 then some (argv, m) else rest

-- parse_command, with the text " " at `delim`: the entries of `argv` before its final NULL.
unfoldable pub parse_command :
    Strtok → (rounds input delim holder : ℕ) → Bytes → Option (List ℕ × Bytes)
unfolding parse_loop
parse_command strtok rounds input delim holder m =
    let r = strtok input delim holder m in parse_loop strtok rounds delim r.0 r.1 [] r.2
