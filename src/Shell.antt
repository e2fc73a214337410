-- ===== src/Shell.antt =====
-- shell/shell.c: which command a line calls. The bodies of the commands are empty, so a command is
-- what `shell_process_cmd` amounts to.
use blockos.Prelude.{
  ℕ, Bool, List, [], ◌∷◌, Option, none, some, if◌then◌else◌, length, take, get_or, bytes_of,
}
use blockos.Strings.{strcmp, is_zero}
use blockos.Strings.Tokens.{all_tokens}

abbrev max_args : ℕ
max_args = 16

pub data Command : Type 0 where
  help : Command
  ls : List ℕ → Command
  cd : List ℕ → Command
  cat : List ℕ → Command
  mkdir : List ℕ → Command
  clear : Command
  ps : Command
  uname : Command
  free : Command
  uptime : Command

abbrev is_name : List ℕ → List ℕ → Bool
is_name a b = is_zero (strcmp a b)

-- argc > 1 ? args[1] : default
abbrev arg_or : List (List ℕ) → List ℕ → List ℕ
arg_or args default_arg = get_or args 1 default_arg

-- The chain of tests on args[0].
unfoldable pub command_of : List ℕ → List (List ℕ) → Option Command
command_of name args =
    if is_name name (bytes_of "help")
    then some Command.help
    else if is_name name (bytes_of "ls")
    then some (Command.ls (arg_or args (bytes_of ".")))
    else if is_name name (bytes_of "cd")
    then some (Command.cd (arg_or args (bytes_of "/")))
    else if is_name name (bytes_of "cat")
    then some (Command.cat (arg_or args []))
    else if is_name name (bytes_of "mkdir")
    then some (Command.mkdir (arg_or args []))
    else if is_name name (bytes_of "clear")
    then some Command.clear
    else if is_name name (bytes_of "ps")
    then some Command.ps
    else if is_name name (bytes_of "uname")
    then some Command.uname
    else if is_name name (bytes_of "free")
    then some Command.free
    else if is_name name (bytes_of "uptime")
    then some Command.uptime
    else none

unfoldable pub dispatch : List (List ℕ) → Option Command
unfolding command_of
dispatch [] = none
dispatch (name ∷ args) = command_of name (name ∷ args)

unfoldable pub shell_process_cmd : List ℕ → Option Command
unfolding dispatch
shell_process_cmd cmd = dispatch (take max_args (all_tokens (length cmd) (bytes_of " ") cmd))
