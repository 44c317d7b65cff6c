-- ===== src/Os/Shell/Tests.antt =====
-- Runs of the shell (os/src/os_shell.c) and the console (os/src/os_console.c).
use esp32_c6_gateway_os.Base.{
  ℕ, List, [], ◌∷◌, some, true, codes, ◌<◌, arith, ◌≡◌, get_or, take, refl, ◌≤◌, ◌++◌, find_index,
  length,
}
use esp32_c6_gateway_os.Os.Shell.Console.{zero_console, zero_line, readline}
use esp32_c6_gateway_os.Os.Shell.Commands.{
  Shell, shell_init, parse_args, parse_from, zero_shell, register_all, register, add_word, process,
  builtin_commands, zero_cmd, skip_blanks, run_args, register_given, cut_word, execute,
  register_cmd, zero_commands, minus_one,
}
use esp32_c6_gateway_os.Os.Shell.Editing.{IsConsole, Reads, edit, text, readline-edit}
use esp32_c6_gateway_os.Os.Shell.Splitting.{join, words, parse_args-words}
use esp32_c6_gateway_os.Os.Shell.Typing.{Called, run_keys, command_typed, printable}
use esp32_c6_gateway_os.Os.Shell.Registered.{Registers, given, lookup, IsShell, register-Registers}
use esp32_c6_gateway_os.Os.Types.{full}

-- A handler that records its number and its arguments.
abbrev Calls : Type 0
Calls = List (ℕ × List (List ℕ))

abbrev call : ℕ → List (List ℕ) → Calls → ℕ × Calls
call handler argv calls = (0, (handler, argv) ∷ calls)

abbrev shell : Shell
shell = (shell_init zero_shell).1

abbrev loglevel : List ℕ
loglevel = codes "loglevel"

abbrev debug : List (List ℕ)
debug = codes "DEBUG" ∷ []

shell-lookup : lookup shell loglevel ≡ some 3
unfolding shell_init register_all builtin_commands register register_given register_cmd
    zero_commands find_index
shell-lookup = refl

shell-IsShell : IsShell shell
unfolding shell_init register_all builtin_commands register register_given register_cmd
    zero_commands
shell-IsShell = record { size = refl; counted = omega arith }

zero-IsConsole : IsConsole zero_console
unfolding zero_line
zero-IsConsole = record { size = refl; in_line = omega arith; no_zero = refl }

loglevel_text : printable (join (loglevel ∷ debug)) ≡ true
unfolding join
loglevel_text = refl

loglevel_short : length (join (loglevel ∷ debug)) ≤ 127
unfolding join
loglevel_short = omega arith

parse_args-words_example :
    parse_args (codes "  loglevel\t DEBUG ") 8 ≡ take 8 (words (codes "  loglevel\t DEBUG "))
parse_args-words_example = parse_args-words (codes "  loglevel\t DEBUG ") 8

readline-edit_example :
    Reads (edit (text zero_console) 104) (readline zero_console (some 104) 128 true)
readline-edit_example = readline-edit zero_console zero-IsConsole true 104

register-Registers_example :
    (shell.count < 32
      → Registers shell shell-IsShell zero_cmd (register shell (some (given zero_cmd))))
    × (32 ≤ shell.count → register shell (some (given zero_cmd)) ≡ (full, shell))
register-Registers_example = register-Registers shell shell-IsShell zero_cmd

command_typed_example :
    Called call shell
      (get_or shell.commands 3 zero_cmd).handler
      (loglevel ∷ debug)
      []
      (run_keys call shell (join (loglevel ∷ debug) ++ (10 ∷ [])) (zero_console, []))
command_typed_example =
    command_typed call shell loglevel debug 3 zero_console [] zero-IsConsole refl refl loglevel_text
      (omega arith) loglevel_short shell-lookup

-- Blanks of both kinds, before and after; a ninth argument is left out.
parse_run : parse_args (codes "  loglevel\t DEBUG ") 8 ≡ loglevel ∷ debug
unfolding parse_from add_word skip_blanks cut_word
parse_run = refl

parse_full : parse_args (codes "a b c") 2 ≡ codes "a" ∷ codes "b" ∷ []
unfolding parse_from add_word skip_blanks cut_word
parse_full = refl

unknown_run : process call shell (codes "nothing") [] ≡ (minus_one, [])
unfolding process run_args execute find_index shell_init register_all builtin_commands register
    register_given register_cmd zero_commands parse_from add_word skip_blanks cut_word
unknown_run = refl
