-- ===== src/Os/Shell/Commands.antt =====
-- os/src/os_shell.c: the commands and the lines that call them. A handler is a number; what it does
-- to the rest of the program is the parameter `call`. An argument that points into the line is the
-- string it points to.
use esp32_c6_gateway_os.Base.{
  ℕ, List, Bool, [], ◌∷◌, some, none, true, false, Option, replicate, if◌then◌else◌, codes, ◌==◌,
  bytes_eq, find_index, take, leb, ◌||◌, get_or, ◌-◌, set, add32, suc, zero,
}
use esp32_c6_gateway_os.Os.Types.{Err, ok, already_exists, invalid_arg, full}
use Prim.Native.String.{String}
use esp32_c6_gateway_os.Os.Shell.Console.{Console, Read, readline, shell_line_max}

abbrev pub max_commands : ℕ
max_commands = 32

abbrev pub shell_max_args : ℕ
shell_max_args = 8

-- `os_shell_cmd_t`
pub record Cmd : Type 0 where
  pub name : List ℕ
  pub help : List ℕ
  pub handler : ℕ

-- What is given to be registered, with its pointers that may be NULL.
pub record Given : Type 0 where
  pub name : Option (List ℕ)
  pub help : List ℕ
  pub handler : Option ℕ

-- The static `shell`.
pub record Shell : Type 0 where
  pub initialized : Bool
  pub commands : List Cmd
  pub count : ℕ

abbrev pub zero_cmd : Cmd
zero_cmd = record { name = []; help = []; handler = 0 }

unfoldable pub zero_commands : List Cmd
zero_commands = replicate max_commands zero_cmd

abbrev pub zero_shell : Shell
zero_shell = record { initialized = false; commands = zero_commands; count = 0 }

unfoldable pub register_cmd : Shell → Cmd → Err × Shell
register_cmd s cmd =
    if leb max_commands s.count
    then (full, s)
    else (ok, record s { commands = set s.commands s.count cmd; count = add32 s.count 1 })

unfoldable pub register_given : Shell → Option (List ℕ) → List ℕ → Option ℕ → Err × Shell
register_given s none help handler = (invalid_arg, s)
register_given s (some name) help none = (invalid_arg, s)
register_given s (some name) help (some handler) =
    register_cmd s (record { name = name; help = help; handler = handler })

-- `os_shell_register`
unfoldable pub register : Shell → Option Given → Err × Shell
register s none = (invalid_arg, s)
register s (some g) = register_given s g.name g.help g.handler

abbrev pub builtin : String → String → ℕ → Given
builtin name help handler = record {
  name = some (codes name);
  help = codes help;
  handler = some handler;
}

-- `builtin_commands`, without the entry of NULL pointers that ends it; the handlers `cmd_help` to
-- `cmd_mqtt` have the numbers 0 to 8.
unfoldable pub builtin_commands : List Given
builtin_commands =
    builtin "help" "Show available commands" 0
    ∷ builtin "ps" "Show running tasks" 1
    ∷ builtin "uptime" "Show system uptime" 2
    ∷ builtin "loglevel" "Get/set log level [level]" 3
    ∷ builtin "stats" "Show event bus statistics" 4
    ∷ builtin "sched" "Show scheduler statistics" 5
    ∷ builtin "events" "Alias for 'stats'" 6
    ∷ builtin "persist" "Show persistence statistics" 7
    ∷ builtin "mqtt" "Show MQTT statistics" 8
    ∷ []

unfoldable pub register_all : Shell → List Given → Shell
register_all s [] = s
register_all s (g ∷ gs) = register_all (register s (some g)).1 gs

-- `os_shell_init`
unfoldable pub shell_init : Shell → Err × Shell
shell_init s =
    if s.initialized
    then (already_exists, s)
    else (ok, record (register_all zero_shell builtin_commands) { initialized = true })

abbrev pub is_blank : ℕ → Bool
is_blank c = c == 32 || c == 9

-- The loop that skips blanks.
unfoldable pub skip_blanks : List ℕ → List ℕ
skip_blanks [] = []
skip_blanks (c ∷ cs) = let rest = skip_blanks cs in if is_blank c then rest else c ∷ cs

-- The loop to the end of an argument, which a zero then ends: the argument and what comes after.
unfoldable pub cut_word : List ℕ → List ℕ × List ℕ
cut_word [] = ([], [])
cut_word (c ∷ cs) = let rest = cut_word cs in if is_blank c then ([], cs) else (c ∷ rest.0, rest.1)

-- `parse_args`, with the number of arguments that there is still room for.
unfoldable pub add_word : (List ℕ → List (List ℕ)) → List ℕ → List (List ℕ)
add_word parse [] = []
add_word parse (c ∷ cs) = let word = cut_word (c ∷ cs) in word.0 ∷ parse word.1

unfoldable pub parse_from : ℕ → List ℕ → List (List ℕ)
parse_from zero p = []
parse_from (suc room) p = add_word (parse_from room) (skip_blanks p)

abbrev pub parse_args : List ℕ → ℕ → List (List ℕ)
parse_args line max_args = parse_from max_args line

abbrev pub is_named : List ℕ → Cmd → Bool
is_named name cmd = bytes_eq name cmd.name

-- `-1` as an `int`.
abbrev pub minus_one : ℕ
minus_one = 4294967295

module _ {W : Type 0} (call : ℕ → List (List ℕ) → W → ℕ × W) where
  unfoldable pub execute : Shell → Option ℕ → List (List ℕ) → W → ℕ × W
  execute s none argv w = (minus_one, w)
  execute s (some i) argv w = call (get_or s.commands i zero_cmd).handler argv w

  unfoldable pub run_args : Shell → List (List ℕ) → W → ℕ × W
  run_args s [] w = (0, w)
  run_args s (name ∷ args) w =
      execute s (find_index (is_named name) (take s.count s.commands)) (name ∷ args) w

  -- `os_shell_process`, on a line that is not NULL; an empty line has no arguments.
  unfoldable pub process : Shell → List ℕ → W → ℕ × W
  process s [] w = (0, w)
  process s (c ∷ cs) w =
      run_args s (parse_args (take (shell_line_max - 1) (c ∷ cs)) shell_max_args) w

  unfoldable pub after_read : Shell → Option (ℕ × List ℕ) → W → W
  after_read s none w = w
  after_read s (some (len, line)) w = (process s line w).1

  -- One turn of the loop of `os_shell_task`.
  unfoldable pub task_turn : Shell → Option ℕ → Console × W → Console × W
  task_turn s input (c, w) =
      let r : Read = readline c input shell_line_max true in (r.console, after_read s r.line w)
