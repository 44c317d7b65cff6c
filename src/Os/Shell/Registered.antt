-- ===== src/Os/Shell/Registered.antt =====
-- The commands that `os_shell_register` of os/src/os_shell.c has taken.
use esp32_c6_gateway_os.Base.{
  ℕ, List, [], ◌∷◌, some, none, Option, length, set, ◌<◌, ◌≡◌, find_index, ◌≤◌, add32, take, ap,
  length-set, if_false, get_or, ◌++◌, ◌∙◌, leb, if_true, get_or-set_self, suc,
  find_index-append_hit, find_index-append_old, arith, take-set_end, bytes_eq_self, refl,
  length-take_le,
}
use esp32_c6_gateway_os.Os.Shell.Commands.{
  Shell, Cmd, register, register_cmd, is_named, Given, register_given, zero_cmd,
}
use esp32_c6_gateway_os.Os.Types.{Err, ok, full}

-- The handler that a line with this name calls.
abbrev pub lookup : Shell → List ℕ → Option ℕ
lookup s name = find_index (is_named name) (take s.count s.commands)

pub record IsShell (s : Shell) : Type 0 where
  pub size : length s.commands ≡ 32
  pub counted : s.count ≤ 32

abbrev pub given : Cmd → Given
given cmd = record { name = some cmd.name; help = cmd.help; handler = some cmd.handler }

module _ (s : Shell) (v : IsShell s) (cmd : Cmd) where
  abbrev added : Shell
  added = record s { commands = set s.commands s.count cmd; count = add32 s.count 1 }

  module _ (room : s.count < 32) where
    added_commands : take added.count added.commands ≡ take s.count s.commands ++ (cmd ∷ [])
    added_commands =
        ap (λ n. take n (set s.commands s.count cmd)) (one_more s.count room)
        ∙ take-set_end s.count s.commands cmd (omega (arith, v.size))
      where
        one_more : (n : ℕ) → n < 32 → add32 n 1 ≡ suc n
        one_more n h = omega arith

    lookup_new : lookup s cmd.name ≡ none → lookup added cmd.name ≡ some s.count
    lookup_new new =
        ap (find_index (is_named cmd.name)) added_commands
        ∙ find_index-append_hit (is_named cmd.name) (take s.count s.commands) cmd new
            (bytes_eq_self cmd.name)
        ∙ ap some (length-take_le s.count s.commands (omega (arith, v.size, v.counted)))

    lookup_old : (name : List ℕ) (i : ℕ) → lookup s name ≡ some i → lookup added name ≡ some i
    lookup_old name i old =
        ap (find_index (is_named name)) added_commands
        ∙ find_index-append_old (is_named name) (take s.count s.commands) (cmd ∷ []) i old

    added-IsShell : IsShell added
    added-IsShell = record {
      size = length-set s.commands s.count cmd ∙ v.size;
      counted = omega arith;
    }

    register_ok : register s (some (given cmd)) ≡ (ok, added)
    unfolding register register_given register_cmd
    register_ok = if_false (leb 32 s.count) _ _ (ground arith)

  -- A command is taken if there is room, and then its name finds it unless it is the name of an
  -- earlier one; every earlier command is found as before. A full shell stays as it was.
  abbrev pub Registers : Err × Shell → Type 0
  Registers (e, s') =
      (e ≡ ok)
      × (lookup s cmd.name ≡ none → lookup s' cmd.name ≡ some s.count)
      × ((name : List ℕ) (i : ℕ) → lookup s name ≡ some i → lookup s' name ≡ some i)
      × (get_or s'.commands s.count zero_cmd ≡ cmd)
      × IsShell s'

  register_full : 32 ≤ s.count → register s (some (given cmd)) ≡ (full, s)
  unfolding register register_given register_cmd
  register_full h = if_true (leb 32 s.count) _ _ (ground arith)

  pub register-Registers :
      (s.count < 32 → Registers (register s (some (given cmd))))
      × (32 ≤ s.count → register s (some (given cmd)) ≡ (full, s))
  register-Registers = (
    λ room. rw (register_ok room) (
      refl,
      lookup_new room,
      lookup_old room,
      get_or-set_self s.commands s.count cmd zero_cmd (omega (arith, v.size)),
      added-IsShell room,
    ),
    register_full,
  )
