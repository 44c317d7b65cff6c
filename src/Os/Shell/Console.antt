-- ===== src/Os/Shell/Console.antt =====
-- os/src/os_console.c: the line that is typed, character by character. What `getc` reads is an
-- argument, `none` where there is nothing; what is echoed is a component of the result.
use esp32_c6_gateway_os.Base.{
  ℕ, List, Bool, [], ◌∷◌, some, none, true, false, replicate, if◌then◌else◌, Option, set, ◌==◌,
  take, ltb, ◌-◌, ◌||◌, ◌+◌, leb, ◌&&◌, c_string,
}
use esp32_c6_gateway_os.Os.Types.{Err, ok, already_exists}

abbrev pub shell_line_max : ℕ
shell_line_max = 128

-- The static `console`.
pub record Console : Type 0 where
  pub initialized : Bool
  pub line_buf : List ℕ
  pub line_pos : ℕ

unfoldable pub zero_line : List ℕ
zero_line = replicate shell_line_max 0

abbrev pub zero_console : Console
zero_console = record { initialized = false; line_buf = zero_line; line_pos = 0 }

-- `os_console_init`; the modes of the terminal are not part of the state.
unfoldable pub console_init : Console → Err × Console
console_init c =
    if c.initialized then (already_exists, c) else (ok, record zero_console { initialized = true })

-- What `os_console_readline` gives back: the length and the text where a line ends, and the echo.
pub record Read : Type 0 where
  pub line : Option (ℕ × List ℕ)
  pub echoed : List ℕ
  pub console : Console

abbrev pub echo_if : Bool → List ℕ → List ℕ
echo_if echo out = if echo then out else []

abbrev pub end_line : Console → ℕ → Bool → Read
end_line c max_len echo =
    let line_buf = set c.line_buf c.line_pos 0 in
    record {
      line = some (c.line_pos, take (max_len - 1) (c_string line_buf));
      echoed = echo_if echo (10 ∷ []);
      console = record c { line_buf = line_buf; line_pos = 0 };
    }

abbrev pub backspace : Console → Bool → Read
backspace c echo =
    if ltb 0 c.line_pos
    then record {
      line = none;
      echoed = echo_if echo (8 ∷ 32 ∷ 8 ∷ []);
      console = record c { line_pos = c.line_pos - 1 };
    }
    else record { line = none; echoed = []; console = c }

abbrev pub typed : Console → ℕ → Bool → Read
typed c char echo =
    if ltb c.line_pos (shell_line_max - 1)
    then record {
      line = none;
      echoed = echo_if echo (char ∷ []);
      console = record c { line_buf = set c.line_buf c.line_pos char; line_pos = c.line_pos + 1 };
    }
    else record { line = none; echoed = []; console = c }

-- `os_console_readline`
unfoldable pub readline : Console → Option ℕ → ℕ → Bool → Read
readline c none max_len echo = record { line = none; echoed = []; console = c }
readline c (some char) max_len echo =
    if char == 10 || char == 13
    then end_line c max_len echo
    else if char == 127 || char == 8
    then backspace c echo
    else if leb 32 char && ltb char 127
    then typed c char echo
    else record { line = none; echoed = []; console = c }
