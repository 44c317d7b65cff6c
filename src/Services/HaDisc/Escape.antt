-- ===== src/Services/HaDisc/Escape.antt =====
-- services/ha_disc/ha_disc.c: `json_escape_string`.
use esp32_c6_gateway_os.Base.{
  ℕ, List, [], ◌∷◌, some, none, Option, ◌+◌, if◌then◌else◌, ◌==◌, leb, ltb, ◌||◌, ◌-◌,
}

-- The letter after a backslash, for the characters that the `switch` escapes.
unfoldable pub escape_code : ℕ → Option ℕ
escape_code c =
    if c == 34 || c == 92
    then some c
    else if c == 10
    then some 110
    else if c == 13
    then some 114
    else if c == 9
    then some 116
    else none

-- What one character adds, given what follows after one byte and after two.
unfoldable pub escape_char : ℕ → ℕ → ℕ → Option ℕ → List ℕ → List ℕ → List ℕ
escape_char dest_size written c none one two = c ∷ one
escape_char dest_size written c (some e) one two =
    if leb dest_size (written + 2) then [] else 92 ∷ e ∷ two

-- The loop, from the character at which `p` points.
unfoldable pub escape_from : ℕ → ℕ → List ℕ → List ℕ
escape_from dest_size written [] = []
escape_from dest_size written (c ∷ cs) =
    let one = escape_from dest_size (written + 1) cs in
    let two = escape_from dest_size (written + 2) cs in
    if ltb written (dest_size - 1)
    then escape_char dest_size written c (escape_code c) one two
    else []

-- `json_escape_string` into an array of `dest_size` bytes, which is not 0; the text is not NULL.
abbrev pub json_escape_string : ℕ → List ℕ → List ℕ
json_escape_string dest_size src = escape_from dest_size 0 src
