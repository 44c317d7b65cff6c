-- ===== src/Services/HaDisc/Round.antt =====
-- What `json_escape_string` of services/ha_disc/ha_disc.c writes can be read back.
use esp32_c6_gateway_os.Base.{
  ℕ, List, [], ◌∷◌, some, none, Option, if◌then◌else◌, ◌==◌, ◌≡◌, ◌<◌, take, ◌+◌, length,
}
use esp32_c6_gateway_os.Services.HaDisc.Escape.{escape_code}

-- The escaped text without a bound.
abbrev escape_step : Option ℕ → ℕ → List ℕ → List ℕ
escape_step none c rest = c ∷ rest
escape_step (some e) c rest = 92 ∷ e ∷ rest

pub escape : List ℕ → List ℕ
escape [] = []
escape (c ∷ cs) = escape_step (escape_code c) c (escape cs)

-- A reader of escaped text.
abbrev decoded : ℕ → ℕ
decoded e = if e == 110 then 10 else if e == 114 then 13 else if e == 116 then 9 else e

pub unescape : List ℕ → List ℕ
unescape [] = []
unescape (c ∷ []) = if c == 92 then [] else c ∷ []
unescape (c ∷ e ∷ es) =
    let one = unescape (e ∷ es) in
    let two = unescape es in if c == 92 then decoded e ∷ two else c ∷ one

-- What is written is the escaped text of the first characters, of all if there is room.
record IsCut (size written : ℕ) (src out : List ℕ) : Type 0 where
  pub kept : ℕ
  pub same : out ≡ escape (take kept src)
  pub fits : written + length out < size
  pub whole : written + length (escape src) < size → out ≡ escape src

-- The reader gives back the first characters of the text, and all of them if the escaped text fits.
abbrev pub ReadsBack : ℕ → List ℕ → List ℕ → Type 0
ReadsBack size src out =
    (length out < size)
    × ((k : ℕ) × (unescape out ≡ take k src))
    × (length (escape src) < size → unescape out ≡ src)
