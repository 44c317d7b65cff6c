-- ===== src/Os/Shell/Editing.antt =====
-- os/src/os_console.c as a line editor on the text typed so far.
use esp32_c6_gateway_os.Base.{
  ℕ, List, Bool, [], ◌∷◌, some, none, true, false, take, Option, not, length, ◌<◌, ◌≡◌,
  if◌then◌else◌, ◌==◌, set, suc, ◌||◌, ◌&&◌, arith, ◌++◌, ◌-◌, if_false, ap, zero, leb, ◌∙◌, refl,
  ltb, length-take_le, length-set, take_all, ap₂, sym, if_rule, ◌+◌, take-set_end, if_true, if_both,
  c_string, take-take,
}
use esp32_c6_gateway_os.Os.Shell.Console.{Console, Read, end_line, backspace, typed, readline}

-- The text typed so far, and the keys as changes of it: a finished line, and the text after the key.
abbrev pub text : Console → List ℕ
text c = take c.line_pos c.line_buf

abbrev pub edit : List ℕ → ℕ → Option (List ℕ) × List ℕ
edit t key =
    if key == 10 || key == 13
    then (some t, [])
    else if key == 127 || key == 8
    then (none, take (length t - 1) t)
    else if leb 32 key && ltb key 127
    then (none, if ltb (length t) 127 then t ++ (key ∷ []) else t)
    else (none, t)

abbrev pub nonzero : List ℕ → Bool
nonzero [] = true
nonzero (x ∷ xs) = not (x == 0) && nonzero xs

-- The buffer has its 128 places, the position is in it, and the text has no zero.
pub record IsConsole (c : Console) : Type 0 where
  pub size : length c.line_buf ≡ 128
  pub in_line : c.line_pos < 128
  pub no_zero : nonzero (text c) ≡ true

c_string_char : (x : ℕ) (xs : List ℕ) → (x == 0) ≡ false → c_string (x ∷ xs) ≡ x ∷ c_string xs
unfolding c_string
c_string_char x xs h = if_false _ _ _ h

c_string-set :
    (n : ℕ) (xs : List ℕ)
    → n < length xs
    → nonzero (take n xs) ≡ true
    → c_string (set xs n 0) ≡ take n xs
unfolding c_string
c_string-set n [] h z = absurd (omega arith)
c_string-set zero (x ∷ xs) h z = refl
c_string-set (suc n) (x ∷ xs) h z =
    c_string_char x (set xs n 0) (ground arith)
    ∙ ap (λ ys. x ∷ ys) (c_string-set n xs (omega arith) (ground arith))

nonzero-take : (n : ℕ) (xs : List ℕ) → nonzero xs ≡ true → nonzero (take n xs) ≡ true
nonzero-take zero xs h = refl
nonzero-take (suc n) [] h = refl
nonzero-take (suc n) (x ∷ xs) h = ground (arith, nonzero-take n xs)

nonzero-append :
    (xs : List ℕ) (c : ℕ) → nonzero xs ≡ true → (c == 0) ≡ false → nonzero (xs ++ (c ∷ [])) ≡ true
nonzero-append [] c h z = ground arith
nonzero-append (x ∷ xs) c h z = ground (arith, nonzero-append xs c)

abbrev pub with_length : Option (List ℕ) → Option (ℕ × List ℕ)
with_length none = none
with_length (some l) = some (length l, l)

-- What `os_console_readline` gives back, and the text left, are those of the editor; the console
-- keeps its invariant.
abbrev pub Reads : Option (List ℕ) × List ℕ → Read → Type 0
Reads p r = (r.line ≡ with_length p.0) × (text r.console ≡ p.1) × IsConsole r.console

module _ (c : Console) (v : IsConsole c) (echo : Bool) where
  length-text : length (text c) ≡ c.line_pos
  length-text = length-take_le c.line_pos c.line_buf (omega (arith, v.size, v.in_line))

  text_ended : take 127 (c_string (set c.line_buf c.line_pos 0)) ≡ text c
  text_ended =
      ap (take 127)
        (c_string-set c.line_pos c.line_buf (omega (arith, v.size, v.in_line)) v.no_zero)
      ∙ take_all 127 (text c) (omega (arith, length-text, v.in_line))

  end_line-Reads : Reads (some (text c), []) (end_line c 128 echo)
  end_line-Reads = (
    ap₂ (λ n l. some (n, l)) (sym length-text) text_ended,
    refl,
    record {
      size = length-set c.line_buf c.line_pos 0 ∙ v.size;
      in_line = omega arith;
      no_zero = refl;
    },
  )

  shorter : text (record c { line_pos = c.line_pos - 1 }) ≡ take (length (text c) - 1) (text c)
  shorter = rw length-text (sym (take-take (c.line_pos - 1) c.line_pos c.line_buf (omega arith)))

  backspace-Reads : Reads (none, take (length (text c) - 1) (text c)) (backspace c echo)
  backspace-Reads =
      if_rule (Reads (none, take (length (text c) - 1) (text c))) (ltb 0 c.line_pos) _ _
        (λ _. (
          refl,
          shorter,
          record {
            size = v.size;
            in_line = omega (arith, v.in_line);
            no_zero = rw shorter (nonzero-take (length (text c) - 1) (text c) v.no_zero);
          },
        ))
        (λ z. (refl, ap (λ n. take n c.line_buf) (first z) ∙ shorter, v))
    where
      first : ltb 0 c.line_pos ≡ false → c.line_pos ≡ c.line_pos - 1
      first z = ground arith

  longer :
      (key : ℕ)
      → ltb c.line_pos 127 ≡ true
      → text (record c { line_buf = set c.line_buf c.line_pos key; line_pos = c.line_pos + 1 })
        ≡ text c ++ (key ∷ [])
  longer key room =
      ap (λ n. take n (set c.line_buf c.line_pos key)) (one_more c.line_pos)
      ∙ take-set_end c.line_pos c.line_buf key (omega (arith, v.size, v.in_line))
    where
      one_more : (n : ℕ) → n + 1 ≡ suc n
      one_more n = omega arith

  typed-Reads :
      (key : ℕ)
      → (key == 0) ≡ false
      → Reads
          (none, if ltb (length (text c)) 127 then text c ++ (key ∷ []) else text c)
          (typed c key echo)
  typed-Reads key z = rw length-text (
      if_rule (λ r. Reads (none, if ltb c.line_pos 127 then text c ++ (key ∷ []) else text c) r)
        (ltb c.line_pos 127) _ _
        (λ room. (
          refl,
          longer key room ∙ sym (if_true _ _ _ room),
          record {
            size = length-set c.line_buf c.line_pos key ∙ v.size;
            in_line = ground arith;
            no_zero = rw (longer key room) (nonzero-append (text c) key v.no_zero z);
          },
        ))
        (λ full. (refl, sym (if_false _ _ _ full), v)))

  pub readline-edit : (key : ℕ) → Reads (edit (text c) key) (readline c (some key) 128 echo)
  unfolding readline
  readline-edit key =
      if_both Reads (key == 10 || key == 13) _ _ _ _ (λ _. end_line-Reads)
        (λ _.
          if_both Reads (key == 127 || key == 8) _ _ _ _ (λ _. backspace-Reads)
            (λ _.
              if_both Reads (leb 32 key && ltb key 127) _ _ _ _
                (λ p. typed-Reads key (ground arith)) (λ _. (refl, refl, v))))
