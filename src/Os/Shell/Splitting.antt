-- ===== src/Os/Shell/Splitting.antt =====
-- What `parse_args` of os/src/os_shell.c makes of a line.
use esp32_c6_gateway_os.Base.{
  ℕ, List, Bool, [], ◌∷◌, true, false, if◌then◌else◌, ◌≡◌, refl, if_true, if_false, ◌∙◌, take,
  Bool-cases, suc, inl, zero, inr, ap, not, ltb, ◌++◌, arith, ◌&&◌, length, sym, ◌≤◌, append-nil,
  take_all,
}
use esp32_c6_gateway_os.Os.Shell.Commands.{
  parse_from, add_word, skip_blanks, cut_word, is_blank, parse_args,
}

-- The words of a line, from its end: a character that is no blank begins a word, or lengthens the
-- one that follows at once.
abbrev starts_word : List ℕ → Bool
starts_word [] = true
starts_word (c ∷ cs) = is_blank c

abbrev pub glue : Bool → ℕ → List (List ℕ) → List (List ℕ)
glue true c ws = (c ∷ []) ∷ ws
glue false c [] = (c ∷ []) ∷ []
glue false c (w ∷ ws) = (c ∷ w) ∷ ws

pub words : List ℕ → List (List ℕ)
words [] = []
words (c ∷ cs) = let rest = words cs in if is_blank c then rest else glue (starts_word cs) c rest

module _ (c : ℕ) (cs : List ℕ) where
  words_blank : is_blank c ≡ true → words (c ∷ cs) ≡ words cs
  unfolding words
  words_blank h = if_true _ _ _ h

  words_char : is_blank c ≡ false → words (c ∷ cs) ≡ glue (starts_word cs) c (words cs)
  unfolding words
  words_char h = if_false _ _ _ h

  cut_blank : is_blank c ≡ true → cut_word (c ∷ cs) ≡ ([], cs)
  unfolding cut_word
  cut_blank h = if_true _ _ _ h

  cut_char : is_blank c ≡ false → cut_word (c ∷ cs) ≡ (c ∷ (cut_word cs).0, (cut_word cs).1)
  unfolding cut_word
  cut_char h = if_false _ _ _ h

  skip_blank : is_blank c ≡ true → skip_blanks (c ∷ cs) ≡ skip_blanks cs
  unfolding skip_blanks
  skip_blank h = if_true _ _ _ h

  skip_char : is_blank c ≡ false → skip_blanks (c ∷ cs) ≡ c ∷ cs
  unfolding skip_blanks
  skip_char h = if_false _ _ _ h

words_cut :
    (c : ℕ) (cs : List ℕ)
    → is_blank c ≡ false
    → words (c ∷ cs) ≡ (cut_word (c ∷ cs)).0 ∷ words (cut_word (c ∷ cs)).1
unfolding words cut_word
words_cut c [] h = words_char c [] h ∙ rw (cut_char c [] h) refl
words_cut c (d ∷ cs) h = elim (Bool-cases (is_blank d)) [
  | inl t ↦
      words_char c (d ∷ cs) h
      ∙ rw (cut_char c (d ∷ cs) h, cut_blank d cs t, words_blank d cs t, t) refl
  | inr f ↦ words_char c (d ∷ cs) h ∙ rw (cut_char c (d ∷ cs) h, words_cut d cs f, f) refl
]

-- The arguments, however many blanks there are before, between and after them, are the first words
-- of the line, as many as there is room for.
parse-words_at :
    (n : ℕ)
    → ((line : List ℕ) → parse_from n line ≡ take n (words line))
    → (line : List ℕ) → add_word (parse_from n) (skip_blanks line) ≡ take (suc n) (words line)
unfolding add_word words skip_blanks
parse-words_at n ih [] = refl
parse-words_at n ih (c ∷ cs) = elim (Bool-cases (is_blank c)) [
  | inl t ↦ rw (skip_blank c cs t, words_blank c cs t) (parse-words_at n ih cs)
  | inr f ↦
      rw (skip_char c cs f, words_cut c cs f)
        (ap (λ ws. (cut_word (c ∷ cs)).0 ∷ ws) (ih (cut_word (c ∷ cs)).1))
]

pub parse_args-words : (line : List ℕ) (n : ℕ) → parse_args line n ≡ take n (words line)
unfolding parse_from
parse_args-words line zero = refl
parse_args-words line (suc n) = parse-words_at n (λ l. parse_args-words l n) line

-- A word: one character at least, and no blank.
abbrev pub plain : List ℕ → Bool
plain [] = true
plain (c ∷ cs) = not (is_blank c) && plain cs

abbrev pub all_words : List (List ℕ) → Bool
all_words [] = true
all_words (w ∷ ws) = ltb 0 (length w) && (plain w && all_words ws)

-- Words with one space between each two.
unfoldable pub join : List (List ℕ) → List ℕ
join [] = []
join (w ∷ []) = w
join (w ∷ v ∷ ws) = w ++ (32 ∷ join (v ∷ ws))

plain_second : (c d : ℕ) (w : List ℕ) → plain (c ∷ d ∷ w) ≡ true → is_blank d ≡ false
plain_second c d w p = ground arith

words_append :
    (c : ℕ) (w rest : List ℕ)
    → plain (c ∷ w) ≡ true
    → starts_word rest ≡ true
    → words ((c ∷ w) ++ rest) ≡ (c ∷ w) ∷ words rest
unfolding words
words_append c [] rest p s = words_char c rest (ground arith) ∙ rw s refl
words_append c (d ∷ w) rest p s =
    words_char c ((d ∷ w) ++ rest) (ground arith)
    ∙ rw (words_append d w rest (ground arith) s)
        (ap (λ b. glue b c ((d ∷ w) ∷ words rest)) (plain_second c d w p))

words-join : (ws : List (List ℕ)) → all_words ws ≡ true → words (join ws) ≡ ws
unfolding join words
words-join [] h = refl
words-join ([] ∷ ws) h = absurd (ground arith)
words-join ((c ∷ w) ∷ []) h =
    ap words (sym (append-nil (c ∷ w))) ∙ words_append c w [] (ground arith) refl
words-join ((c ∷ w) ∷ v ∷ ws) h =
    words_append c w (32 ∷ join (v ∷ ws)) (ground arith) refl
    ∙ ap (λ r. (c ∷ w) ∷ r) (words-join (v ∷ ws) (ground arith))

-- Words joined by single spaces are the arguments again, where there is room for all.
pub parse_args-join :
    (ws : List (List ℕ)) (n : ℕ) → all_words ws ≡ true → length ws ≤ n → parse_args (join ws) n ≡ ws
parse_args-join ws n h room =
    parse_args-words (join ws) n ∙ rw (words-join ws h) (take_all n ws room)
