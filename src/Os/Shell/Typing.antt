-- ===== src/Os/Shell/Typing.antt =====
-- The shell's task (os/src/os_shell.c) at its console: what is typed runs the commands.
use esp32_c6_gateway_os.Base.{
  ℕ, List, Bool, [], ◌∷◌, some, none, true, leb, Option, ◌≡◌, ◌&&◌, ap, refl, ltb, ◌∙◌, length, ◌<◌,
  ◌≤◌, ◌+◌, ◌++◌, arith, sym, take, take_all, append-nil, length-append, append_assoc, find_index,
  get_or, ap₂,
}
use esp32_c6_gateway_os.Os.Shell.Console.{Console}
use esp32_c6_gateway_os.Os.Shell.Commands.{
  Shell, process, task_turn, after_read, run_args, parse_from, add_word, skip_blanks, parse_args,
  execute, is_named, zero_cmd,
}
use esp32_c6_gateway_os.Os.Shell.Editing.{text, edit, IsConsole, readline-edit, with_length}
use esp32_c6_gateway_os.Os.Shell.Splitting.{all_words, join, parse_args-join}

abbrev pub printable : List ℕ → Bool
printable [] = true
printable (c ∷ cs) = (leb 32 c && ltb c 127) && printable cs

edit_char :
    (t : List ℕ) (key : ℕ)
    → (leb 32 key && ltb key 127) ≡ true
    → length t < 127
    → edit t key ≡ (none, t ++ (key ∷ []))
edit_char t key h room = ground arith

module _ {W : Type 0} (call : ℕ → List (List ℕ) → W → ℕ × W) (s : Shell) where
  -- The turns of the task that read these keys.
  pub run_keys : List ℕ → Console × W → Console × W
  run_keys [] p = p
  run_keys (key ∷ keys) p = run_keys keys (task_turn call s (some key) p)

  abbrev submit : Option (List ℕ) → W → W
  submit none w = w
  submit (some line) w = (process call s line w).1

  submit_read : (o : Option (List ℕ)) (w : W) → after_read call s (with_length o) w ≡ submit o w
  unfolding after_read
  submit_read none w = refl
  submit_read (some line) w = refl

  module _ (c : Console) (w : W) (v : IsConsole c) (key : ℕ) where
    turn_text : text (task_turn call s (some key) (c, w)).0 ≡ (edit (text c) key).1
    unfolding task_turn
    turn_text = (readline-edit c v true key).1

    turn_world : (task_turn call s (some key) (c, w)).1 ≡ submit (edit (text c) key).0 w
    unfolding task_turn
    turn_world =
        ap (λ l. after_read call s l w) (readline-edit c v true key).0
        ∙ submit_read (edit (text c) key).0 w

    turn-IsConsole : IsConsole (task_turn call s (some key) (c, w)).0
    unfolding task_turn
    turn-IsConsole = (readline-edit c v true key).2

  process_args :
      (line : List ℕ) (w : W)
      → process call s line w ≡ run_args call s (parse_args (take 127 line) 8) w
  unfolding process run_args parse_from add_word skip_blanks
  process_args [] w = refl
  process_args (c ∷ cs) w = refl

  process_words :
      (ws : List (List ℕ)) (w : W)
      → all_words ws ≡ true
      → length ws ≤ 8
      → length (join ws) ≤ 127
      → process call s (join ws) w ≡ run_args call s ws w
  process_words ws w h few short =
      process_args (join ws) w
      ∙ ap (λ a. run_args call s a w)
          (ap (λ l. parse_args l 8) (take_all 127 (join ws) short) ∙ parse_args-join ws 8 h few)

  -- Each key of a text that fits is taken into the line, and nothing else happens.
  keys_typed :
      (keys : List ℕ) (p : Console × W)
      → IsConsole p.0
      → printable keys ≡ true
      → length (text p.0) + length keys ≤ 127
      → (text (run_keys keys p).0 ≡ text p.0 ++ keys)
        × ((run_keys keys p).1 ≡ p.1)
        × IsConsole (run_keys keys p).0
  unfolding run_keys
  keys_typed [] p v h room = (sym (append-nil (text p.0)), refl, v)
  keys_typed (key ∷ keys) p v h room =
      let e : edit (text p.0) key ≡ (none, text p.0 ++ (key ∷ [])) =
        edit_char (text p.0) key (ground arith) (omega arith) in
      let t : text (task_turn call s (some key) p).0 ≡ text p.0 ++ (key ∷ []) =
        turn_text p.0 p.1 v key ∙ ap (λ q. q.1) e in
      let l : length (text p.0 ++ (key ∷ [])) ≡ length (text p.0) + 1 =
        length-append (text p.0) (key ∷ []) in
      let r =
        keys_typed keys (task_turn call s (some key) p) (turn-IsConsole p.0 p.1 v key)
          (ground arith) (rw t (omega (arith, l))) in
      (
        r.0 ∙ rw t (append_assoc (text p.0) (key ∷ []) keys),
        r.1 ∙ turn_world p.0 p.1 v key ∙ ap (λ q. submit q.0 p.1) e,
        r.2,
      )

  run_keys-append :
      (xs ys : List ℕ) (p : Console × W) → run_keys (xs ++ ys) p ≡ run_keys ys (run_keys xs p)
  unfolding run_keys
  run_keys-append [] ys p = refl
  run_keys-append (x ∷ xs) ys p = run_keys-append xs ys (task_turn call s (some x) p)

  run_enter :
      (p : Console × W)
      → IsConsole p.0
      → (run_keys (10 ∷ []) p).1 ≡ (process call s (text p.0) p.1).1
  unfolding run_keys
  run_enter p v = turn_world p.0 p.1 v 10

  run_enter-text :
      (p : Console × W)
      → IsConsole p.0
      → (text (run_keys (10 ∷ []) p).0 ≡ []) × IsConsole (run_keys (10 ∷ []) p).0
  unfolding run_keys
  run_enter-text p v = (turn_text p.0 p.1 v 10, turn-IsConsole p.0 p.1 v 10)

  found_args :
      (name : List ℕ) (args : List (List ℕ)) (i : ℕ) (w : W)
      → find_index (is_named name) (take s.count s.commands) ≡ some i
      → run_args call s (name ∷ args) w
        ≡ call (get_or s.commands i zero_cmd).handler (name ∷ args) w
  unfolding run_args execute
  found_args name args i w found = rw found refl

  -- The world is as the handler leaves it that is called with these words, and the line is empty.
  abbrev pub Called : ℕ → List (List ℕ) → W → Console × W → Type 0
  Called handler words w p = (p.1 ≡ (call handler words w).1) × (text p.0 ≡ []) × IsConsole p.0

  pub command_typed :
      (name : List ℕ) (args : List (List ℕ)) (i : ℕ) (c : Console) (w : W)
      → IsConsole c
      → text c ≡ []
      → all_words (name ∷ args) ≡ true
      → printable (join (name ∷ args)) ≡ true
      → length args ≤ 7
      → length (join (name ∷ args)) ≤ 127
      → find_index (is_named name) (take s.count s.commands) ≡ some i
      → Called
          (get_or s.commands i zero_cmd).handler
          (name ∷ args)
          w
          (run_keys (join (name ∷ args) ++ (10 ∷ [])) (c, w))
  command_typed name args i c w v empty is_words is_text few short found =
      let line : List ℕ = join (name ∷ args) in
      let p : Console × W = run_keys line (c, w) in
      let t = keys_typed line (c, w) v is_text (rw empty (omega (arith, short))) in
      let whole : text p.0 ≡ line = t.0 ∙ ap (λ x. x ++ line) empty in
      let split : run_keys (line ++ (10 ∷ [])) (c, w) ≡ run_keys (10 ∷ []) p =
        run_keys-append line (10 ∷ []) (c, w) in
      let world : (run_keys (10 ∷ []) p).1
          ≡ (call (get_or s.commands i zero_cmd).handler (name ∷ args) w).1 =
        run_enter p t.2
        ∙ ap₂ (λ l x. (process call s l x).1) whole t.1
        ∙ ap (λ r. r.1)
            (process_words (name ∷ args) w is_words (omega arith) short
              ∙ found_args name args i w found) in
      let after = run_enter-text p t.2 in rw split (world, after.0, after.1)
