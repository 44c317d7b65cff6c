-- ===== src/Os/Persist/GetView.antt =====
-- What `os_persist_get` of os/src/os_persist.c (host) returns.
use esp32_c6_gateway_os.Base.{
  ℕ, List, [], ◌≡◌, true, Option, some, none, inr, ◌⊎◌, ap, length, ◌≤◌, take_all, if_rule, not,
  sym, ◌∙◌, inl, refl, le→ltb_false,
}
use esp32_c6_gateway_os.Os.Persist.Types.{Disk, Store, Entry, key_to_path}
use esp32_c6_gateway_os.Os.Persist.Ops.{Got, get_entry, get, read_file, find_entry, got}
use esp32_c6_gateway_os.Os.Persist.View.{view}
use esp32_c6_gateway_os.Os.Types.{not_found, ok, Err}
use esp32_c6_gateway_os.Os.Persist.FlushView.{stored}

module _ (disk : Disk) (s : Store disk) (on : s.svc.initialized ≡ true) (key : List ℕ)
    (buf_len : ℕ) where
  abbrev Answer : Got × Store disk → Type 0
  Answer (g, s') =
      ((other : List ℕ) → view disk s' other ≡ view disk s other)
      × (((view disk s key ≡ none) × (g ≡ got not_found [] 0))
          ⊎ ((bytes : List ℕ) × (view disk s key ≡ some bytes)
              × (length bytes ≤ buf_len → g ≡ got ok bytes (length bytes))))

  view_file :
      (o : Option (List ℕ))
      → find_entry key s.svc.write_buffer ≡ none
      → disk.read s.files (key_to_path key) ≡ o
      → view disk s key ≡ o
  view_file o miss file = ap (λ x. stored x (disk.read s.files (key_to_path key))) miss ∙ file

  read_file-none :
      disk.read s.files (key_to_path key) ≡ none
      → read_file disk s.files key buf_len ≡ (not_found, [])
  unfolding read_file
  read_file-none file = simp (file, read_file)

  read_file-some :
      (bytes : List ℕ)
      → disk.read s.files (key_to_path key) ≡ some bytes
      → length bytes ≤ buf_len
      → read_file disk s.files key buf_len ≡ (ok, bytes)
  unfolding read_file
  read_file-some bytes file fits = simp (file, le→ltb_false (length bytes) buf_len fits, read_file)

  abbrev got_file : Err × List ℕ → Got
  got_file r = got r.0 r.1 (length r.1)

  file_Answer :
      (o : Option (List ℕ))
      → find_entry key s.svc.write_buffer ≡ none
      → disk.read s.files (key_to_path key) ≡ o
      → Answer (get_entry disk s key buf_len none)
  unfolding get_entry
  file_Answer none miss file =
      (λ other. refl, inl (view_file none miss file, ap got_file (read_file-none file)))
  file_Answer (some bytes) miss file = (
    λ other. refl,
    inr (
      bytes,
      view_file (some bytes) miss file,
      λ fits. ap got_file (read_file-some bytes file fits),
    ),
  )

  get_entry-Answer :
      (o : Option Entry)
      → find_entry key s.svc.write_buffer ≡ o
      → Answer (get_entry disk s key buf_len o)
  unfolding get_entry
  get_entry-Answer none miss = file_Answer (disk.read s.files (key_to_path key)) miss refl
  get_entry-Answer (some x) hit = (
    λ other. refl,
    inr (
      x.bytes,
      ap (λ o. stored o (disk.read s.files (key_to_path key))) hit,
      λ fits. ap (λ c. got ok c (length x.bytes)) (take_all buf_len x.bytes fits),
    ),
  )

  -- On an initialised store, `os_persist_get` into a buffer of `buf_len` bytes changes what no key
  -- has. It returns OS_ERR_NOT_FOUND for a key that has nothing, and for one that has data that fit
  -- the buffer OS_OK, the data and their length.
  pub get-view :
      let (g, s') = get disk s (some key) buf_len in
      ((other : List ℕ) → view disk s' other ≡ view disk s other)
      × (((view disk s key ≡ none) × (g ≡ got not_found [] 0))
          ⊎ ((bytes : List ℕ) × (view disk s key ≡ some bytes)
              × (length bytes ≤ buf_len → g ≡ got ok bytes (length bytes))))
  unfolding get
  get-view =
      if_rule Answer (not s.svc.initialized) _ _ (λ f. cc (sym f ∙ ap not on))
        (λ _. get_entry-Answer (find_entry key s.svc.write_buffer) refl)
