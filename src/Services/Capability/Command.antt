-- ===== src/Services/Capability/Command.antt =====
-- What `cap_execute_command` of services/src/capability.c publishes of a command.
use esp32_c6_gateway_os.Base.{
  ℕ, List, [], ◌∷◌, some, le_bytes, ◌≤◌, ◌++◌, length, ◌<◌, ◌≡◌, suc, arith, ap, zero, refl, ap₂,
  if◌then◌else◌, if_true, not, ltb, lt→ltb, length-append, ◌∙◌, ◌==◌, sym,
}
use esp32_c6_gateway_os.Services.Capability.Types.{Service, cap_number, cluster_map}
use esp32_c6_gateway_os.Services.Capability.Report.{CapCommand, execute_command, cluster_of}
use esp32_c6_gateway_os.Os.Types.{Env, pad_bytes, invalid_arg, not_found, ok}
use esp32_c6_gateway_os.Os.Event.State.{Bus, event_cap_command}
use esp32_c6_gateway_os.Os.Event.Publish.{copy_into, emit, emitted, publish}

copy_into-append :
    (n : ℕ) (xs ys : List ℕ) → n ≤ length xs → copy_into n (xs ++ ys) ≡ copy_into n xs
unfolding copy_into
copy_into-append zero xs ys h = refl
copy_into-append (suc n) [] ys h = absurd (omega arith)
copy_into-append (suc n) (x ∷ xs) ys h = ap (λ zs. x ∷ zs) (copy_into-append n xs ys (omega arith))

-- Of bytes that are too many only the first 32 count.
emit-append :
    (e : Env) (b : Bus) (type : ℕ) (xs ys : List ℕ)
    → 32 < length xs
    → emit e b type (xs ++ ys) ≡ emit e b type xs
unfolding emit emitted
emit-append e b type xs ys long =
    ap₂
      (λ n p. publish e b (
        some (record {
          type = type;
          timestamp = e.now;
          corr_id = 0;
          src_id = 0;
          payload_len = n;
          payload = p;
        })))
      (if_true (ltb 32 (length (xs ++ ys))) _ _
          (lt→ltb 32 (length (xs ++ ys)) (omega (arith, length-append xs ys)))
        ∙ sym (if_true (ltb 32 (length xs)) _ _ (lt→ltb 32 (length xs) long)))
      (copy_into-append 32 xs ys (omega arith))

module _ (e : Env) (s : Service) (b : Bus) (cmd : CapCommand) (corr_id : ℕ) where
  -- The bytes of a command before its `corr_id`.
  front : List ℕ
  front =
      le_bytes 8 cmd.node_addr
      ++ (cmd.endpoint_id ∷ pad_bytes e 9 3)
      ++ le_bytes 4 (cap_number cmd.cap_id)
      ++ le_bytes 4 cmd.cmd_type
      ++ cmd.value

  pub execute_command-corr :
      length cmd.value ≡ 32
      → execute_command e s b (some (record cmd { corr_id = corr_id }))
        ≡ execute_command e s b (some cmd)
  unfolding execute_command front le_bytes pad_bytes
  execute_command-corr size =
      let same : (corr : ℕ)
          → emit e b event_cap_command (front ++ le_bytes 4 corr)
            ≡ emit e b event_cap_command front =
        λ corr. emit-append e b event_cap_command front (le_bytes 4 corr) (omega (arith, size)) in
      ap
        (λ r.
          if not s.initialized
          then (invalid_arg, b)
          else if cluster_of cmd.cap_id cluster_map == 0
          then (not_found, b)
          else (ok, r.1))
        (same corr_id ∙ sym (same cmd.corr_id))
