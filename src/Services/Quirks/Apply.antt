-- ===== src/Services/Quirks/Apply.antt =====
-- services/src/quirks.c: `quirks_init`, `quirks_apply_value`, `quirks_apply_command` and
-- `quirks_action_name`. The value is the 32 bytes of `cap_value_t`, `none` where the pointer is NULL.
use esp32_c6_gateway_os.Base.{
  ℕ, List, Bool, [], ◌∷◌, some, none, true, false, if◌then◌else◌, Option, codes, slt, add8, ltb,
  not, ◌==◌, take, length, get_or,
}
use esp32_c6_gateway_os.Services.Capability.Types.{
  CapId, Floats, with_word, word_of, with_bool, cap_number, bool_of,
}
use esp32_c6_gateway_os.Services.Quirks.Table.{
  Kind, Action, entry_at, no_action, clamp_range, invert_boolean, scale_numeric, remap_attribute,
  override_reporting, ignore_spurious, find, max_actions,
}
use esp32_c6_gateway_os.Os.Types.{Err, ok, invalid_arg, already_exists}

pub record Service : Type 0 where
  pub initialized : Bool

-- `quirks_init`
unfoldable pub init : Service → Err × Service
init s = if s.initialized then (already_exists, s) else (ok, record s { initialized = true })

-- `quirk_result_t`
pub record Result : Type 0 where
  pub applied : Bool
  pub actions_applied : ℕ

abbrev pub none_applied : Result
none_applied = record { applied = false; actions_applied = 0 }

-- `value->i` held between two bounds.
unfoldable pub clamped : ℕ → ℕ → ℕ → ℕ
clamped min max i = if slt i min then min else if slt max i then max else i

abbrev pub clamp_value : ℕ → ℕ → List ℕ → List ℕ
clamp_value min max value = with_word value (clamped min max (word_of value))

abbrev pub invert_value : Bool → List ℕ → List ℕ
invert_value enabled value = if enabled then with_bool value (not (bool_of value)) else value

-- The bits of `QUIRKS_FLOAT_EPSILON`, `1e-6f`.
abbrev pub epsilon : ℕ
epsilon = 897988541

module _ (floats : Floats) where
  abbrev pub scale_value : ℕ → ℕ → List ℕ → List ℕ
  scale_value multiplier offset value =
      with_word value (floats.add (floats.mul (word_of value) multiplier) offset)

  abbrev pub unscale_value : ℕ → ℕ → List ℕ → List ℕ
  unscale_value multiplier offset value =
      if floats.exceeds (floats.abs multiplier) epsilon
      then with_word value (floats.div (floats.sub (word_of value) offset) multiplier)
      else value

  -- The `switch` of `quirks_apply_value`; `none` where its default goes on with the loop.
  unfoldable pub value_action : Kind → List ℕ → Option (List ℕ)
  value_action (clamp_range min max) value = some (clamp_value min max value)
  value_action (invert_boolean enabled) value = some (invert_value enabled value)
  value_action (scale_numeric multiplier offset) value = some (scale_value multiplier offset value)
  value_action no_action value = none
  value_action remap_attribute value = none
  value_action override_reporting value = none
  value_action ignore_spurious value = none

  -- The `switch` of `quirks_apply_command`.
  unfoldable pub command_action : Kind → List ℕ → Option (List ℕ)
  command_action (clamp_range min max) value = some (clamp_value min max value)
  command_action (invert_boolean enabled) value = some (invert_value enabled value)
  command_action (scale_numeric multiplier offset) value =
      some (unscale_value multiplier offset value)
  command_action no_action value = none
  command_action remap_attribute value = none
  command_action override_reporting value = none
  command_action ignore_spurious value = none

-- What follows the `switch`: the result counts an action that was applied.
unfoldable pub acted : List ℕ × Result → Option (List ℕ) → List ℕ × Result
acted r none = r
acted (value, result) (some value') =
    (value', record { applied = true; actions_applied = add8 result.actions_applied 1 })

-- The loop over the actions of an entry.
unfoldable pub apply_actions :
    (Kind → List ℕ → Option (List ℕ)) → CapId → List Action → List ℕ × Result → List ℕ × Result
apply_actions switch cap_id [] r = r
apply_actions switch cap_id (a ∷ rest) r =
    apply_actions switch cap_id rest
      (if cap_number a.target_cap == cap_number cap_id then acted r (switch a.kind r.0) else r)

unfoldable pub apply_entry :
    (Kind → List ℕ → Option (List ℕ)) → Option ℕ → CapId → List ℕ → Err × List ℕ × Result
apply_entry switch none cap_id value = (ok, value, none_applied)
apply_entry switch (some i) cap_id value =
    let r =
      apply_actions switch cap_id (take (entry_at i).action_count (entry_at i).actions)
        (value, none_applied) in
    if ltb max_actions (entry_at i).action_count
    then (invalid_arg, value, none_applied)
    else (ok, r.0, r.1)

module _ (floats : Floats) (manufacturer model : Option (List ℕ)) (cap_id : CapId) where
  -- `quirks_apply_value`; `none` for a value that is NULL, which leaves the result as it was.
  unfoldable pub apply_value : Option (List ℕ) → Err × Option (List ℕ × Result)
  apply_value none = (invalid_arg, none)
  apply_value (some value) =
      let r = apply_entry (value_action floats) (find manufacturer model) cap_id value in
      (r.0, some (r.1, r.2))

  -- `quirks_apply_command`
  unfoldable pub apply_command : Option (List ℕ) → Err × Option (List ℕ × Result)
  apply_command none = (invalid_arg, none)
  apply_command (some value) =
      let r = apply_entry (command_action floats) (find manufacturer model) cap_id value in
      (r.0, some (r.1, r.2))

-- `action_names`
unfoldable pub action_names : List (List ℕ)
action_names =
    codes "none"
    ∷ codes "clamp_range"
    ∷ codes "invert_boolean"
    ∷ codes "scale_numeric"
    ∷ codes "remap_attribute"
    ∷ codes "override_reporting"
    ∷ codes "ignore_spurious"
    ∷ []

-- `quirks_action_name`, on the number of a type.
unfoldable pub action_name : ℕ → List ℕ
action_name type =
    if ltb type (length action_names) then get_or action_names type [] else codes "unknown"
