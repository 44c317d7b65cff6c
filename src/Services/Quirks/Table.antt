-- ===== src/Services/Quirks/Table.antt =====
-- services/include/quirks.h and services/src/quirks.c: the table of quirks and the search in it.
-- A pointer to an entry is its index.
use esp32_c6_gateway_os.Base.{
  ℕ, List, Bool, [], ◌∷◌, some, none, true, false, replicate, codes, length, Option, if◌then◌else◌,
  get_or, leb, not, find_index, bytes_eq, bytes_eq_n,
}
use esp32_c6_gateway_os.Services.Capability.Types.{
  CapId, light_level, sensor_contact, sensor_temperature, unknown,
}

-- `quirk_action_type_t` with the member of the union `quirk_action_params_t` that each type reads;
-- an `int32_t` and a `float` are their 32 bits.
pub data Kind : Type 0 where
  no_action : Kind
  clamp_range : (min max : ℕ) → Kind
  invert_boolean : (enabled : Bool) → Kind
  scale_numeric : (multiplier offset : ℕ) → Kind
  remap_attribute override_reporting ignore_spurious : Kind

-- `quirk_action_t`
pub record Action : Type 0 where
  pub kind : Kind
  pub target_cap : CapId

abbrev pub max_actions : ℕ
max_actions = 4

-- `quirk_entry_t`
pub record Entry : Type 0 where
  pub manufacturer : List ℕ
  pub model : List ℕ
  pub prefix_match : Bool
  pub actions : List Action
  pub action_count : ℕ

-- An entry with one action; C fills the other places of the array with zeros.
abbrev pub one_action : List ℕ → List ℕ → Bool → CapId → Kind → Entry
one_action manufacturer model prefix_match target_cap kind = record {
  manufacturer = manufacturer;
  model = model;
  prefix_match = prefix_match;
  actions =
      record { kind = kind; target_cap = target_cap }
      ∷ replicate 3 (record { kind = no_action; target_cap = unknown });
  action_count = 1;
}

-- The bits of `0.1f`.
abbrev pub one_tenth : ℕ
one_tenth = 1036831949

-- `quirks_table`
unfoldable pub quirks_table : List Entry
quirks_table =
    one_action (codes "DUMMY") (codes "DUMMY-LIGHT-1") false light_level (clamp_range 1 100)
    ∷ one_action (codes "IKEA of Sweden") (codes "TRADFRI bulb") true light_level
        (clamp_range 1 100)
    ∷ one_action (codes "LUMI") (codes "lumi.sensor_magnet") true sensor_contact
        (invert_boolean true)
    ∷ one_action (codes "_TZE200") (codes "TS0601") true sensor_temperature
        (scale_numeric one_tenth 0)
    ∷ []

abbrev pub zero_entry : Entry
zero_entry = record {
  manufacturer = [];
  model = [];
  prefix_match = false;
  actions = [];
  action_count = 0;
}

-- `quirks_count`
unfoldable pub count : ℕ
count = length quirks_table

-- `quirks_get_entry`
unfoldable pub get_entry : ℕ → Option ℕ
get_entry index = if leb count index then none else some index

-- The conditions of the loop of `quirks_find`.
unfoldable pub matches : List ℕ → List ℕ → Entry → Bool
matches manufacturer model entry =
    if not (bytes_eq entry.manufacturer manufacturer)
    then false
    else if entry.prefix_match
    then bytes_eq_n (length entry.model) model entry.model
    else bytes_eq model entry.model

-- `quirks_find`
unfoldable pub find : Option (List ℕ) → Option (List ℕ) → Option ℕ
find none model = none
find (some manufacturer) none = none
find (some manufacturer) (some model) = find_index (matches manufacturer model) quirks_table

abbrev pub entry_at : ℕ → Entry
entry_at i = get_or quirks_table i zero_entry
