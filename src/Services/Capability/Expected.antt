-- ===== src/Services/Capability/Expected.antt =====
-- What a report of an attribute means, apart from how `cap_handle_attribute_report` of
-- services/src/capability.c computes it.
use esp32_c6_gateway_os.Base.{
  ◌⊎◌, inl, inr, Bool-cases, true, false, ◌&&◌, ℕ, List, ◌∷◌, ◌++◌, ◌≡◌, ◌≢◌, ◌*◌, ◌/◌, ◌+◌, refl,
  ap, arith, replicate, get_or, le_bytes, of_bytes, take, ltb, ◌==◌, if◌then◌else◌, not, one_if,
}
use esp32_c6_gateway_os.Services.Capability.Types.{
  CapId, cap_number, Floats, cluster_map, zero_value, light_on, light_level, light_color_temp,
  sensor_temperature, sensor_humidity,
}
use esp32_c6_gateway_os.Services.Capability.Report.{reported_cap, new_value, sign_extend}

-- The 32 bytes of a value whose first four are a word.
abbrev pub word_value : ℕ → List ℕ
word_value n = le_bytes 4 n ++ replicate 28 0

abbrev pub low_half : List ℕ → ℕ
low_half value = of_bytes (take 2 value)

-- A capability and its new value, by the cluster and the attribute that are reported: on or off; the
-- level of 254 as a percentage; the colour temperature as it is; the temperature, signed, and the
-- humidity, in hundredths (1120403456 has the bits of 100.0f).
pub data Reports (fl : Floats) (value : List ℕ) : ℕ → ℕ → CapId → List ℕ → Type 0 where
  on_off : Reports fl value 6 0 light_on ((if get_or value 0 0 == 0 then 0 else 1) ∷ replicate 31 0)
  level : Reports fl value 8 0 light_level (word_value (get_or value 0 0 * 100 / 254))
  color : Reports fl value 768 7 light_color_temp (word_value (of_bytes (take 4 value)))
  temperature : Reports fl value 1026 0 sensor_temperature (
      word_value (
        fl.div
          (fl.of_int
            (if ltb (low_half value) 32768 then low_half value else low_half value + 4294901760))
          1120403456))
  humidity :
      Reports fl value 1029 0 sensor_humidity
        (word_value (fl.div (fl.of_int (low_half value)) 1120403456))

one_if-not : (n : ℕ) → one_if (not (n == 0)) ≡ (if n == 0 then 0 else 1)
one_if-not n = ground arith

sign_extend_lem : (n : ℕ) → sign_extend n ≡ (if ltb n 32768 then n else n + 4294901760)
sign_extend_lem n = ground arith

pub Reports-mapped :
    (fl : Floats) (value : List ℕ) (cluster_id attr_id : ℕ) (id : CapId) (new : List ℕ)
    → Reports fl value cluster_id attr_id id new
    → (reported_cap cluster_id attr_id cluster_map ≡ id)
      × (cap_number id ≢ 0)
      × (new_value fl id value ≡ new)
unfolding reported_cap cap_number new_value zero_value
Reports-mapped fl value cluster_id attr_id id new on_off =
    (refl, omega arith, ap (λ n. n ∷ replicate 31 0) (one_if-not (get_or value 0 0)))
Reports-mapped fl value cluster_id attr_id id new level = (refl, omega arith, refl)
Reports-mapped fl value cluster_id attr_id id new color = (refl, omega arith, refl)
Reports-mapped fl value cluster_id attr_id id new temperature = (
  refl,
  omega arith,
  ap (λ n. word_value (fl.div (fl.of_int n) 1120403456)) (sign_extend_lem (low_half value)),
)
Reports-mapped fl value cluster_id attr_id id new humidity = (refl, omega arith, refl)

-- An attribute that is none of these.
abbrev pub Unmapped : ℕ → ℕ → Type 0
Unmapped cluster_id attr_id =
    (cluster_id ≡ 6 → attr_id ≢ 0)
    × (cluster_id ≡ 8 → attr_id ≢ 0)
    × (cluster_id ≡ 768 → attr_id ≢ 7)
    × (cluster_id ≡ 1026 → attr_id ≢ 0)
    × (cluster_id ≡ 1029 → attr_id ≢ 0)

pub Unmapped-unknown :
    (cluster_id attr_id : ℕ)
    → Unmapped cluster_id attr_id
    → cap_number (reported_cap cluster_id attr_id cluster_map) ≡ 0
unfolding reported_cap cap_number
Unmapped-unknown cluster_id attr_id (a, b, c, d, e) = ground (arith, a, b, c, d, e)

-- Which of these it is.
abbrev pub Meaning : Floats → List ℕ → ℕ → ℕ → Type 0
Meaning fl value cluster_id attr_id =
    Unmapped cluster_id attr_id
    ⊎ ((id : CapId) × (new : List ℕ) × Reports fl value cluster_id attr_id id new)

is_pair : (c a i k : ℕ) → (c == i && a == k) ≡ true → (c ≡ i) × (a ≡ k)
is_pair c a i k t = ground arith

not_pair : (c a i k : ℕ) → (c == i && a == k) ≡ false → c ≡ i → a ≢ k
not_pair c a i k f = ground arith

pub meaning : (fl : Floats) (value : List ℕ) (c a : ℕ) → Meaning fl value c a
meaning fl value c a = elim (Bool-cases (c == 6 && a == 0)) [
  | inl t ↦ let (e, k) = is_pair c a 6 0 t in rw (e, k) (inr (_, _, on_off))
  | inr f6 ↦ elim (Bool-cases (c == 8 && a == 0)) [
    | inl t ↦ let (e, k) = is_pair c a 8 0 t in rw (e, k) (inr (_, _, level))
    | inr f8 ↦ elim (Bool-cases (c == 768 && a == 7)) [
      | inl t ↦ let (e, k) = is_pair c a 768 7 t in rw (e, k) (inr (_, _, color))
      | inr f768 ↦ elim (Bool-cases (c == 1026 && a == 0)) [
        | inl t ↦ let (e, k) = is_pair c a 1026 0 t in rw (e, k) (inr (_, _, temperature))
        | inr f1026 ↦ elim (Bool-cases (c == 1029 && a == 0)) [
          | inl t ↦ let (e, k) = is_pair c a 1029 0 t in rw (e, k) (inr (_, _, humidity))
          | inr f1029 ↦ inl (
            not_pair c a 6 0 f6,
            not_pair c a 8 0 f8,
            not_pair c a 768 7 f768,
            not_pair c a 1026 0 f1026,
            not_pair c a 1029 0 f1029,
          )
        ]
      ]
    ]
  ]
]
