-- ===== src/ConfigTx/Names.antt =====
-- The names of elements and channels, and of policies: validateConfigID and validateChannelID of
-- common/configtx/manager.go and validateModPolicy of update.go. The messages of the errors are left out.
use fabric.Prelude.{
  ℕ, suc, ◌≤◌, ◌<◌, ◌≡◌, ◌≢◌, ◌↔◌, refl, Bool, true, not, ◌&&◌, ◌||◌, List, [], ◌∷◌, ◌++◌, length,
  leb, ltb, nat_eq, All, arith, if◌then◌else◌,
}
use fabric.Prelude.Bytes.{Bytes, codes, bytes_eq, bytes_eq_iff}
use fabric.Prelude.Outcome.{Outcome, ok, err, ◌>>◌}

abbrev pub max_length : ℕ
max_length = 249

abbrev in_chars : ℕ → ℕ → ℕ → Bool
in_chars low high c = leb low c && leb c high

-- [a-z0-9.-]
abbrev is_channel_char : ℕ → Bool
is_channel_char c = in_chars 97 122 c || (in_chars 48 57 c || (nat_eq c 46 || nat_eq c 45))

-- [a-zA-Z0-9.-]
abbrev is_config_char : ℕ → Bool
is_config_char c = in_chars 65 90 c || is_channel_char c

-- The length of the longest front in which every character passes.
abbrev pub run_length : (ℕ → Bool) → Bytes → ℕ
run_length test [] = 0
run_length test (c ∷ s) = let rest = run_length test s in if test c then suc rest else 0

-- The length of what `FindString` returns: the first run of characters that pass, none being empty.
abbrev pub find_string : (ℕ → Bool) → Bytes → ℕ
find_string test [] = 0
find_string test (c ∷ s) =
    let later = find_string test s in if test c then run_length test (c ∷ s) else later

-- The same for a first character that passes a test of its own.
abbrev pub find_led : (ℕ → Bool) → (ℕ → Bool) → Bytes → ℕ
find_led first test [] = 0
find_led first test (c ∷ s) =
    let later = find_led first test s in if first c then suc (run_length test s) else later

unfoldable pub validate_config_id : Bytes → Outcome (Unit {0})
validate_config_id config_id =
    if leb (length config_id) 0
    then err []
    else if ltb max_length (length config_id)
    then err []
    else if bytes_eq config_id (codes ".") || bytes_eq config_id (codes "..")
    then err []
    else if not (nat_eq (find_string is_config_char config_id) (length config_id))
    then err []
    else ok tt

unfoldable pub validate_channel_id : Bytes → Outcome (Unit {0})
validate_channel_id channel_id =
    if leb (length channel_id) 0
    then err []
    else if ltb max_length (length channel_id)
    then err []
    else if not (nat_eq (find_led (in_chars 97 122) is_channel_char channel_id) (length channel_id))
    then err []
    else ok tt

-- `strings.Split` at the separator 47.
abbrev split_path : Bytes → Bytes → List Bytes
split_path part [] = part ∷ []
split_path part (c ∷ s) =
    let here = part ∷ split_path [] s in
    let more = split_path (part ++ c ∷ []) s in if nat_eq c 47 then here else more

unfoldable pub validate_elements : List Bytes → Outcome (Unit {0})
unfolding validate_config_id
validate_elements [] = ok tt
validate_elements (e ∷ es) = validate_config_id e >> validate_elements es

abbrev trimmed : Bytes → Bytes
trimmed [] = []
trimmed (c ∷ s) = if nat_eq c 47 then s else c ∷ s

unfoldable pub validate_mod_policy : Bytes → Outcome (Unit {0})
unfolding validate_elements
validate_mod_policy [] = err []
validate_mod_policy (c ∷ s) = validate_elements (split_path [] (trimmed (c ∷ s)))

module _ (test : ℕ → Bool) where
  run_length_le : (s : Bytes) → run_length test s ≤ length s
  run_length_le [] = omega arith
  run_length_le (c ∷ s) = ground (arith, run_length_le s)

  find_string_le : (s : Bytes) → find_string test s ≤ length s
  find_string_le [] = omega arith
  find_string_le (c ∷ s) = ground (arith, run_length_le s, find_string_le s)

  run_length_iff : (s : Bytes) → (run_length test s ≡ length s) ↔ All (λ c. test c ≡ true) s
  run_length_iff [] = (λ e. tt, λ a. refl)
  run_length_iff (c ∷ s) = ground (arith, run_length_iff s)

  find_string_iff : (s : Bytes) → (find_string test s ≡ length s) ↔ All (λ c. test c ≡ true) s
  find_string_iff [] = (λ e. tt, λ a. refl)
  find_string_iff (c ∷ s) = ground (arith, run_length_iff s, find_string_le s)

-- What the names of elements are to be.
pub record IsConfigId (s : Bytes) : Type 0 where
  pub nonempty : 0 < length s
  pub short : length s ≤ max_length
  pub no_dot : s ≢ codes "."
  pub no_dots : s ≢ codes ".."
  pub characters : All (λ c. is_config_char c ≡ true) s

-- `validateConfigID` accepts exactly the names of 1 to 249 ASCII letters, digits, dots and dashes
-- other than one dot or two.
pub validate_config_id_iff : (s : Bytes) → (validate_config_id s ≡ ok tt) ↔ IsConfigId s
unfolding validate_config_id
validate_config_id_iff s = (accepted, accepts)
  where
    accepted : validate_config_id s ≡ ok tt → IsConfigId s
    accepted e = record {
      nonempty = ground (arith, e);
      short = ground (arith, e);
      no_dot = λ d. ground (arith, e, bytes_eq_iff s (codes "."), d);
      no_dots = λ d. ground (arith, e, bytes_eq_iff s (codes ".."), d);
      characters = (find_string_iff is_config_char s).0 (ground (arith, e));
    }

    accepts : IsConfigId s → validate_config_id s ≡ ok tt
    accepts h = ground (
      arith,
      bytes_eq_iff s (codes "."),
      bytes_eq_iff s (codes ".."),
      find_string_iff is_config_char s,
      h.nonempty,
      h.short,
      h.no_dot,
      h.no_dots,
      h.characters,
    )
