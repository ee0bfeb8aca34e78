-- ===== src/Policy/Levels.antt =====
-- policy.rs: the levels and the overrides of a request. An override of a rule and one of a category are
-- the same record. A selector is read by its code points: one that is not ASCII has a byte that no
-- selector may have, and of one that is the length in bytes is that in code points.
pub mod Printed
use rust_doctor.Prelude.{
  ℕ, ◌≡◌, Bool, true, false, not, ◌&&◌, ◌||◌, Option, none, some, List, [], ◌∷◌, ◌++◌, leb, ◌==◌,
  if◌then◌else◌, length, all, is_empty, same, list_ord, nat_ord, Result, ok, err,
}
use rust_doctor.Report.{Text, codes}

pub data RuleLevel : Type 0 where
  off warn error : RuleLevel

abbrev pub is_active_level : RuleLevel → Bool
is_active_level off = false
is_active_level warn = true
is_active_level error = true

-- `RuleLevel::as_str`.
unfoldable pub level_label : RuleLevel → Text
level_label off = codes "off"
level_label warn = codes "warn"
level_label error = codes "error"

pub data BlockingLevel : Type 0 where
  blocks_none blocks_error blocks_warning : BlockingLevel

pub record Override : Type 0 where
  pub selector : Text
  pub level : RuleLevel

abbrev pub equals : ℕ
equals = 61

-- `Display::fmt` of an override.
unfoldable pub print_override : Override → Text
unfolding level_label
print_override override = override.selector ++ equals ∷ level_label override.level

-- `str::split_once`.
abbrev pub after_first : ℕ → Option (Text × Text) → Option (Text × Text)
after_first x none = none
after_first x (some (a, b)) = some (x ∷ a, b)

abbrev pub split_once : ℕ → Text → Option (Text × Text)
split_once c [] = none
split_once c (x ∷ xs) = if x == c then some ([], xs) else after_first x (split_once c xs)

pub data OverrideError : Type 0 where
  expected_key_and_level empty_key unknown_level : OverrideError

unfoldable pub read_level : Text → Option RuleLevel
read_level text =
    if same text (codes "off")
    then some off
    else if same text (codes "warn")
    then some warn
    else if same text (codes "error")
    then some error
    else none

unfoldable pub read_parts : Option (Text × Text) → Result OverrideError Override
unfolding read_level
read_parts none = err expected_key_and_level
read_parts (some (selector, level)) =
    if is_empty selector then err empty_key else elim (read_level level) [
      | none ↦ err unknown_level
      | some l ↦ ok (record { selector = selector; level = l })
    ]

-- `parse_override`, and `from_str` of an override.
unfoldable pub parse_override : Text → Result OverrideError Override
unfolding read_parts
parse_override value = read_parts (split_once equals value)

abbrev pub is_lowercase : ℕ → Bool
is_lowercase c = leb 97 c && leb c 122

abbrev pub is_digit : ℕ → Bool
is_digit c = leb 48 c && leb c 57

unfoldable pub is_rule_selector : Text → Bool
is_rule_selector selector =
    leb 1 (length selector)
    && leb (length selector) 128
    && all (λ c. is_lowercase c || is_digit c || c == 95 || c == 58) selector

unfoldable pub is_category_selector : Text → Bool
is_category_selector selector =
    leb 1 (length selector) && leb (length selector) 32 && all is_lowercase selector
