-- ===== src/Config/Load.antt =====
-- src/config/app_config.cpp: `load_from_file`.
pub mod InRange
pub mod Ports
use network_proxy.Prelude.{
  if◌then◌else◌, is_some, is_empty, Bytes, codes, starts_with, find_char, ends_with_char, pop_back,
  getlines, ℕ, ◌+◌, Bool, not, ◌&&◌, ◌||◌, Option, none, some, List, [], ◌∷◌, ◌++◌,
}
use network_proxy.Common.{trim_copy, split_once}
use network_proxy.Config.Types.{AppConfig}
use network_proxy.Config.Keys.{unknown, invalid, stored, set_key}

-- The error messages, with what they print.
pub data ConfigError : Type 0 where
  cannot_open : ConfigError
  invalid_line : ℕ → ConfigError
  invalid_value : Bytes → ℕ → ConfigError

-- The object, and the loop's variable `section_name`.
pub record Reader : Type 0 where
  pub config : AppConfig
  pub section_name : Bytes

pub data Round : Type 0 where
  next : Reader → Round
  refuse : ConfigError → Round

-- `trimmed_line.ends_with(':') && trimmed_line.find(' ') == npos`
abbrev pub is_section_line : Bytes → Bool
is_section_line line = ends_with_char line b':' && not (is_some (find_char line b' '))

abbrev pub full_key_of : Bytes → Bytes → Bytes
full_key_of section_name key =
    if is_empty section_name then key else section_name ++ (codes "." ++ key)

unfoldable pub store_key : Reader → ℕ → Bytes → Bytes → Round
store_key r n full_key value = elim (set_key full_key value r.config) [
  | unknown ↦ next r
  | invalid ↦ refuse (invalid_value full_key n)
  | stored c ↦ next (record r { config = c })
]

unfoldable pub process_line : Reader → ℕ → Bytes → Round
unfolding store_key
process_line r n line =
    let trimmed_line = trim_copy line in
    if is_empty trimmed_line || starts_with trimmed_line (codes "#")
    then next r
    else if is_section_line trimmed_line
    then next (record r { section_name = trim_copy (pop_back trimmed_line) })
    else elim (split_once trimmed_line b':') [
      | none ↦ refuse (invalid_line n)
      | some (key, value) ↦
          store_key r n (full_key_of r.section_name (trim_copy key)) (trim_copy value)
    ]

-- The object after the call, and the error message if the result is `false`.
pub record Loaded : Type 0 where
  pub config : AppConfig
  pub error : Option ConfigError

unfoldable pub load_loop : Reader → ℕ → List Bytes → Loaded
load_loop r n [] = record { config = r.config; error = none }
load_loop r n (line ∷ lines) = elim (process_line r (n + 1) line) [
  | next r' ↦ load_loop r' (n + 1) lines
  | refuse e ↦ record { config = r.config; error = some e }
]

-- On an object, with the text of the file, or `none` where it cannot be opened.
unfoldable pub load_from_file : AppConfig → Option Bytes → Loaded
unfolding load_loop
load_from_file config none = record { config = config; error = some cannot_open }
load_from_file config (some text) =
    load_loop (record { config = config; section_name = [] }) 0 (getlines text)
