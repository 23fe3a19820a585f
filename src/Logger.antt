-- ===== src/Logger.antt =====
-- logger.hpp: which messages are written, and under which label.
use ivckolpak.Prelude.{Bool, true, false, not, ◌&&◌, List, [], ◌∷◌, ◌++◌, if◌then◌else◌}
use ivckolpak.Prelude.Bytes.{Bytes, codes}

pub data LogLevel : Type 0 where
  debug info warn error : LogLevel

unfoldable pub level_str : LogLevel → Bytes
level_str debug = codes "DEBUG"
level_str info = codes "INFO"
level_str warn = codes "WARN"
level_str error = codes "ERROR"

-- A line on `std::cerr` without its time: the label, the module, and the message.
pub record Line {ℓ} (M : Type ℓ) : Type ℓ where
  pub label : Bytes
  pub module_name : Bytes
  pub message : M

-- `logs_enabled_`, and the lines that were written.
pub record Logger {ℓ} (M : Type ℓ) : Type ℓ where
  pub logs_enabled : Bool
  pub lines : List (Line M)

abbrev is_debug : LogLevel → Bool
is_debug debug = true
is_debug info = false
is_debug warn = false
is_debug error = false

module _ {ℓ} {M : Type ℓ} where
  unfoldable pub new_logger : Logger M
  new_logger = record { logs_enabled = true; lines = [] }

  unfoldable pub set_enabled : Bool → Logger M → Logger M
  set_enabled enabled l = record l { logs_enabled = enabled }

  -- The first argument says whether NDEBUG is defined.
  unfoldable pub log : Bool → LogLevel → Bytes → M → Logger M → Logger M
  unfolding level_str
  log ndebug level module_name message l =
      if not l.logs_enabled then l else if ndebug && is_debug level then l else record l {
        lines =
            l.lines
            ++ record { label = level_str level; module_name = module_name; message = message }
              ∷ [];
      }
