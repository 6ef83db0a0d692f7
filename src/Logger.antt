-- ===== src/Logger.antt =====
-- src/common/logger.h: what the logger writes. The console and the file are the lists of the lines
-- written to them.
use nexus_ftp_engine.Prelude.{ℕ, Option, none, some, List, [], ◌∷◌, ◌++◌, ltb, if◌then◌else◌}
use nexus_ftp_engine.Bytes.{Bytes, bytes}

pub data LogLevel : Type 0 where
  lvl_debug lvl_info lvl_warn lvl_error lvl_fatal : LogLevel

-- (int)level
unfoldable pub level_number : LogLevel → ℕ
level_number LogLevel.lvl_debug = 0
level_number LogLevel.lvl_info = 1
level_number LogLevel.lvl_warn = 2
level_number LogLevel.lvl_error = 3
level_number LogLevel.lvl_fatal = 4

-- Logger::lvlStr
unfoldable pub lvl_str : LogLevel → Bytes
lvl_str LogLevel.lvl_debug = bytes "DEBUG"
lvl_str LogLevel.lvl_info = bytes "INFO "
lvl_str LogLevel.lvl_warn = bytes "WARN "
lvl_str LogLevel.lvl_error = bytes "ERROR"
lvl_str LogLevel.lvl_fatal = bytes "FATAL"

-- Logger: the least level, the lines on the console, and the path of the open file, if there is one,
-- with the lines written to it since it was opened.
pub record Logger : Type 0 where
  pub min_level : LogLevel
  pub console : List Bytes
  pub file : Option (Bytes × List Bytes)

abbrev pub initial_logger : Logger
initial_logger = record { min_level = LogLevel.lvl_info; console = []; file = none }

-- Logger::setLevel
unfoldable pub set_level : LogLevel → Logger → Logger
set_level level l = record l { min_level = level }

-- Logger::setLogFile, for a path that can be opened.
unfoldable pub set_log_file : Bytes → Logger → Logger
set_log_file path l = record l { file = some (path, []) }

-- Logger::formatLine; `time` is the text that strftime leaves in the buffer.
unfoldable pub format_line : Bytes → LogLevel → Bytes → Bytes → Bytes
format_line time level comp msg =
    b'[' ∷ time ++ bytes "] [" ++ lvl_str level ++ bytes "] [" ++ comp ++ bytes "] " ++ msg

abbrev pub append_line : Bytes → Option (Bytes × List Bytes) → Option (Bytes × List Bytes)
append_line line none = none
append_line line (some (path, lines)) = some (path, lines ++ line ∷ [])

-- Logger::log
unfoldable pub log : Bytes → LogLevel → Bytes → Bytes → Logger → Logger
unfolding format_line level_number
log time level comp msg l =
    let line = format_line time level comp msg in
    if ltb (level_number level) (level_number l.min_level)
    then l
    else record l { console = l.console ++ line ∷ []; file = append_line line l.file }
