-- ===== src/Cmd/Ui.antt =====
-- pkg/cmd/ui: the lines of the terminal output, on each of the three outputs, and the progress of
-- downloads in cmd/progress.go. A text is given with its format applied. How a line is drawn stands
-- in Screen.
pub mod Download
pub mod Bar
pub mod Screen
pub mod Terminal
use eliot.Prelude.{
  ℕ, Bytes, codes, Bool, true, false, ◌||◌, not, List, [], ◌∷◌, ◌++◌, if◌then◌else◌, Outcome, ok,
  crash, bytes_beq, decimal,
}

-- terminal.go, debug.go and hidden.go
pub data Output : Type 0 where
  terminal debug hidden : Output

-- GlobalBefore: the output is hidden when it is piped, quiet or not for humans.
unfoldable pub global_before : Bool → Bool → Bytes → Bool → Output
global_before piping quiet format is_debug =
    if piping || quiet || not (bytes_beq format (codes "human"))
    then hidden
    else if is_debug
    then debug
    else terminal

-- State
pub data LineState : Type 0 where
  blank_state loading_state done_state warn_state error_state : LineState

pub record TerminalLine : Type 0 where
  pub state : LineState
  pub text : Bytes
  pub show_progress : Bool
  pub current : ℕ
  pub total : ℕ

-- &TerminalLine{terminal: t}
abbrev pub new_terminal_line : TerminalLine
new_terminal_line = record {
  state = blank_state;
  text = [];
  show_progress = false;
  current = 0;
  total = 0;
}

-- The methods of Line.
pub data LineOp : Type 0 where
  with_progress : ℕ → ℕ → LineOp
  info loading done warn error fatal : Bytes → LineOp

set_text : LineState → Bytes → TerminalLine → TerminalLine
set_text state text r = record r { state = state; text = text }

-- TerminalLine: the line that an operation leaves.
unfoldable pub terminal_line : LineOp → TerminalLine → TerminalLine
unfolding set_text
terminal_line (with_progress c t) r = record r { show_progress = true; current = c; total = t }
terminal_line (info text) r = set_text blank_state text r
terminal_line (loading text) r = set_text loading_state text r
terminal_line (done text) r = set_text done_state text r
terminal_line (warn text) r = set_text warn_state text r
terminal_line (error text) r = set_text error_state text r
terminal_line (fatal text) r = set_text error_state text r

-- The levels of the logger.
pub data Level : Type 0 where
  debug_level info_level warn_level error_level fatal_level : Level

-- DebugLine: what an operation logs.
unfoldable pub debug_line : LineOp → Level × Bytes
unfolding decimal
debug_line (with_progress c t) = (debug_level, decimal c ++ (b'/' ∷ decimal t))
debug_line (info text) = (info_level, text)
debug_line (loading text) = (debug_level, text)
debug_line (done text) = (info_level, text)
debug_line (warn text) = (warn_level, text)
debug_line (error text) = (error_level, text)
debug_line (fatal text) = (fatal_level, text)

-- Whether the process goes on behind an operation: os.Exit in TerminalLine, log.Fatal in DebugLine,
-- and nothing in HiddenLine.
unfoldable pub after_op : Output → LineOp → Outcome (Unit {0})
after_op terminal (fatal text) = crash
after_op terminal _ = ok tt
after_op debug (fatal text) = crash
after_op debug _ = ok tt
after_op hidden _ = ok tt
