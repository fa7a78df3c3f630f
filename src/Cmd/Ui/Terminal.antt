-- ===== src/Cmd/Ui/Terminal.antt =====
-- pkg/cmd/ui/terminal.go: the lines that a terminal keeps and draws, where its events come one after
-- another, each whole. The source holds a mutex in Update and NewLine only: Start, Stop and the methods
-- of a line write their fields without it, and what such a write does in the middle of another event
-- is not modelled.
use eliot.Prelude.{
  ℕ, zero, suc, Bytes, Bool, true, false, List, [], ◌∷◌, ◌++◌, Outcome, ok, err, crash, get_elem?,
  length, none, some,
}
use eliot.Cmd.Ui.{TerminalLine, new_terminal_line, LineOp, terminal_line}
use eliot.Cmd.Ui.Screen.{Drawing, render_rows}

-- Lines are shared with the code that writes them: `lines` holds every line that was made, and `rows`
-- those that the terminal draws, by their indices. `screens` holds what was printed.
pub record Terminal : Type 0 where
  pub running : Bool
  pub lines : List TerminalLine
  pub rows : List ℕ
  pub frames : List Bytes
  pub screens : List (List Bytes)

-- NewTerminal, with the frames of the spinner
unfoldable pub new_terminal : List Bytes → Terminal
new_terminal frames = record {
  running = true;
  lines = [];
  rows = [];
  frames = frames;
  screens = [];
}

pub data Event : Type 0 where
  new_line : Event
  -- A method of the line with this index.
  method : ℕ → LineOp → Event
  -- The goroutine wakes up: an update, and its end if the terminal was stopped.
  wake : Event
  start stop : Event

unfoldable pub method_at : ℕ → LineOp → List TerminalLine → List TerminalLine
unfolding terminal_line
method_at i op [] = []
method_at zero op (r ∷ rs) = terminal_line op r ∷ rs
method_at (suc i) op (r ∷ rs) = r ∷ method_at i op rs

-- The lines with these indices.
unfoldable pub lines_at : List ℕ → List TerminalLine → List TerminalLine
lines_at [] lines = []
lines_at (i ∷ is) lines = elim (get_elem? lines i) [
  | none ↦ lines_at is lines
  | some r ↦ r ∷ lines_at is lines
]

module _ (d : Drawing) where
  abbrev pub printed : Terminal → Outcome (List Bytes × List Bytes) → Terminal
  printed t (ok (texts, frames)) = record t { frames = frames; screens = t.screens ++ texts ∷ [] }
  printed t (err e) = t
  printed t crash = t

  -- Update
  unfoldable pub update : Terminal → Terminal
  unfolding render_rows lines_at
  update t = printed t (render_rows d t.frames (lines_at t.rows t.lines))

  unfoldable pub step : Terminal → Event → Terminal
  unfolding update method_at
  step t new_line = record t {
    lines = t.lines ++ new_terminal_line ∷ [];
    rows = t.rows ++ length t.lines ∷ [];
  }
  step t (method i op) = update (record t { lines = method_at i op t.lines })
  step t wake = update t
  step t start = record t { running = true }
  step t stop = record (update (record t { running = false })) { rows = [] }

  unfoldable pub steps : List Event → Terminal → Terminal
  unfolding step
  steps [] t = t
  steps (e ∷ es) t = steps es (step t e)
