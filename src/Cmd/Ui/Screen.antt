-- ===== src/Cmd/Ui/Screen.antt =====
-- pkg/cmd/ui/terminal.go, the spinner, and how terminalline.go draws a line. The mutex makes an
-- update one step; the packages pad and color, and what the bar takes as completed, are parameters.
use eliot.Prelude.{
  ℕ, Bytes, Option, none, some, List, [], ◌∷◌, ◌++◌, if◌then◌else◌, Outcome, ok, crash, ◌>>=◌,
}
use eliot.Utils.Lists.{rotate_l}
use eliot.Cmd.Ui.{blank_state, loading_state, done_state, warn_state, error_state, TerminalLine}
use eliot.Cmd.Ui.Bar.{new_bar, render}

-- The UTF-8 bytes of the marks, and the frames of NewDots.
abbrev tick_mark : Bytes
tick_mark = 226 ∷ 156 ∷ 147 ∷ []

abbrev warning_mark : Bytes
warning_mark = 226 ∷ 154 ∷ 160 ∷ []

abbrev cross_mark : Bytes
cross_mark = 226 ∷ 156 ∷ 152 ∷ []

abbrev bullet : Bytes
bullet = 226 ∷ 128 ∷ 162 ∷ []

abbrev braille : ℕ → ℕ → Bytes
braille a b = 226 ∷ a ∷ b ∷ []

unfoldable pub new_dots : List Bytes
new_dots =
    braille 160 139
    ∷ braille 160 153
    ∷ braille 160 185
    ∷ braille 160 184
    ∷ braille 160 188
    ∷ braille 160 180
    ∷ braille 160 166
    ∷ braille 160 167
    ∷ braille 160 135
    ∷ braille 160 143
    ∷ []

-- s.frames[0] of the rotated frames; crash: an index or a slice out of range.
abbrev frame_of : Option (List Bytes) → Outcome (Bytes × List Bytes)
frame_of none = crash
frame_of (some []) = crash
frame_of (some (f ∷ fs)) = ok (f, f ∷ fs)

-- Rotate: the frame, and the frames behind it.
unfoldable pub rotate : List Bytes → Outcome (Bytes × List Bytes)
unfolding rotate_l
rotate frames = frame_of (rotate_l frames)

pub data Colour : Type 0 where
  green yellow red : Colour

-- What drawing takes from other packages: pad.Left with blanks, a colour, and the completed width.
pub record Drawing : Type 0 where
  pub pad_left : Bytes → ℕ → Bytes
  pub coloured : Colour → Bytes → Bytes
  pub completed : ℕ → ℕ → ℕ → ℕ

module _ (d : Drawing) where
  loading_text : Bytes → TerminalLine → Outcome Bytes
  unfolding render new_bar
  loading_text frame r =
      let start = d.pad_left frame 5 ++ (b' ' ∷ r.text) in
      if r.show_progress
      then (do bar ← render new_bar d.completed 70 r.current r.total; ok (start ++ (b' ' ∷ bar)))
      else ok start

  marked : Bytes → TerminalLine → Bytes
  marked mark r = mark ++ (b' ' ∷ r.text)

  -- TerminalLine.render, with the frames of the spinner that all lines share.
  unfoldable pub render_line : List Bytes → TerminalLine → Outcome (Bytes × List Bytes)
  unfolding rotate loading_text marked
  render_line frames r = elim r.state [
    | loading_state ↦ (do (f, frames') ← rotate frames; text ← loading_text f r; ok (text, frames'))
    | done_state ↦ ok (marked (d.coloured green (d.pad_left tick_mark 5)) r, frames)
    | warn_state ↦ ok (marked (d.coloured yellow (d.pad_left warning_mark 5)) r, frames)
    | error_state ↦ ok (marked (d.coloured red (d.pad_left cross_mark 5)) r, frames)
    | blank_state ↦ ok (marked (d.pad_left bullet 5) r, frames)
  ]

  -- The rows of an update, from the top, each behind the ones before it.
  unfoldable pub render_rows : List Bytes → List TerminalLine → Outcome (List Bytes × List Bytes)
  unfolding render_line
  render_rows frames [] = ok ([], frames)
  render_rows frames (r ∷ rs) = do
    (text, frames') ← render_line frames r
    (texts, frames'') ← render_rows frames' rs
    ok (text ∷ texts, frames'')
