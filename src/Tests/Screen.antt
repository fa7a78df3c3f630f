-- ===== src/Tests/Screen.antt =====
-- The theorems on the progress bar, at small inputs.
use eliot.Prelude.{ℕ, codes, ok, ◌≡◌, refl, length, arith}
use eliot.Cmd.Ui.Bar.{new_bar, render}
use eliot.Cmd.Ui.Bar.Laws.{drawn, byte_at, render-byte_at}

-- What is completed, in the numbers of a bar as wide as the total.
abbrev completed : ℕ → ℕ → ℕ → ℕ
completed width current total = current

render-byte_at_example :
    (render new_bar completed 6 3 6 ≡ ok (codes "[=>--]"))
    × (length (drawn (byte_at new_bar 6 3) 0 6) ≡ 6)
unfolding new_bar
render-byte_at_example = render-byte_at completed new_bar 6 3 6 (omega arith) refl (omega arith)
