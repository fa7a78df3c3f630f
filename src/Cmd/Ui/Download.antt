-- ===== src/Cmd/Ui/Download.antt =====
-- cmd/progress.go: ShowDownloadProgress, on the terminal.
use eliot.Prelude.{
  Bytes, codes, Bool, true, false, List, [], ◌∷◌, ◌++◌, Option, none, some, if◌then◌else◌, ◌≡◌,
  refl, sym, ap, ◌∙◌, arith, Dict, lookup, insert, lookup-insert, eq_iff, ◌==◌, bytes_eq, ◌||◌,
}
use mathlib.Core.Option
use eliot.Progress.{Status, ImageFetch, is_done, get_progress}
use eliot.Cmd.Ui.{
  TerminalLine, LineOp, new_terminal_line, terminal_line, with_progress, loading, done, error,
  done_state,
}

-- The line of the image, or a new one.
line_of : Dict TerminalLine → Bytes → TerminalLine
line_of lines image = elim (lookup image lines) [
  | some line ↦ line
  | none ↦ terminal_line (loading (codes "Download " ++ image)) new_terminal_line
]

some-injective : {A : Type 0} {a b : A} → some a ≡ some b → a ≡ b
some-injective e = cc

module _ (order : List Status → List Status) where
  -- What the loop does to the line of one fetch.
  fetch_op : ImageFetch → LineOp
  fetch_op fetch =
      let (current, total) = get_progress order fetch in
      if is_done order fetch
      then if fetch.failed
        then error (codes "Failed " ++ fetch.image)
        else done (codes "Downloaded " ++ fetch.image)
      else with_progress current total

  unfoldable pub show_fetch : Dict TerminalLine → ImageFetch → Dict TerminalLine
  unfolding fetch_op line_of terminal_line
  show_fetch lines fetch =
      insert fetch.image (terminal_line (fetch_op fetch) (line_of lines fetch.image)) lines

  unfoldable pub show_fetches : Dict TerminalLine → List ImageFetch → Dict TerminalLine
  unfolding show_fetch
  show_fetches lines [] = lines
  show_fetches lines (f ∷ fs) = show_fetches (show_fetch lines f) fs

  show_messages : Dict TerminalLine → List (List ImageFetch) → Dict TerminalLine
  unfolding show_fetches
  show_messages lines [] = lines
  show_messages lines (m ∷ ms) = show_messages (show_fetches lines m) ms

  -- The last loop, over the lines.
  complete : Dict TerminalLine → Dict TerminalLine
  complete [] = []
  complete ((image, line) ∷ lines) =
      (image, terminal_line (done (codes "Completed " ++ image)) line) ∷ complete lines

  -- The lines on the screen when the channel is closed, for the messages that came through it.
  unfoldable pub show_download_progress : List (List ImageFetch) → Dict TerminalLine
  unfolding show_messages complete
  show_download_progress messages = complete (show_messages [] messages)

  -- An image of one of the fetches.
  abbrev pub shows : Bytes → List ImageFetch → Bool
  shows image [] = false
  shows image (f ∷ fs) = f.image == image || shows image fs

  abbrev pub shown : Bytes → List (List ImageFetch) → Bool
  shown image [] = false
  shown image (m ∷ ms) = shows image m || shown image ms

  -- Whether the map has the key.
  abbrev pub has_line : Bytes → Dict TerminalLine → Bool
  has_line image lines = elim (lookup image lines) [ none ↦ false | some _ ↦ true ]

  show_fetches-line :
      (image : Bytes) (lines : Dict TerminalLine) (fs : List ImageFetch)
      → has_line image (show_fetches lines fs) ≡ (has_line image lines || shows image fs)
  unfolding show_fetches show_fetch
  show_fetches-line image lines [] = ground arith
  show_fetches-line image lines (f ∷ fs) =
      let line = terminal_line (fetch_op f) (line_of lines f.image) in
      ground (
        arith,
        show_fetches-line image (show_fetch lines f) fs,
        lookup-insert f.image image line lines,
      )

  show_messages-line :
      (image : Bytes) (lines : Dict TerminalLine) (ms : List (List ImageFetch))
      → has_line image (show_messages lines ms) ≡ (has_line image lines || shown image ms)
  unfolding show_messages
  show_messages-line image lines [] = ground arith
  show_messages-line image lines (m ∷ ms) =
      ground
        (arith, show_messages-line image (show_fetches lines m) ms, show_fetches-line image lines m)

  complete-lookup :
      (image : Bytes) (lines : Dict TerminalLine)
      → lookup image (complete lines)
        ≡ Option.map (terminal_line (done (codes "Completed " ++ image))) (lookup image lines)
  unfolding lookup complete
  complete-lookup image [] = refl
  complete-lookup image ((j, line) ∷ lines) =
      ground (arith, complete-lookup image lines, eq_iff j image)

  complete-line :
      (image : Bytes) (lines : Dict TerminalLine)
      → has_line image (complete lines) ≡ has_line image lines
  unfolding lookup complete
  complete-line image [] = refl
  complete-line image ((j, line) ∷ lines) = ground (arith, complete-line image lines)

  completed :
      (image : Bytes) (o : Option TerminalLine) (line : TerminalLine)
      → Option.map (terminal_line (done (codes "Completed " ++ image))) o ≡ some line
      → (line.state ≡ done_state) × (line.text ≡ codes "Completed " ++ image)
  unfolding terminal_line
  completed image none line h = cc
  completed image (some l) line h =
      let e = some-injective h in
      (ap (λ (x : TerminalLine). x.state) (sym e), ap (λ (x : TerminalLine). x.text) (sym e))

  -- When the channel is closed, an image has a line exactly if a message named it, and the line says
  -- that the download is completed and is marked done, also where the fetch has failed.
  show_download_progress-completed :
      (messages : List (List ImageFetch)) (image : Bytes)
      → (has_line image (show_download_progress messages) ≡ shown image messages)
        × ((line : TerminalLine)
            → lookup image (show_download_progress messages) ≡ some line
            → (line.state ≡ done_state) × (line.text ≡ codes "Completed " ++ image))
  unfolding show_download_progress lookup
  show_download_progress-completed messages image =
      let lines = show_messages [] messages in
      (
        complete-line image lines ∙ show_messages-line image [] messages,
        λ line h. completed image (lookup image lines) line (sym (complete-lookup image lines) ∙ h),
      )
