-- ===== src/NetworkDiag/Output.antt =====
-- StripExitMarker and ParseExitMarkerLine of internal/networkdiag/commands.go: what the script
-- printed, and the status that it printed last.
use myapptest.Common.{
  ℤ, pos, Option, none, some, List, [], ◌∷◌, Text, codes, atoi, trim_space, trim_right_of,
  has_prefix, drop, length, is_empty, replace_all, split_on, map, if◌then◌else◌,
}
use myapptest.NetworkDiag.Script.{exit_marker}

-- A status that is no number is 0.
or_zero : Option ℤ → ℤ
or_zero none = pos 0
or_zero (some n) = n

unfoldable pub parse_marker : Text → Option ℤ
unfolding trim_space has_prefix atoi or_zero
parse_marker line =
    if has_prefix exit_marker line
    then some (or_zero (atoi (trim_space (drop (length exit_marker) line))))
    else none

-- The status of a line that has the marker.
unfoldable pub parse_exit_marker_line : Text → Option ℤ
unfolding trim_space trim_right_of parse_marker
parse_exit_marker_line line = parse_marker (trim_space (trim_right_of (codes "\r") line))

-- The loop over the lines, with the status so far.
unfoldable pub strip_lines : (exit_code : ℤ) → List Text → List Text × ℤ
unfolding parse_exit_marker_line trim_space
strip_lines exit_code [] = ([], exit_code)
strip_lines exit_code (line ∷ lines) = elim (parse_exit_marker_line line) [
  | some parsed ↦ strip_lines parsed lines
  | none ↦
      let (kept, code) = strip_lines exit_code lines in
      (if is_empty (trim_space line) then kept else line ∷ kept, code)
]

unfoldable pub strip_exit_marker : Text → List Text × ℤ
unfolding strip_lines trim_right_of split_on replace_all
strip_exit_marker output = strip_lines (pos 0) (
    map (trim_right_of (codes "\r"))
      (split_on b'\n' (replace_all (codes "\r\n") (codes "\n") output)))
