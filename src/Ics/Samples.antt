-- ===== src/Ics/Samples.antt =====
-- Texts of iCalendar files at which the theorems apply.
use scheduleos.Base.{◌≡◌, refl, ℕ, zero, suc, [], ◌∷◌, All, ◌++◌}
use scheduleos.Ics.{
  Text, export_lines, unfold_lines, split_lines, without_cr, without_crlf, escape_text,
  unescape_text,
}
use scheduleos.Ics.Lines.{InLine, IsLine, IsShort}
use scheduleos.Ics.Lines.Unfolded.{unfold_lines-export_lines, export_lines-IsShort}
use scheduleos.Ics.Escapes.{unescape_text-escape_text}

abbrev repeated : ℕ → ℕ → Text
repeated zero c = []
repeated (suc n) c = c ∷ repeated n c

-- A line that is folded twice.
abbrev long_line : Text
long_line = repeated 160 65

abbrev short_line : Text
short_line = 66 ∷ 32 ∷ 9 ∷ []

repeated-InLine : (n : ℕ) → All InLine (repeated n 65)
repeated-InLine zero = tt
repeated-InLine (suc n) = ((refl, refl), repeated-InLine n)

lines-IsLine : All IsLine (long_line ∷ short_line ∷ [])
lines-IsLine =
    ((repeated-InLine 160, refl), ((((refl, refl), ((refl, refl), ((refl, refl), tt))), refl), tt))

unfold_lines-export_lines_example :
    unfold_lines (export_lines (long_line ∷ short_line ∷ []))
    ≡ long_line ∷ (short_line ∷ [] ++ [] ∷ [])
unfold_lines-export_lines_example =
    unfold_lines-export_lines long_line (short_line ∷ []) lines-IsLine

export_lines-IsShort_example :
    All IsShort
      (split_lines (without_cr (without_crlf (export_lines (long_line ∷ short_line ∷ [])))))
export_lines-IsShort_example =
    export_lines-IsShort long_line (short_line ∷ [])
      ((lines-IsLine.0).0, (((lines-IsLine.1).0).0, tt))

-- The text `a`, a line break, `;` and `,n`.
abbrev special_text : Text
special_text = 97 ∷ 10 ∷ 59 ∷ 44 ∷ 110 ∷ []

unescape_text-escape_text_example : unescape_text (escape_text special_text) ≡ special_text
unescape_text-escape_text_example =
    unescape_text-escape_text special_text (refl, (refl, (refl, (refl, (refl, tt)))))
