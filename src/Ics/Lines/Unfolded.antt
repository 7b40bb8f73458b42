-- ===== src/Ics/Lines/Unfolded.antt =====
-- src/ics.ts: `unfoldLines` of what `foldLine` has folded.
use scheduleos.Base.{
  ◌≡◌, refl, sym, ◌∙◌, ap, subst, ℕ, suc, false, List, [], ◌∷◌, ◌++◌, map, flat_map, length, leb,
  arith, All, All-append, All-imp, All-flat_map, Bool-cases, inl, inr,
}
use mathlib.Core.List.{append_assoc}
use scheduleos.Ics.{
  Text, take, drop, pieces, chunks, export_lines, without_crlf, without_cr, split_lines,
  is_continuation, is_empty_list, add_to_last, unfold_loop, unfold_lines,
}
use scheduleos.Ics.Lines.{
  InLine, IsLine, IsShort, concat, physical, take-drop, pieces-concat, physical-All,
  physical-IsShort, export-terminated, split-terminated,
}

append-nonempty : (lines : List Text) (l : Text) → is_empty_list (lines ++ l ∷ []) ≡ false
append-nonempty [] l = refl
append-nonempty (x ∷ lines) l = refl

add_to_last-append :
    (text : Text) (lines : List Text) (l : Text)
    → add_to_last text (lines ++ l ∷ []) ≡ lines ++ (l ++ text) ∷ []
unfolding add_to_last
add_to_last-append text [] l = refl
add_to_last-append text (x ∷ []) l = refl
add_to_last-append text (x ∷ y ∷ lines) l =
    ap (λ ls. x ∷ ls) (add_to_last-append text (y ∷ lines) l)

append_empty : (text : Text) → text ++ [] ≡ text
append_empty [] = refl
append_empty (c ∷ text) = ap (λ t. c ∷ t) (append_empty text)

append_line :
    (lines : List Text) (l : Text) (rest : List Text)
    → (lines ++ l ∷ []) ++ rest ≡ lines ++ l ∷ rest
append_line [] l rest = refl
append_line (x ∷ lines) l rest = ap (λ ls. x ∷ ls) (append_line lines l rest)

-- Continuations go to the end of the last line.
unfold-continuations :
    (parts more lines : List Text) (l : Text)
    → unfold_loop (map (λ piece. 32 ∷ piece) parts ++ more) (lines ++ l ∷ [])
      ≡ unfold_loop more (lines ++ (l ++ concat parts) ∷ [])
unfolding unfold_loop drop
unfold-continuations [] more lines l =
    ap (λ t. unfold_loop more (lines ++ t ∷ [])) (sym (append_empty l))
unfold-continuations (part ∷ parts) more lines l =
    let rest = map (λ piece. 32 ∷ piece) parts ++ more in
    rw (append-nonempty lines l) (
      ap (unfold_loop rest) (add_to_last-append part lines l)
      ∙ unfold-continuations parts more lines (l ++ part)
      ∙ ap (λ t. unfold_loop more (lines ++ t ∷ [])) (append_assoc l part (concat parts)))

-- A line that is no continuation is a line of its own.
unfold-pushed :
    (raw : Text) (more lines : List Text)
    → is_continuation raw ≡ false
    → unfold_loop (raw ∷ more) lines ≡ unfold_loop more (lines ++ raw ∷ [])
unfolding unfold_loop
unfold-pushed raw more lines h = rw h refl

take-continuation :
    (n : ℕ) (text : Text)
    → is_continuation text ≡ false
    → is_continuation (take (suc n) text) ≡ false
unfolding take
take-continuation n [] h = refl
take-continuation n (c ∷ text) h = h

unfold-physical :
    (line : Text) (more lines : List Text)
    → is_continuation line ≡ false
    → unfold_loop (physical line ++ more) lines ≡ unfold_loop more (lines ++ line ∷ [])
unfolding chunks
unfold-physical line more lines h = elim (Bool-cases (leb (length line) 75)) [
  | inl e ↦ rw e (unfold-pushed line more lines h)
  | inr e ↦
      let remaining = drop 75 line in
      let parts = pieces (length remaining) remaining in
      let rest = map (λ piece. 32 ∷ piece) parts ++ more in
      let whole =
        ap (λ t. take 75 line ++ t) (pieces-concat (length remaining) remaining (omega arith))
        ∙ take-drop 75 line in
      rw e (
        unfold-pushed (take 75 line) rest lines (take-continuation 74 line h)
        ∙ unfold-continuations parts more lines (take 75 line)
        ∙ ap (λ t. unfold_loop more (lines ++ t ∷ [])) whole)
]

unfold-all :
    (todo lines : List Text)
    → All IsLine todo
    → unfold_loop (flat_map physical todo ++ [] ∷ []) lines ≡ lines ++ (todo ++ [] ∷ [])
unfolding unfold_loop
unfold-all [] lines h = refl
unfold-all (line ∷ todo) lines h =
    ap (λ ps. unfold_loop ps lines)
      (append_assoc (physical line) (flat_map physical todo) ([] ∷ []))
    ∙ unfold-physical line (flat_map physical todo ++ [] ∷ []) lines (h.0).1
    ∙ unfold-all todo (lines ++ line ∷ []) h.1
    ∙ append_line lines line (todo ++ [] ∷ [])

-- Reading the lines of an exported file gives the lines that were exported, and an empty one behind
-- them, where these have no line breaks in them and do not start with a space or a tab.
pub unfold_lines-export_lines :
    (line : Text) (lines : List Text)
    → All IsLine (line ∷ lines)
    → unfold_lines (export_lines (line ∷ lines)) ≡ line ∷ (lines ++ [] ∷ [])
unfolding unfold_lines
unfold_lines-export_lines line lines h =
    let all = All-flat_map (All InLine) physical (line ∷ lines) (
      All-imp IsLine (λ l. All (All InLine) (physical l)) (line ∷ lines) (λ l k. physical-All l k.0)
        h) in
    ap (λ t. unfold_loop (split_lines (without_cr (without_crlf t))) [])
      (export-terminated line lines)
    ∙ ap (λ ls. unfold_loop ls []) (split-terminated (flat_map physical (line ∷ lines)) all)
    ∙ unfold-all (line ∷ lines) [] h

-- The physical lines of an exported file, between its line breaks, have at most 75 code units each,
-- where the exported lines have no line breaks in them.
pub export_lines-IsShort :
    (line : Text) (lines : List Text)
    → All (All InLine) (line ∷ lines)
    → All IsShort (split_lines (without_cr (without_crlf (export_lines (line ∷ lines)))))
export_lines-IsShort line lines h =
    let all =
      All-flat_map (All InLine) physical (line ∷ lines)
        (All-imp (All InLine) (λ l. All (All InLine) (physical l)) (line ∷ lines) physical-All h) in
    let made =
      ap (λ t. split_lines (without_cr (without_crlf t))) (export-terminated line lines)
      ∙ split-terminated (flat_map physical (line ∷ lines)) all in
    subst (All IsShort) (sym made) (
      All-append IsShort (flat_map physical (line ∷ lines)) ([] ∷ [])
        (All-flat_map IsShort physical (line ∷ lines) (short (line ∷ lines))) (omega arith, tt))
  where
    short : (ls : List Text) → All (λ l. All IsShort (physical l)) ls
    short [] = tt
    short (l ∷ ls) = (physical-IsShort l, short ls)
