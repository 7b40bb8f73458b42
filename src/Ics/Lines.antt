-- ===== src/Ics/Lines.antt =====
-- src/ics.ts: lines that are folded, and unfolded again.
pub mod Unfolded
use scheduleos.Base.{
  ◌≡◌, refl, sym, ◌∙◌, ap, subst, ◌+◌, ◌≤◌, ℕ, zero, suc, Bool, true, false, ◌&&◌, ◌||◌, not, List,
  [], ◌∷◌, ◌++◌, map, flat_map, length, leb, ◌==◌, if◌then◌else◌, arith, All, All-append, All-imp,
  Bool-cases, inl, inr, leb→le,
}
use mathlib.Core.List.{append_assoc}
use scheduleos.Ics.{
  Text, newline, carriage_return, take, drop, pieces, chunks, join_lines, fold_line, export_lines,
  without_crlf, without_cr, before_first, split_lines, is_continuation, is_empty_list, add_to_last,
  unfold_loop, unfold_lines,
}

-- A code unit that breaks no line.
abbrev pub InLine : ℕ → Type 0
InLine c = ((c == newline) ≡ false) × ((c == carriage_return) ≡ false)

-- A line that can be exported: without line breaks, and not like a continuation.
abbrev pub IsLine : Text → Type 0
IsLine line = All InLine line × (is_continuation line ≡ false)

abbrev pub concat : List Text → Text
concat parts = flat_map (λ part. part) parts

append_nil_text : (text : Text) → text ++ [] ≡ text
append_nil_text [] = refl
append_nil_text (c ∷ text) = ap (λ t. c ∷ t) (append_nil_text text)

pub take-drop : (n : ℕ) (text : Text) → take n text ++ drop n text ≡ text
unfolding take drop
take-drop zero text = refl
take-drop (suc n) [] = refl
take-drop (suc n) (c ∷ text) = ap (λ t. c ∷ t) (take-drop n text)

drop-length : (n : ℕ) (text : Text) → length (drop n text) ≤ length text
unfolding drop
drop-length zero text = omega arith
drop-length (suc n) [] = omega arith
drop-length (suc n) (c ∷ text) = omega (arith, drop-length n text)

take-length : (n : ℕ) (text : Text) → length (take n text) ≤ n
unfolding take
take-length zero text = omega arith
take-length (suc n) [] = omega arith
take-length (suc n) (c ∷ text) = omega (arith, take-length n text)

drop_cons-length : (n c : ℕ) (text : Text) → length (drop (suc n) (c ∷ text)) ≤ length text
unfolding drop
drop_cons-length n c text = drop-length n text

pub pieces-concat : (fuel : ℕ) (text : Text) → length text ≤ fuel → concat (pieces fuel text) ≡ text
unfolding pieces
pieces-concat zero [] h = refl
pieces-concat zero (c ∷ text) h = absurd (omega (arith, h))
pieces-concat (suc fuel) [] h = refl
pieces-concat (suc fuel) (c ∷ text) h =
    let left = drop_cons-length 73 c text in
    ap (λ t. take 74 (c ∷ text) ++ t)
      (pieces-concat fuel (drop 74 (c ∷ text)) (omega (arith, left, h)))
    ∙ take-drop 74 (c ∷ text)

-- The lines that a line is written in.
abbrev pub physical : Text → List Text
physical line = if leb (length line) 75 then line ∷ [] else chunks line

pub terminated : List Text → Text
terminated lines = flat_map (λ line. line ++ carriage_return ∷ newline ∷ []) lines

join-terminated :
    (line : Text) (lines : List Text)
    → join_lines (line ∷ lines) ++ carriage_return ∷ newline ∷ [] ≡ terminated (line ∷ lines)
unfolding join_lines terminated
join-terminated line [] = sym (append_nil_text (line ++ carriage_return ∷ newline ∷ []))
join-terminated line (next ∷ lines) =
    append_assoc line (carriage_return ∷ newline ∷ join_lines (next ∷ lines))
      (carriage_return ∷ newline ∷ [])
    ∙ ap (λ t. line ++ carriage_return ∷ newline ∷ t) (join-terminated next lines)
    ∙ sym (append_assoc line (carriage_return ∷ newline ∷ []) (terminated (next ∷ lines)))

fold-terminated :
    (line : Text) → fold_line line ++ carriage_return ∷ newline ∷ [] ≡ terminated (physical line)
unfolding fold_line chunks terminated
fold-terminated line = elim (Bool-cases (leb (length line) 75)) [
  | inl e ↦ rw e (sym (append_nil_text (line ++ carriage_return ∷ newline ∷ [])))
  | inr e ↦ rw e (join-terminated (take 75 line) _)
]

terminated-append : (a b : List Text) → terminated (a ++ b) ≡ terminated a ++ terminated b
unfolding terminated
terminated-append [] b = refl
terminated-append (line ∷ a) b =
    ap (λ t. (line ++ carriage_return ∷ newline ∷ []) ++ t) (terminated-append a b)
    ∙ sym (append_assoc (line ++ carriage_return ∷ newline ∷ []) (terminated a) (terminated b))

folded-terminated :
    (lines : List Text) → terminated (map fold_line lines) ≡ terminated (flat_map physical lines)
unfolding terminated
folded-terminated [] = refl
folded-terminated (line ∷ lines) =
    ap (λ t. (fold_line line ++ carriage_return ∷ newline ∷ []) ++ t) (folded-terminated lines)
    ∙ ap (λ t. t ++ terminated (flat_map physical lines)) (fold-terminated line)
    ∙ sym (terminated-append (physical line) (flat_map physical lines))

-- A line without breaks stays as it is up to its end.
without_crlf-line :
    (line rest : Text)
    → All InLine line
    → without_crlf (line ++ carriage_return ∷ newline ∷ rest) ≡ line ++ newline ∷ without_crlf rest
unfolding without_crlf
without_crlf-line [] rest h = refl
without_crlf-line (c ∷ []) rest h = rw (h.0).1 (ap (λ t. c ∷ t) (without_crlf-line [] rest tt))
without_crlf-line (c ∷ d ∷ line) rest h =
    rw (h.0).1 (ap (λ t. c ∷ t) (without_crlf-line (d ∷ line) rest h.1))

without_cr-line :
    (line rest : Text)
    → All InLine line
    → without_cr (line ++ newline ∷ rest) ≡ line ++ newline ∷ without_cr rest
unfolding without_cr
without_cr-line [] rest h = refl
without_cr-line (c ∷ line) rest h = rw (h.0).1 (ap (λ t. c ∷ t) (without_cr-line line rest h.1))

split_lines-line :
    (line rest : Text)
    → All InLine line
    → split_lines (line ++ newline ∷ rest) ≡ line ∷ split_lines rest
unfolding split_lines
split_lines-line [] rest h = refl
split_lines-line (c ∷ line) rest h =
    rw (h.0).0 (ap (before_first c) (split_lines-line line rest h.1))

pub split-terminated :
    (lines : List Text)
    → All (All InLine) lines
    → split_lines (without_cr (without_crlf (terminated lines))) ≡ lines ++ [] ∷ []
unfolding terminated without_crlf without_cr split_lines
split-terminated [] h = refl
split-terminated (line ∷ lines) h =
    let rest = terminated lines in
    let a = append_assoc line (carriage_return ∷ newline ∷ []) rest ∙ refl in
    ap (λ t. split_lines (without_cr (without_crlf t))) a
    ∙ ap (λ t. split_lines (without_cr t)) (without_crlf-line line rest h.0)
    ∙ ap split_lines (without_cr-line line (without_crlf rest) h.0)
    ∙ split_lines-line line (without_cr (without_crlf rest)) h.0
    ∙ ap (λ ls. line ∷ ls) (split-terminated lines h.1)

pub export-terminated :
    (line : Text) (lines : List Text)
    → export_lines (line ∷ lines) ≡ terminated (flat_map physical (line ∷ lines))
unfolding export_lines
export-terminated line lines =
    join-terminated (fold_line line) (map fold_line lines) ∙ folded-terminated (line ∷ lines)

take-All : (n : ℕ) (text : Text) → All InLine text → All InLine (take n text)
unfolding take
take-All zero text h = tt
take-All (suc n) [] h = tt
take-All (suc n) (c ∷ text) h = (h.0, take-All n text h.1)

drop-All : (n : ℕ) (text : Text) → All InLine text → All InLine (drop n text)
unfolding drop
drop-All zero text h = h
drop-All (suc n) [] h = tt
drop-All (suc n) (c ∷ text) h = drop-All n text h.1

pieces-All :
    (fuel : ℕ) (text : Text)
    → All InLine text
    → All (All InLine) (map (λ piece. 32 ∷ piece) (pieces fuel text))
unfolding pieces
pieces-All zero text h = tt
pieces-All (suc fuel) [] h = tt
pieces-All (suc fuel) (c ∷ text) h = (
  ((refl, refl), take-All 74 (c ∷ text) h),
  pieces-All fuel (drop 74 (c ∷ text)) (drop-All 74 (c ∷ text) h),
)

pub physical-All : (line : Text) → All InLine line → All (All InLine) (physical line)
unfolding chunks
physical-All line h = elim (Bool-cases (leb (length line) 75)) [
  | inl e ↦ rw e (h, tt)
  | inr e ↦
      rw e
        (take-All 75 line h, pieces-All (length (drop 75 line)) (drop 75 line) (drop-All 75 line h))
]

-- A line of a file has at most 75 code units.
abbrev pub IsShort : Text → Type 0
IsShort line = length line ≤ 75

pieces-IsShort :
    (fuel : ℕ) (text : Text) → All IsShort (map (λ piece. 32 ∷ piece) (pieces fuel text))
unfolding pieces
pieces-IsShort zero text = tt
pieces-IsShort (suc fuel) [] = tt
pieces-IsShort (suc fuel) (c ∷ text) =
    (omega (arith, take-length 74 (c ∷ text)), pieces-IsShort fuel (drop 74 (c ∷ text)))

pub physical-IsShort : (line : Text) → All IsShort (physical line)
unfolding chunks
physical-IsShort line = elim (Bool-cases (leb (length line) 75)) [
  | inl e ↦ rw e (leb→le (length line) 75 e, tt)
  | inr e ↦ rw e (take-length 75 line, pieces-IsShort (length (drop 75 line)) (drop 75 line))
]
