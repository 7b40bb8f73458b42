-- ===== src/Ics.antt =====
-- src/ics.ts: the lines and the texts of an iCalendar file, and the values that name a status. A text
-- is the list of its UTF-16 code units.
pub mod Lines
pub mod Escapes
mod Samples
use scheduleos.Base.{
  ◌+◌, ◌-◌, ℕ, zero, suc, Bool, true, false, ◌&&◌, ◌||◌, not, List, [], ◌∷◌, ◌++◌, map, flat_map,
  length, leb, ◌==◌, if◌then◌else◌,
}

abbrev pub Text : Type 0
Text = List ℕ

abbrev pub newline : ℕ
newline = 10

abbrev pub carriage_return : ℕ
carriage_return = 13

abbrev pub backslash : ℕ
backslash = 92

-- The first code units of a text, and the others.
unfoldable pub take : ℕ → Text → Text
take zero text = []
take (suc n) [] = []
take (suc n) (c ∷ text) = c ∷ take n text

unfoldable pub drop : ℕ → Text → Text
drop zero text = text
drop (suc n) [] = []
drop (suc n) (c ∷ text) = drop n text

-- The loop of `foldLine`, on fuel: the pieces of what remains.
unfoldable pub pieces : ℕ → Text → List Text
pieces zero remaining = []
pieces (suc fuel) [] = []
pieces (suc fuel) (c ∷ remaining) =
    let rest = pieces fuel (drop 74 (c ∷ remaining)) in take 74 (c ∷ remaining) ∷ rest

-- The chunks of a line that is folded. The rounds are no more than the code units that remain.
unfoldable pub chunks : Text → List Text
chunks line =
    let remaining = drop 75 line in
    take 75 line ∷ map (λ piece. 32 ∷ piece) (pieces (length remaining) remaining)

-- `lines.join("\r\n")`
unfoldable pub join_lines : List Text → Text
join_lines [] = []
join_lines (line ∷ []) = line
join_lines (line ∷ next ∷ lines) =
    let rest = join_lines (next ∷ lines) in line ++ carriage_return ∷ newline ∷ rest

unfoldable pub fold_line : Text → Text
fold_line line = if leb (length line) 75 then line else join_lines (chunks line)

-- The text of an exported file, from its lines.
unfoldable pub export_lines : List Text → Text
export_lines lines = join_lines (map fold_line lines) ++ carriage_return ∷ newline ∷ []

-- `text.replace(/\r\n/g, "\n")`
unfoldable pub without_crlf : Text → Text
without_crlf [] = []
without_crlf (c ∷ []) = c ∷ []
without_crlf (c ∷ d ∷ text) =
    let if_crlf = newline ∷ without_crlf text in
    let if_other = c ∷ without_crlf (d ∷ text) in
    if (c == carriage_return) && (d == newline) then if_crlf else if_other

-- `text.replace(/\r/g, "\n")`
unfoldable pub without_cr : Text → Text
without_cr text = map (λ c. if c == carriage_return then newline else c) text

abbrev pub before_first : ℕ → List Text → List Text
before_first c [] = (c ∷ []) ∷ []
before_first c (line ∷ lines) = (c ∷ line) ∷ lines

-- `text.split("\n")`
unfoldable pub split_lines : Text → List Text
split_lines [] = [] ∷ []
split_lines (c ∷ text) =
    let rest = split_lines text in if c == newline then [] ∷ rest else before_first c rest

-- `/^[ \t]/.test(line)`
abbrev pub is_continuation : Text → Bool
is_continuation [] = false
is_continuation (c ∷ line) = (c == 32) || (c == 9)

abbrev pub is_empty_list {ℓ} : {A : Type ℓ} → List A → Bool
is_empty_list [] = true
is_empty_list (x ∷ xs) = false

-- `lines[lines.length - 1] += text`
unfoldable pub add_to_last : Text → List Text → List Text
add_to_last text [] = []
add_to_last text (line ∷ []) = (line ++ text) ∷ []
add_to_last text (line ∷ next ∷ lines) = line ∷ add_to_last text (next ∷ lines)

-- The loop of `unfoldLines`, with the lines so far.
unfoldable pub unfold_loop : List Text → List Text → List Text
unfold_loop [] lines = lines
unfold_loop (raw ∷ rest) lines =
    let if_added = unfold_loop rest (add_to_last (drop 1 raw) lines) in
    let if_pushed = unfold_loop rest (lines ++ raw ∷ []) in
    if is_continuation raw && not (is_empty_list lines) then if_added else if_pushed

unfoldable pub unfold_lines : Text → List Text
unfold_lines text = unfold_loop (split_lines (without_cr (without_crlf text))) []

-- `text.replace(/c/g, "\\d")` for one code unit c.
unfoldable pub escape_unit : ℕ → ℕ → Text → Text
escape_unit c d text = flat_map (λ x. if x == c then backslash ∷ d ∷ [] else x ∷ []) text

unfoldable pub escape_text : Text → Text
escape_text value =
    escape_unit 44 44
      (escape_unit 59 59 (escape_unit newline 110 (escape_unit backslash backslash value)))

-- `text.replace(/\\c/g, d)`, where the test says which code units c stands for.
unfoldable pub unescape_unit : (ℕ → Bool) → ℕ → Text → Text
unescape_unit is_it d [] = []
unescape_unit is_it d (c ∷ []) = c ∷ []
unescape_unit is_it d (c ∷ e ∷ text) =
    let if_escape = d ∷ unescape_unit is_it d text in
    let if_other = c ∷ unescape_unit is_it d (e ∷ text) in
    if (c == backslash) && is_it e then if_escape else if_other

abbrev pub is_letter_n : ℕ → Bool
is_letter_n e = (e == 110) || (e == 78)

unfoldable pub unescape_text : Text → Text
unescape_text value =
    unescape_unit (λ e. e == backslash) backslash
      (unescape_unit (λ e. e == 59) 59
        (unescape_unit (λ e. e == 44) 44 (unescape_unit is_letter_n newline value)))
