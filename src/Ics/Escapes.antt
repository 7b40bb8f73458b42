-- ===== src/Ics/Escapes.antt =====
-- src/ics.ts: texts that are escaped, and unescaped again.
use scheduleos.Base.{
  ◌≡◌, refl, sym, ◌∙◌, ap, subst, ℕ, Bool, true, false, ◌&&◌, ◌||◌, not, [], ◌∷◌, ◌++◌, flat_map,
  ◌==◌, if◌then◌else◌, arith, All, ◌⊎◌, Bool-cases, inl, inr,
}
use scheduleos.Ics.{
  Text, newline, backslash, escape_unit, escape_text, unescape_unit, is_letter_n, unescape_text,
}

-- A code unit that is not a backslash.
abbrev pub IsPlain : ℕ → Type 0
IsPlain c = (c == backslash) ≡ false

-- A text in which the code units that pass a test stand behind a backslash, each written by a letter.
written : (ℕ → Bool) → (ℕ → ℕ) → Text → Text
written hidden letter text =
    flat_map (λ x. if hidden x then backslash ∷ letter x ∷ [] else x ∷ []) text

-- Unescaping one letter shows the code unit that the letter stands for, and leaves the others hidden.
unescape-written :
    (hidden shown : ℕ → Bool) (letter : ℕ → ℕ) (is_it : ℕ → Bool) (d : ℕ) (text : Text)
    → All IsPlain text
    → ((x : ℕ) → hidden x ≡ true → (is_it (letter x) ≡ shown x) × ((letter x == backslash) ≡ false))
    → ((x : ℕ) → shown x ≡ true → (hidden x ≡ true) × (x ≡ d))
    → unescape_unit is_it d (written hidden letter text)
      ≡ written (λ x. hidden x && not (shown x)) letter text
unfolding unescape_unit written
unescape-written hidden shown letter is_it d [] h f g = refl
unescape-written hidden shown letter is_it d (x ∷ text) h f g =
    let rest = unescape-written hidden shown letter is_it d text h.1 f g in
    let w = written hidden letter text in
    elim (Bool-cases (hidden x)) [
      | inr e ↦ rw e (plain x w h.0 ∙ ap (λ t. x ∷ t) rest)
      | inl e ↦ elim (Bool-cases (shown x)) [
        | inl k ↦
            let it : is_it (letter x) ≡ true = (f x e).0 ∙ k in
            rw (e, k, it)
              (ap (λ t. d ∷ t) rest
                ∙ ap (λ c. c ∷ written (λ x. hidden x && not (shown x)) letter text)
                    (sym (g x k).1))
        | inr k ↦
            let not_it : is_it (letter x) ≡ false = (f x e).0 ∙ k in
            rw (e, k, not_it)
              (ap (λ t. backslash ∷ t) (plain (letter x) w (f x e).1 ∙ ap (λ t. letter x ∷ t) rest))
      ]
    ]
  where
    plain :
        (c : ℕ) (t : Text)
        → (c == backslash) ≡ false
        → unescape_unit is_it d (c ∷ t) ≡ c ∷ unescape_unit is_it d t
    plain c [] k = refl
    plain c (e ∷ t) k = rw k refl

-- The code units that are hidden behind a backslash, and the letters that they are written by.
is_special : ℕ → Bool
is_special x = (x == newline) || ((x == 59) || (x == 44))

letter_of : ℕ → ℕ
letter_of x = if x == newline then 110 else x

eq-of : (x k : ℕ) → (x == k) ≡ true → x ≡ k
eq-of x k h = ground arith

escape_unit-plain : (text : Text) → All IsPlain text → escape_unit backslash backslash text ≡ text
unfolding escape_unit
escape_unit-plain [] h = refl
escape_unit-plain (x ∷ text) h = rw h.0 (ap (λ t. x ∷ t) (escape_unit-plain text h.1))

-- What one code unit becomes, before what the others become.
escape-one :
    (x : ℕ) (text : Text)
    → escape_unit 44 44 (escape_unit 59 59 (escape_unit newline 110 (x ∷ text)))
      ≡ (if is_special x then backslash ∷ letter_of x ∷ [] else x ∷ [])
        ++ escape_unit 44 44 (escape_unit 59 59 (escape_unit newline 110 text))
unfolding escape_unit is_special letter_of
escape-one x text = elim (Bool-cases (x == newline)) [
  | inl e ↦ rw e refl
  | inr e ↦ elim (Bool-cases (x == 59)) [
    | inl k ↦
        let same = eq-of x 59 k in
        subst
          (λ y.
            escape_unit 44 44 (escape_unit 59 59 (escape_unit newline 110 (y ∷ text)))
            ≡ (if is_special y then backslash ∷ letter_of y ∷ [] else y ∷ [])
              ++ escape_unit 44 44 (escape_unit 59 59 (escape_unit newline 110 text)))
          (sym same) refl
    | inr k ↦ elim (Bool-cases (x == 44)) [
      | inl m ↦
          rw (e, k, m)
            (ap
              (λ y.
                backslash
                ∷ y
                ∷ escape_unit 44 44 (escape_unit 59 59 (escape_unit newline 110 text)))
              (sym (eq-of x 44 m)))
      | inr m ↦ rw (e, k, m) refl
    ]
  ]
]

escape-written :
    (text : Text)
    → escape_unit 44 44 (escape_unit 59 59 (escape_unit newline 110 text))
      ≡ written is_special letter_of text
unfolding escape_unit written
escape-written [] = refl
escape-written (x ∷ text) =
    escape-one x text
    ∙ ap (λ t. (if is_special x then backslash ∷ letter_of x ∷ [] else x ∷ []) ++ t)
        (escape-written text)

-- A text without backslashes has nothing to unescape.
unescape-plain :
    (is_it : ℕ → Bool) (d : ℕ) (text : Text) → All IsPlain text → unescape_unit is_it d text ≡ text
unfolding unescape_unit
unescape-plain is_it d [] h = refl
unescape-plain is_it d (x ∷ []) h = refl
unescape-plain is_it d (x ∷ y ∷ text) h =
    rw h.0 (ap (λ t. x ∷ t) (unescape-plain is_it d (y ∷ text) h.1))

nothing-written :
    (hidden : ℕ → Bool) (letter : ℕ → ℕ) (text : Text)
    → ((x : ℕ) → hidden x ≡ false)
    → written hidden letter text ≡ text
unfolding written
nothing-written hidden letter [] f = refl
nothing-written hidden letter (x ∷ text) f =
    rw (f x) (ap (λ t. x ∷ t) (nothing-written hidden letter text f))

special-cases : (x : ℕ) → is_special x ≡ true → (x ≡ newline) ⊎ ((x ≡ 59) ⊎ (x ≡ 44))
unfolding is_special
special-cases x h = elim (Bool-cases (x == newline)) [
  | inl e ↦ inl (eq-of x newline e)
  | inr e ↦ elim (Bool-cases (x == 59)) [
    | inl k ↦ inr (inl (eq-of x 59 k))
    | inr k ↦ inr (inr (eq-of x 44 (rw (e, k) at h)))
  ]
]

-- What holds of the three special code units holds of every special one.
each-special : (P : ℕ → Type 0) → P newline → P 59 → P 44 → (x : ℕ) → is_special x ≡ true → P x
each-special P a b c x h = elim (special-cases x h) [
  | inl e ↦ subst P (sym e) a
  | inr (inl e) ↦ subst P (sym e) b
  | inr (inr e) ↦ subst P (sym e) c
]

-- What is still hidden once newlines are shown, once commas are, and once semicolons are.
abbrev after_newline : ℕ → Bool
after_newline x = is_special x && not (x == newline)

abbrev after_comma : ℕ → Bool
after_comma x = after_newline x && not (x == 44)

abbrev after_semicolon : ℕ → Bool
after_semicolon x = after_comma x && not (x == 59)

and-left : (a b : Bool) → (a && b) ≡ true → a ≡ true
and-left true b h = refl
and-left false b h = cc

is-special : (x k : ℕ) → is_special k ≡ true → (x == k) ≡ true → is_special x ≡ true
is-special x k h e = subst (λ y. is_special y ≡ true) (sym (eq-of x k e)) h

-- Unescaping shows a code unit where the ones that are hidden are special.
Shows : (ℕ → Bool) → (ℕ → Bool) → ℕ → ℕ → Type 0
Shows hidden is_it k x =
    hidden x ≡ true → (is_it (letter_of x) ≡ (x == k)) × ((letter_of x == backslash) ≡ false)

show :
    (hidden is_it : ℕ → Bool) (k : ℕ) (text : Text)
    → All IsPlain text
    → ((x : ℕ) → hidden x ≡ true → is_special x ≡ true)
    → Shows hidden is_it k newline
    → Shows hidden is_it k 59
    → Shows hidden is_it k 44
    → hidden k ≡ true
    → unescape_unit is_it k (written hidden letter_of text)
      ≡ written (λ x. hidden x && not (x == k)) letter_of text
unfolding Shows
show hidden is_it k text plain special a b c is_hidden =
    unescape-written hidden (λ x. x == k) letter_of is_it k text plain
      (λ x h. each-special (Shows hidden is_it k) a b c x (special x h) h)
      (λ x e. (subst (λ y. hidden y ≡ true) (sym (eq-of x k e)) is_hidden, eq-of x k e))

-- A text without backslashes that is escaped and unescaped again is the text.
pub unescape_text-escape_text :
    (text : Text) → All IsPlain text → unescape_text (escape_text text) ≡ text
unfolding unescape_text escape_text is_special letter_of Shows
unescape_text-escape_text text h =
    let escaped =
      ap (λ t. escape_unit 44 44 (escape_unit 59 59 (escape_unit newline 110 t)))
        (escape_unit-plain text h)
      ∙ escape-written text in
    let newlines =
      show is_special is_letter_n newline text h (λ x k. k) (λ k. (refl, refl)) (λ k. (refl, refl))
        (λ k. (refl, refl)) refl in
    let commas =
      show after_newline (λ e. e == 44) 44 text h (λ x k. and-left (is_special x) _ k) (λ k. cc)
        (λ k. (refl, refl)) (λ k. (refl, refl)) refl in
    let semicolons =
      show after_comma (λ e. e == 59) 59 text h
        (λ x k. and-left (is_special x) _ (and-left (after_newline x) _ k)) (λ k. cc)
        (λ k. (refl, refl)) (λ k. cc) refl in
    let u = λ (t : Text). unescape_unit (λ e. e == backslash) backslash t in
    let v = λ (t : Text). u (unescape_unit (λ e. e == 59) 59 t) in
    let w = λ (t : Text). v (unescape_unit (λ e. e == 44) 44 t) in
    ap (λ t. w (unescape_unit is_letter_n newline t)) escaped
    ∙ ap w newlines
    ∙ ap v commas
    ∙ ap u semicolons
    ∙ ap u (nothing-written after_semicolon letter_of text nothing_left)
    ∙ unescape-plain (λ e. e == backslash) backslash text h
  where
    nothing_left : (x : ℕ) → after_semicolon x ≡ false
    nothing_left x = elim (Bool-cases (after_semicolon x)) [
      | inr e ↦ e
      | inl e ↦
          each-special (λ y. after_semicolon y ≡ true → after_semicolon y ≡ false) (λ k. refl)
            (λ k. refl) (λ k. refl) x
            (and-left (is_special x) _
              (and-left (after_newline x) _ (and-left (after_comma x) _ e)))
            e
    ]
