-- ===== src/Shell/Parse/Words.antt =====
-- src-main/btcmd.c: the words of a command line are read back.
use mathlib.Core.List.{append_assoc}
use btlib.Prelude.{
  ℕ, zero, suc, ◌<◌, ◌≡◌, refl, ap, Bool, true, false, some, [], ◌∷◌, ◌++◌, length, length-append,
  take, leb, arith,
}
use btlib.Prelude.Keys.{Key}
use btlib.Shell.Parse.{
  strtok, skip_any, word_of, arguments, tokenise, space_or_end, line_end, maxbufsz, strncpy,
}

-- no character of the text separates
abbrev pub Unbroken : (ℕ → Bool) → Key → Type 0
Unbroken sep [] = Unit
Unbroken sep (c ∷ s) = (sep c ≡ false) × Unbroken sep s

-- a word without spaces and line ends
abbrev pub IsWord : Key → Type 0
IsWord [] = ⊥
IsWord (c ∷ s) = Unbroken space_or_end (c ∷ s)

module _ (sep : ℕ → Bool) where
  word-upto :
      (w : Key) (c : ℕ) (rest : Key)
      → Unbroken sep w
      → sep c ≡ true
      → word_of sep (w ++ (c ∷ rest)) ≡ (w, rest)
  unfolding word_of
  word-upto [] c rest u h = rw h refl
  word-upto (x ∷ w) c rest u h = rw (u.0, word-upto w c rest u.1 h) refl

  word-end : (w : Key) → Unbroken sep w → word_of sep w ≡ (w, [])
  unfolding word_of
  word-end [] u = refl
  word-end (x ∷ w) u = rw (u.0, word-end w u.1) refl

  skip-none : (x : ℕ) (s : Key) → sep x ≡ false → skip_any sep (x ∷ s) ≡ x ∷ s
  unfolding skip_any
  skip-none x s h = rw h refl

  strtok-upto :
      (x : ℕ) (w : Key) (c : ℕ) (rest : Key)
      → Unbroken sep (x ∷ w)
      → sep c ≡ true
      → strtok sep (x ∷ (w ++ (c ∷ rest))) ≡ some (x ∷ w, rest)
  unfolding strtok
  strtok-upto x w c rest u h =
      rw (skip-none x (w ++ (c ∷ rest)) u.0, strtok) (ap some (word-upto (x ∷ w) c rest u h))

  strtok-end : (x : ℕ) (w : Key) → Unbroken sep (x ∷ w) → strtok sep (x ∷ w) ≡ some (x ∷ w, [])
  unfolding strtok
  strtok-end x w u = rw (skip-none x w u.0, strtok) (ap some (word-end (x ∷ w) u))

  Unbroken-append : (a b : Key) → Unbroken sep a → Unbroken sep b → Unbroken sep (a ++ b)
  Unbroken-append [] b u v = v
  Unbroken-append (x ∷ a) b u v = (u.0, Unbroken-append a b u.1 v)

-- a text without spaces and line ends has no line ends
no_end : (w : Key) → Unbroken space_or_end w → Unbroken line_end w
no_end [] u = tt
no_end (c ∷ w) u = (ground (arith, u.0), no_end w u.1)

word_text : (w : Key) → IsWord w → Unbroken space_or_end w
word_text [] h = absurd h
word_text (c ∷ w) h = h

take-all : (n : ℕ) (s : Key) → length s < n → take n s ≡ s
take-all zero s lt = absurd (omega arith)
take-all (suc n) [] lt = refl
take-all (suc n) (c ∷ s) lt = ap (λ t. c ∷ t) (take-all n s (omega (arith, lt)))

strncpy-all : (s : Key) → length s < maxbufsz → strncpy s ≡ s
unfolding strncpy
strncpy-all s lt = take-all maxbufsz s lt

arguments-words :
    (cmd arg qual : Key)
    → IsWord arg
    → IsWord qual
    → length (arg ++ (b' ' ∷ qual)) < maxbufsz
    → arguments cmd (arg ++ (b' ' ∷ qual))
      ≡ record { cmd = cmd; arg = arg; qual = qual; all = arg ++ (b' ' ∷ qual); nargs = 2 }
unfolding arguments
arguments-words cmd [] qual a q lt = absurd a
arguments-words cmd (x ∷ arg) [] a q lt = absurd q
arguments-words cmd (x ∷ arg) (y ∷ qual) a q lt =
    let size = length-append arg (b' ' ∷ (y ∷ qual)) in
    let whole : strncpy (x ∷ (arg ++ (b' ' ∷ (y ∷ qual)))) ≡ x ∷ (arg ++ (b' ' ∷ (y ∷ qual))) =
      strncpy-all _ lt in
    let left : strncpy (x ∷ arg) ≡ x ∷ arg = strncpy-all _ (omega (arith, size, lt)) in
    let right : strncpy (y ∷ qual) ≡ y ∷ qual = strncpy-all _ (omega (arith, size, lt)) in
    rw
      (
        arguments,
        whole,
        strtok-upto space_or_end x arg b' ' (y ∷ qual) a refl,
        strtok-end space_or_end y qual q,
        left,
        right,
      )
      refl

-- the line of three words
abbrev pub line_of : (cmd arg qual : Key) → Key
line_of cmd arg qual = cmd ++ (b' ' ∷ (arg ++ (b' ' ∷ (qual ++ (10 ∷ [])))))

-- Of three words without spaces and line ends, with a space between them and a line end behind
-- them, in a line of less than MAXBUFSZ characters, `tokenise` makes the command, its argument and the
-- qualifier, counts two arguments, and keeps the text of both.
pub tokenise-words :
    (cmd arg qual : Key)
    → IsWord cmd
    → IsWord arg
    → IsWord qual
    → length (line_of cmd arg qual) < maxbufsz
    → tokenise (line_of cmd arg qual)
      ≡ some (record { cmd = cmd; arg = arg; qual = qual; all = arg ++ (b' ' ∷ qual); nargs = 2 })
unfolding tokenise
tokenise-words [] arg qual w a q lt = absurd w
tokenise-words (z ∷ cmd) [] qual w a q lt = absurd a
tokenise-words (z ∷ cmd) (x ∷ arg) qual w a q lt =
    let text : Key = arg ++ (b' ' ∷ qual) in
    let tail : Key = x ∷ (arg ++ (b' ' ∷ (qual ++ (10 ∷ [])))) in
    let size = length-append cmd (b' ' ∷ tail) in
    let size' = length-append text (10 ∷ []) in
    let join = append_assoc arg (b' ' ∷ qual) (10 ∷ []) in
    let whole = strncpy-all (z ∷ (cmd ++ (b' ' ∷ tail))) lt in
    let left : strncpy (z ∷ cmd) ≡ z ∷ cmd = strncpy-all _ (omega (arith, size, lt)) in
    let right : strncpy (x ∷ text) ≡ x ∷ text =
      strncpy-all _ (omega (arith, size, size', ap length join, lt)) in
    let short : leb maxbufsz (length (z ∷ (cmd ++ (b' ' ∷ tail)))) ≡ false = ground (arith, lt) in
    rw
      (
        tokenise,
        short,
        whole,
        strtok-upto space_or_end z cmd b' ' tail w refl,
        ← join,
        strtok-upto line_end x text 10 []
            (
              (no_end (x ∷ arg) a).0,
              Unbroken-append line_end arg (b' ' ∷ qual) (no_end (x ∷ arg) a).1
                  (refl, no_end qual (word_text qual q)),
            )
            refl,
        left,
        right,
      )
      (ap some (
        arguments-words (z ∷ cmd) (x ∷ arg) qual a q
          (omega (arith, size, size', ap length join, lt))))
