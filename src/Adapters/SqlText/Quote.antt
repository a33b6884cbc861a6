-- ===== src/Adapters/SqlText/Quote.antt =====
-- Quoting, src/invariantql/adapters/_shared/sqltext.py, against the rule by which SQL reads a quoted
-- text: a doubled quote stands for one, and a single one ends the text.
use Prim.Native.Char.{Char, code}
use Prim.Native.String
use text.Mathlib.TextEquality.{Char-path}
use text.Mathlib.TextLemmas.{nil-append, cons-append, append_assoc}
use invariantql.Prelude.{
  Bool, Bool-cases, Option, String, ap, eqb, eqb_iff, false, if◌then◌else◌, inl, inr, none, refl,
  some, sym, true, ◌∙◌, ◌≡◌,
}
use invariantql.Adapters.SqlText.{double, quoted}

abbrev pub same_char : Char → Char → Bool
same_char c d = eqb (code c) (code d)

abbrev pub prepend : Char → Option (String × String) → Option (String × String)
prepend c none = none
prepend c (some (s, rest)) = some (String.◌∷◌ c s, rest)

-- The text after an opening quote and what follows it. The flag tells that a quote was just read.
abbrev pub read_text : Char → Bool → String → Option (String × String)
read_text q false String.[] = none
read_text q true String.[] = some ("", "")
read_text q false (String.◌∷◌ c s) =
    let closing = read_text q true s in
    let inner = read_text q false s in if same_char c q then closing else prepend c inner
read_text q true (String.◌∷◌ c s) =
    let inner = read_text q false s in
    if same_char c q then prepend q inner else some ("", String.◌∷◌ c s)

abbrev pub read_quoted : Char → String → Option (String × String)
read_quoted q String.[] = none
read_quoted q (String.◌∷◌ c s) = if same_char c q then read_text q false s else none

abbrev pub starts_with : Char → String → Bool
starts_with q String.[] = false
starts_with q (String.◌∷◌ c s) = same_char c q

same_char_refl : (q : Char) → same_char q q ≡ true
same_char_refl q = (eqb_iff (code q) (code q)).1 refl

read_text-end :
    (q : Char) (rest : String)
    → starts_with q rest ≡ false
    → read_text q true rest ≡ some ("", rest)
read_text-end q String.[] h = refl
read_text-end q (String.◌∷◌ c s) h = rw h refl

read_text-quote : (q : Char) (s : String) → read_text q false (String.◌∷◌ q s) ≡ read_text q true s
read_text-quote q s = rw (same_char_refl q) refl

read_text-twice :
    (q : Char) (s : String) → read_text q true (String.◌∷◌ q s) ≡ prepend q (read_text q false s)
read_text-twice q s = rw (same_char_refl q) refl

read_text-other :
    (q c : Char) (s : String)
    → same_char c q ≡ false
    → read_text q false (String.◌∷◌ c s) ≡ prepend c (read_text q false s)
read_text-other q c s h = rw h refl

double-empty : (q : Char) → double q String.[] ≡ String.[]
unfolding double
double-empty q = refl

double-same :
    (q c : Char) (s : String)
    → same_char c q ≡ true
    → double q (String.◌∷◌ c s) ≡ String.◌∷◌ q (String.◌∷◌ q (double q s))
unfolding double
double-same q c s h = rw h refl

double-other :
    (q c : Char) (s : String)
    → same_char c q ≡ false
    → double q (String.◌∷◌ c s) ≡ String.◌∷◌ c (double q s)
unfolding double
double-other q c s h = rw h refl

read_text-double :
    (q : Char) (s rest : String)
    → starts_with q rest ≡ false
    → read_text q false (String.◌++◌ (double q s) (String.◌∷◌ q rest)) ≡ some (s, rest)
read_text-double q String.[] rest h =
    ap (read_text q false) (
      ap (λ d. String.◌++◌ d (String.◌∷◌ q rest)) (double-empty q) ∙ nil-append (String.◌∷◌ q rest))
    ∙ read_text-quote q rest
    ∙ read_text-end q rest h
read_text-double q (String.◌∷◌ c s) rest h =
    let all_rest : String = String.◌∷◌ q rest in
    elim (Bool-cases (same_char c q)) [
      | inl same ↦
          ap (λ d. read_text q false (String.◌++◌ d all_rest)) (double-same q c s same)
          ∙ ap (read_text q false) (
              cons-append q (String.◌∷◌ q (double q s)) all_rest
              ∙ ap (λ d. String.◌∷◌ q d) (cons-append q (double q s) all_rest))
          ∙ read_text-quote q (String.◌∷◌ q (String.◌++◌ (double q s) all_rest))
          ∙ read_text-twice q (String.◌++◌ (double q s) all_rest)
          ∙ ap (prepend q) (read_text-double q s rest h)
          ∙ ap (λ d. some (String.◌∷◌ d s, rest))
              (sym (Char-path c q ((eqb_iff (code c) (code q)).0 same)))
      | inr other ↦
          ap (λ d. read_text q false (String.◌++◌ d all_rest)) (double-other q c s other)
          ∙ ap (read_text q false) (cons-append c (double q s) all_rest)
          ∙ read_text-other q c (String.◌++◌ (double q s) all_rest) other
          ∙ ap (prepend c) (read_text-double q s rest h)
    ]

read_quoted-quote : (q : Char) (s : String) → read_quoted q (String.◌∷◌ q s) ≡ read_text q false s
read_quoted-quote q s = rw (same_char_refl q) refl

-- Read by the rule of SQL, the quoted text is the text, whatever it contains, and what follows it is
-- left as it was, unless it starts with the quote.
pub quoted-read :
    (q : Char) (s rest : String)
    → starts_with q rest ≡ false
    → read_quoted q (String.◌++◌ (quoted q s) rest) ≡ some (s, rest)
unfolding quoted
quoted-read q s rest h =
    ap (read_quoted q) (
      cons-append q (String.◌++◌ (double q s) (String.◌∷◌ q String.[])) rest
      ∙ ap (λ d. String.◌∷◌ q d)
          (append_assoc (double q s) (String.◌∷◌ q String.[]) rest
            ∙ ap (λ d. String.◌++◌ (double q s) d)
                (cons-append q String.[] rest ∙ ap (λ d. String.◌∷◌ q d) (nil-append rest))))
    ∙ read_quoted-quote q (String.◌++◌ (double q s) (String.◌∷◌ q rest))
    ∙ read_text-double q s rest h
