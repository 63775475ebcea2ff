-- ===== src/Binexec/Quoting.antt =====
-- A shell reads a quoted text back as exactly that text.
use Prim.Native.Char.{Char, code}
use text.Mathlib.TextEquality.{Char-path}
use text.Mathlib.TextLemmas.{nil-append, cons-append, append_assoc, append-nil}
use network_plugin_manager.Prelude.{
  ◌≡◌, refl, sym, ap, ◌∙◌, ◌||◌, inl, inr, String, Bool, true, Option, none, some, ◌<>◌, eqb,
  if◌then◌else◌, arith, Bool-cases,
}
use network_plugin_manager.Binexec.{replace_quotes, shell_quote}

-- Where a POSIX shell is in a word.
pub data Context : Type 0 where
  bare single double : Context

abbrev is_single : Char → Bool
is_single c = eqb (code c) b'\''

abbrev is_double : Char → Bool
is_double c = eqb (code c) b'"'

abbrev and_char : Char → Option String → Option String
and_char c none = none
and_char c (some s) = some (String.◌∷◌ c s)

-- The value of a word made of quoted parts only. A character outside quotation marks, an open quotation
-- mark, and within double quotes the characters that the shell expands, give no value.
unfoldable pub read_word : Context → String → Option String
read_word bare String.[] = some ""
read_word single String.[] = none
read_word double String.[] = none
read_word bare (String.◌∷◌ c s) =
    let in_single = read_word single s in
    let in_double = read_word double s in
    if is_single c then in_single else if is_double c then in_double else none
read_word single (String.◌∷◌ c s) =
    let ends = read_word bare s in
    let goes = read_word single s in if is_single c then ends else and_char c goes
read_word double (String.◌∷◌ c s) =
    let ends = read_word bare s in
    let goes = read_word double s in
    if is_double c
    then ends
    else if eqb (code c) b'$' || eqb (code c) b'\\' || eqb (code c) b'`'
    then none
    else and_char c goes

abbrev mark : Char
mark = "'"

abbrev double_mark : Char
double_mark = "\""

cons-append-eq :
    (c : Char) (s t : String) {u : String} → s <> t ≡ u → String.◌∷◌ c s <> t ≡ String.◌∷◌ c u
cons-append-eq c s t h = cons-append c s t ∙ ap (String.◌∷◌ c) h

-- The five characters that stand for a quotation mark, one by one
five_marks :
    (t : String)
    → "'\"'\"'" <> t
      ≡ String.◌∷◌ mark
          (String.◌∷◌ double_mark (String.◌∷◌ mark (String.◌∷◌ double_mark (String.◌∷◌ mark t))))
five_marks t = cons-append-eq mark "\"'\"'" t (
    cons-append-eq double_mark "'\"'" t (
      cons-append-eq mark "\"'" t
        (cons-append-eq double_mark "'" t (cons-append-eq mark "" t (nil-append t)))))

-- They read as one quotation mark, and the quoted part goes on.
read_word-five_marks :
    (c : Char) (t : String)
    → is_single c ≡ true
    → read_word single ("'\"'\"'" <> t) ≡ and_char c (read_word single t)
unfolding read_word
read_word-five_marks c t h =
    ap (read_word single) (five_marks t)
    ∙ ap (λ d. and_char d (read_word single t)) (ground (arith, Char-path mark c))

read_word-replace :
    (s t : String) {r : String}
    → read_word single t ≡ some r
    → read_word single (replace_quotes s <> t) ≡ some (s <> r)
unfolding read_word replace_quotes
read_word-replace String.[] t {r} h =
    ap (read_word single) (nil-append t) ∙ h ∙ ap some (sym (nil-append r))
read_word-replace (String.◌∷◌ c s) t {r} h = elim (Bool-cases (is_single c)) [
  | inl q ↦
      ap (λ u. read_word single (u <> t)) (ground (arith, q))
      ∙ ap (read_word single) (append_assoc "'\"'\"'" (replace_quotes s) t)
      ∙ read_word-five_marks c (replace_quotes s <> t) q
      ∙ ap (and_char c) (read_word-replace s t h)
      ∙ ap some (sym (cons-append c s r))
  | inr n ↦
      ap (λ u. read_word single (u <> t)) (ground (arith, n))
      ∙ ap (read_word single) (cons-append c (replace_quotes s) t)
      ∙ ground (arith, n, read_word-replace s t h, cons-append c s r)
]

-- The shell reads what `shellQuote` writes as the very text that was quoted, whatever characters it has.
pub read_word-shell_quote : (value : String) → read_word bare (shell_quote value) ≡ some value
unfolding shell_quote read_word
read_word-shell_quote value =
    ap (read_word bare) (
      cons-append-eq mark "" (replace_quotes value <> "'")
        (nil-append (replace_quotes value <> "'")))
    ∙ read_word-replace value "'" {r = ""} refl
    ∙ ap some (append-nil value)
