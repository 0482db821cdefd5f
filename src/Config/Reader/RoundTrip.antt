-- ===== src/Config/Reader/RoundTrip.antt =====
-- What the configuration printed reads back as.
use Prim.Native.String
use mathlib.Core.List
use mathlib.Core.List.{◌++◌}
use text.Mathlib.TextLemmas.{nil-append, cons-append}
use text.Mathlib.TextLemmas as Text
use fluentbit_operator.Prelude.{
  ◌≡◌, refl, ap, ◌∙◌, String, true, List, [], ◌∷◌, map, codes, codes-append, arith, All,
}
use fluentbit_operator.Params.{line}
use fluentbit_operator.Params.Sane.{all_plain, IsWord}
use fluentbit_operator.Params.Render.{Entry, print_entries}
use fluentbit_operator.Config.Sections.{Section, headline, print_section, print}
use fluentbit_operator.Config.Reader.{
  Codes, ReadSection, put_first, lines, skip_spaces, take_until, drop_until, read_entry, read_line,
  read_lines, read_as, one_line, is_header, IsReadable,
}

pub lines-append :
    (s : String) (cs : Codes)
    → one_line s ≡ true
    → lines (codes s ++ b'\n' ∷ cs) ≡ codes s ∷ lines cs
unfolding lines put_first
lines-append String.[] cs h = refl
lines-append (String.◌∷◌ c s) cs h = ground (arith, lines-append s cs)

pub one_line-append :
    (s t : String) → one_line s ≡ true → one_line t ≡ true → one_line (String.◌++◌ s t) ≡ true
one_line-append String.[] t h k = rw nil-append k
one_line-append (String.◌∷◌ c s) t h k = rw cons-append (ground (arith, one_line-append s t))

one_line_of_plain : (s : String) → all_plain s ≡ true → one_line s ≡ true
one_line_of_plain String.[] h = refl
one_line_of_plain (String.◌∷◌ c s) h = ground (arith, one_line_of_plain s)

one_line_of_word : (s : String) → IsWord s → one_line s ≡ true
one_line_of_word String.[] h = refl
one_line_of_word (String.◌∷◌ c s) h = one_line_of_plain (String.◌∷◌ c s) h

one_line_of_header : (s : String) → is_header s ≡ true → one_line s ≡ true
one_line_of_header String.[] h = refl
one_line_of_header (String.◌∷◌ c s) h = ground (arith, one_line_of_header s)

-- The key and the value of an entry, on its line.
skip-word : (k : String) (cs : Codes) → IsWord k → skip_spaces (codes k ++ cs) ≡ codes k ++ cs
unfolding skip_spaces
skip-word String.[] cs h = cc
skip-word (String.◌∷◌ c k) cs h = ground arith

take-plain :
    (k : String) (cs : Codes)
    → all_plain k ≡ true
    → take_until b' ' (codes k ++ b' ' ∷ cs) ≡ codes k
unfolding take_until
take-plain String.[] cs h = refl
take-plain (String.◌∷◌ c k) cs h = ground (arith, take-plain k cs)

drop-plain :
    (k : String) (cs : Codes)
    → all_plain k ≡ true
    → drop_until b' ' (codes k ++ b' ' ∷ cs) ≡ b' ' ∷ cs
unfolding drop_until
drop-plain String.[] cs h = refl
drop-plain (String.◌∷◌ c k) cs h = ground (arith, drop-plain k cs)

word_plain : (k : String) → IsWord k → all_plain k ≡ true
word_plain String.[] h = refl
word_plain (String.◌∷◌ c k) h = h

take-header :
    (k : String) (cs : Codes)
    → is_header k ≡ true
    → take_until b']' (codes k ++ b']' ∷ cs) ≡ codes k
unfolding take_until
take-header String.[] cs h = refl
take-header (String.◌∷◌ c k) cs h = ground (arith, take-header k cs)

-- An entry's line, without its end.
abbrev body : String → String → String
body k v = String.◌++◌ "    " (String.◌++◌ k (String.◌++◌ "    " v))

abbrev spaces : Codes → Codes
spaces cs = b' ' ∷ b' ' ∷ b' ' ∷ b' ' ∷ cs

codes-body : (k v : String) → codes (body k v) ≡ spaces (codes k ++ spaces (codes v))
codes-body k v = rw codes-append (rw codes-append (rw codes-append refl))

line-eq :
    (k v rest : String)
    → codes (String.◌++◌ (line k v) rest) ≡ codes (body k v) ++ b'\n' ∷ codes rest
line-eq k v rest = simp (codes-append, List.append_assoc)

read_entry-spaces :
    (k v : String)
    → IsWord k
    → read_entry (spaces (codes k ++ spaces (codes v))) ≡ (codes k, skip_spaces (codes v))
unfolding read_entry skip_spaces
read_entry-spaces k v w = rw (
  skip-word k (spaces (codes v)) w,
  take-plain k _ (word_plain k w),
  drop-plain k _ (word_plain k w),
)

one_line-body : (k v : String) → IsWord k → one_line v ≡ true → one_line (body k v) ≡ true
one_line-body k v w h = one_line-append "    " (String.◌++◌ k (String.◌++◌ "    " v)) refl (
    one_line-append k (String.◌++◌ "    " v) (one_line_of_word k w)
      (one_line-append "    " v refl h))

-- The entries before the first section of a text, and its sections.
abbrev read_text : Codes → List (Codes × Codes) × List ReadSection
read_text cs = read_lines (lines cs)

abbrev entry_as : Entry → Codes × Codes
entry_as e = (codes e.0, skip_spaces (codes e.1))

read_line-body :
    (k v : String) (acc : List (Codes × Codes) × List ReadSection)
    → IsWord k
    → read_line (codes (body k v)) acc ≡ (entry_as (k, v) ∷ acc.0, acc.1)
unfolding read_line
read_line-body k v acc w = rw codes-body (ap (λ e. (e ∷ acc.0, acc.1)) (read_entry-spaces k v w))

read-line :
    (k v rest : String)
    → IsWord k
    → one_line v ≡ true
    → read_text (codes (String.◌++◌ (line k v) rest))
      ≡ (entry_as (k, v) ∷ (read_text (codes rest)).0, (read_text (codes rest)).1)
unfolding read_lines
read-line k v rest w h =
    rw (line-eq k v rest, lines-append (body k v) (codes rest) (one_line-body k v w h))
      (read_line-body k v (read_text (codes rest)) w)

read-entries :
    (es : List Entry) (rest : String)
    → All (λ (e : Entry). IsWord e.0 × (one_line e.1 ≡ true)) es
    → read_text (codes (String.◌++◌ (print_entries es) rest))
      ≡ (map entry_as es ++ (read_text (codes rest)).0, (read_text (codes rest)).1)
unfolding print_entries
read-entries [] rest h = rw nil-append
read-entries ((k, v) ∷ es) rest ((w, o), h) =
    rw (Text.append_assoc (line k v) (print_entries es) rest) (
      read-line k v (String.◌++◌ (print_entries es) rest) w o
      ∙ ap (λ (r : List (Codes × Codes) × List ReadSection). (entry_as (k, v) ∷ r.0, r.1))
          (read-entries es rest h))

abbrev bracketed : String → String
bracketed h = String.◌++◌ "[" (String.◌++◌ h "]")

headline-codes :
    (h rest : String)
    → codes (String.◌++◌ (headline h) rest) ≡ codes (bracketed h) ++ b'\n' ∷ codes rest
unfolding headline
headline-codes h rest = simp (codes-append, List.append_assoc)

codes-bracketed : (h : String) → codes (bracketed h) ≡ b'[' ∷ (codes h ++ b']' ∷ [])
codes-bracketed h = rw codes-append (rw codes-append refl)

read_line-bracketed :
    (h : String) (acc : List (Codes × Codes) × List ReadSection)
    → is_header h ≡ true
    → read_line (codes (bracketed h)) acc
      ≡ ([], (record { header = codes h; entries = acc.0 }) ∷ acc.1)
unfolding read_line
read_line-bracketed h acc ok = rw (codes-bracketed h, take-header h [] ok)

read-headline :
    (h rest : String)
    → is_header h ≡ true
    → read_text (codes (String.◌++◌ (headline h) rest)) ≡ (
      [],
      (record { header = codes h; entries = (read_text (codes rest)).0 })
          ∷ (read_text (codes rest)).1,
    )
unfolding read_lines
read-headline h rest ok =
    rw
      (
        headline-codes h rest,
        lines-append (bracketed h) (codes rest) (
            one_line-append "[" (String.◌++◌ h "]") refl
              (one_line-append h "]" (one_line_of_header h ok) refl)),
      )
      (read_line-bracketed h (read_text (codes rest)) ok)

-- Sections in front of a text that begins with a section, or is empty.
pub read-print :
    (ss : List Section) (rest : String) (tail : List ReadSection)
    → All IsReadable ss
    → read_text (codes rest) ≡ ([], tail)
    → read_text (codes (String.◌++◌ (print ss) rest)) ≡ ([], map read_as ss ++ tail)
unfolding print print_section read_as
read-print [] rest tail h e = rw nil-append e
read-print (s ∷ ss) rest tail ((hd, es), h) e =
    let later = String.◌++◌ (print ss) rest in
    ap (λ t. read_text (codes t))
      (Text.append_assoc (print_section s) (print ss) rest
        ∙ Text.append_assoc (headline s.header) (print_entries s.entries) later)
    ∙ read-headline s.header (String.◌++◌ (print_entries s.entries) later) hd
    ∙ ap
        (λ (r : List (Codes × Codes) × List ReadSection).
          ([], (record { header = codes s.header; entries = r.0 }) ∷ r.1))
        (read-entries s.entries later es
          ∙ ap
              (λ (r : List (Codes × Codes) × List ReadSection).
                (map entry_as s.entries ++ r.0, r.1))
              (read-print ss rest tail h e)
          ∙ ap (λ l. (l, map read_as ss ++ tail)) (List.append-nil (map entry_as s.entries)))
