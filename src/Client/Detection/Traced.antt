-- ===== src/Client/Detection/Traced.antt =====
-- The tracer of a Linux process, from the text that the kernel writes.
use genomedb.Base.{
  ℕ, ◌+◌, ◌^◌, ◌<◌, ◌≡◌, ◌≢◌, refl, ap, ◌∙◌, true, not, none, some, List, [], ◌∷◌, ◌++◌,
  append_assoc, length, ltb, ◌==◌, Bytes, ascii, All, All-append, All-weaken, arith,
}
use genomedb.Base.Scanner.{
  newline, carriage_return, OneLine, scan_lines, scan_line, after_prefix, after_prefix-append,
}
use genomedb.Base.Text.{is_space, space_length, fields, fields-append, fields_word}
use genomedb.Mesh.{decimal}
use genomedb.Mesh.Decimal.{IsDigit, decimal-IsDigit, length-decimal, decimal-IsWord, atoi-decimal}
use genomedb.Client.Detection.{linux, max_token, find_tracer, detect_debugger, linux_debugger}

abbrev pub label : Bytes
label = ascii "TracerPid:"

-- A line of another field.
abbrev pub Other : Bytes → Type 0
Other line = OneLine line × (length line + 1 < max_token) × (after_prefix label line ≡ none)

abbrev pub text_of : List Bytes → Bytes
text_of [] = []
text_of (line ∷ lines) = line ++ newline ∷ text_of lines

find_tracer-others :
    (before : List Bytes) (rest : Bytes)
    → All Other before
    → find_tracer (scan_lines max_token [] (text_of before ++ rest))
      ≡ find_tracer (scan_lines max_token [] rest)
unfolding find_tracer
find_tracer-others [] rest others = refl
find_tracer-others (line ∷ before) rest (other, others) =
    ap (λ t. find_tracer (scan_lines max_token [] t))
      (append_assoc line (newline ∷ text_of before) rest)
    ∙ ap find_tracer (scan_line max_token line (text_of before ++ rest) other.0 other.1)
    ∙ rw (find_tracer, other.2) (find_tracer-others before rest others)

tracer_line : (n : ℕ) → fields (label ++ 9 ∷ decimal n) ≡ label ∷ decimal n ∷ []
unfolding is_space space_length
tracer_line n =
    fields-append label (decimal n) 9
      (refl, (refl, (refl, (refl, (refl, (refl, (refl, (refl, (refl, (refl, tt)))))))))) refl
    ∙ ap (λ (t : List Bytes). label ∷ t) (fields_word (decimal n) (decimal-IsWord n))

digit-plain : (c : ℕ) → IsDigit c → (c ≢ newline) × (c ≢ carriage_return)
digit-plain c (low, high) = (omega arith, omega arith)

plain-OneLine : (text : Bytes) → All (λ c. 13 < c) text → OneLine text
plain-OneLine text above = All-weaken text (λ c lt. (omega arith, omega arith)) above

tracer_text : (n : ℕ) → OneLine (label ++ 9 ∷ decimal n)
tracer_text n =
    All-append _ label (9 ∷ decimal n) (plain-OneLine label (omega arith))
      ((omega arith, omega arith), All-weaken (decimal n) digit-plain (decimal-IsDigit n))

find_tracer_line :
    (n : ℕ) (after : Bytes)
    → n < 2 ^ 63
    → find_tracer (scan_lines max_token [] ((label ++ 9 ∷ decimal n) ++ newline ∷ after))
      ≡ not (n == 0)
unfolding find_tracer
find_tracer_line n after small =
    let fits : ltb n (2 ^ 63) ≡ true = ground arith in
    ap find_tracer (
      scan_line max_token (label ++ 9 ∷ decimal n) after (tracer_text n)
        (omega (arith, length-decimal n small)))
    ∙ rw (
      find_tracer,
      after_prefix-append label (9 ∷ decimal n),
      tracer_line n,
      atoi-decimal n,
      fits,
    )

-- Let the status of a process have lines that are not of the tracer and fit the scanner's buffer,
-- then the tracer's line with a number that fits an int of 64 bits, and then anything. Then a
-- debugger is detected exactly when that number is not 0.
pub detect_debugger-linux :
    (before : List Bytes) (n : ℕ) (after : Bytes) (env : Bytes → Bytes)
    → All Other before
    → n < 2 ^ 63
    → detect_debugger
        (linux (some (text_of before ++ ((label ++ 9 ∷ decimal n) ++ newline ∷ after))) env)
      ≡ not (n == 0)
unfolding detect_debugger linux_debugger
detect_debugger-linux before n after env others small =
    find_tracer-others before ((label ++ 9 ∷ decimal n) ++ newline ∷ after) others
    ∙ find_tracer_line n after small
