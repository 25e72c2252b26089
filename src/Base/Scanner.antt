-- ===== src/Base/Scanner.antt =====
-- bufio.Scanner over the lines of a text, with the longest line that its buffer holds, and
-- strings.HasPrefix. A text that ends in the middle of a line ends that line.
use genomedb.Base.{
  ℕ, ◌+◌, ◌<◌, ◌≡◌, ◌≢◌, refl, ap, subst, sym, ◌∙◌, true, false, Option, none, some, List, [], ◌∷◌,
  ◌++◌, append-nil, append_assoc, length, length-append, leb, ◌==◌, if◌then◌else◌, Bytes, All,
  arith,
}

abbrev pub newline : ℕ
newline = 10

abbrev pub carriage_return : ℕ
carriage_return = 13

-- bufio.ScanLines drops one carriage return before the end of a line.
unfoldable pub drop_return : Bytes → Bytes
drop_return [] = []
drop_return (c ∷ []) = if c == carriage_return then [] else c ∷ []
drop_return (c ∷ d ∷ line) = c ∷ drop_return (d ∷ line)

-- The scanner, with the part of the line it has read. It stops at a line that is too long.
unfoldable pub scan_lines : ℕ → Bytes → Bytes → List Bytes
unfolding drop_return
scan_lines max line [] = if length line == 0 then [] else drop_return line ∷ []
scan_lines max line (c ∷ text) = elim (c == newline) [
  | true ↦ drop_return line ∷ scan_lines max [] text
  | false ↦ elim (leb max (length line + 1)) [
    | true ↦ []
    | false ↦ scan_lines max (line ++ c ∷ []) text
  ]
]

-- strings.HasPrefix with strings.TrimPrefix.
unfoldable pub after_prefix : Bytes → Bytes → Option Bytes
after_prefix [] line = some line
after_prefix (c ∷ start) [] = none
after_prefix (c ∷ start) (d ∷ line) =
    let rest = after_prefix start line in if c == d then rest else none

-- A text that stands on one line.
abbrev pub OneLine : Bytes → Type 0
OneLine text = All (λ c. (c ≢ newline) × (c ≢ carriage_return)) text

drop_return-OneLine : (line : Bytes) → OneLine line → drop_return line ≡ line
unfolding drop_return
drop_return-OneLine [] h = refl
drop_return-OneLine (c ∷ []) h = let no = h.0.1 in ground arith
drop_return-OneLine (c ∷ d ∷ line) h = ap (λ t. c ∷ t) (drop_return-OneLine (d ∷ line) h.1)

-- A line that fits is scanned as it is.
pub scan_lines-append :
    (max : ℕ) (line more text : Bytes)
    → OneLine more
    → OneLine (line ++ more)
    → length line + length more + 1 < max
    → scan_lines max line (more ++ newline ∷ text) ≡ (line ++ more) ∷ scan_lines max [] text
unfolding scan_lines
scan_lines-append max line [] text h one fits =
    ap (λ t. t ∷ scan_lines max [] text)
      (drop_return-OneLine line (subst OneLine (append-nil line) one) ∙ sym (append-nil line))
scan_lines-append max line (c ∷ more) text h one fits =
    let not_end : (c == newline) ≡ false = let no = h.0.0 in ground arith in
    let not_full : leb max (length line + 1) ≡ false = ground arith in
    let assoc = append_assoc line (c ∷ []) more in
    rw (
      scan_lines,
      not_end,
      not_full,
      scan_lines-append max (line ++ c ∷ []) more text h.1 (subst OneLine (sym assoc) one)
          (omega (arith, length-append line (c ∷ []))),
      assoc,
    )

pub after_prefix-append : (start line : Bytes) → after_prefix start (start ++ line) ≡ some line
unfolding after_prefix
after_prefix-append [] line = refl
after_prefix-append (c ∷ start) line = ground (arith, after_prefix-append start line)

pub scan_line :
    (max : ℕ) (line text : Bytes)
    → OneLine line
    → length line + 1 < max
    → scan_lines max [] (line ++ newline ∷ text) ≡ line ∷ scan_lines max [] text
scan_line max line text one fits = scan_lines-append max [] line text one one (omega arith)
