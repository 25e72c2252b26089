-- ===== src/Base/Text.antt =====
-- strings.Fields and strconv.Atoi, of Go's standard library.
use genomedb.Base.{
  ℕ, zero, suc, ◌<◌, arith, ◌+◌, ◌-◌, ◌*◌, ◌^◌, ◌≡◌, refl, ap, ◌∙◌, Bool, true, false, ◌&&◌, ◌||◌,
  Option, none, some, List, [], ◌∷◌, ◌++◌, append_assoc, append-nil, ltb, leb, ◌==◌, if◌then◌else◌,
  Bytes, All, sym,
}

unfoldable pub is_space : ℕ → Bool
is_space c = c == 32 || (leb 9 c && leb c 13)

-- U+0085 and U+00A0, in UTF-8.
unfoldable pub two_space : ℕ → ℕ → Bool
two_space c d = c == 194 && (d == 133 || d == 160)

-- U+1680, U+2000 to U+200A, U+2028, U+2029, U+202F, U+205F and U+3000, in UTF-8.
unfoldable pub three_space : ℕ → ℕ → ℕ → Bool
three_space c d e =
    (c == 225 && (d == 154 && e == 128))
    || ((c == 226
          && (d == 128 && ((leb 128 e && leb e 138) || (e == 168 || (e == 169 || e == 175)))))
        || ((c == 226 && (d == 129 && e == 159)) || (c == 227 && (d == 128 && e == 128))))

-- How many bytes the space has that a text starts with; 0 if it starts with none. A byte that starts
-- one is never a later byte of another character, so that the bytes can be tried one by one.
unfoldable pub space_length : Bytes → ℕ
unfolding is_space two_space three_space
space_length [] = 0
space_length (c ∷ []) = if is_space c then 1 else 0
space_length (c ∷ d ∷ []) = if is_space c then 1 else if two_space c d then 2 else 0
space_length (c ∷ d ∷ e ∷ text) =
    if is_space c then 1 else if two_space c d then 2 else if three_space c d e then 3 else 0

abbrev pub flush : Bytes → List Bytes → List Bytes
flush [] words = words
flush (c ∷ word) words = (c ∷ word) ∷ words

-- The words of a text, with the rest of a space to pass over and the part of the first word that was
-- read.
unfoldable pub fields_from : ℕ → Bytes → Bytes → List Bytes
unfolding space_length
fields_from skip word [] = flush word []
fields_from (suc skip) word (c ∷ text) = fields_from skip word text
fields_from zero word (c ∷ text) = elim (space_length (c ∷ text)) [
  | zero ↦ fields_from 0 (word ++ c ∷ []) text
  | suc skip ↦ flush word (fields_from skip [] text)
]

unfoldable pub fields : Bytes → List Bytes
unfolding fields_from
fields text = fields_from 0 [] text

-- `negsuc n` is -(n + 1).
pub data ℤ : Type 0 where
  pos : ℕ → ℤ
  negsuc : ℕ → ℤ

abbrev pub pos_part : ℤ → ℕ
pos_part (pos n) = n
pos_part (negsuc n) = 0

unfoldable pub digits_value : ℕ → Bytes → Option ℕ
digits_value acc [] = some acc
digits_value acc (c ∷ text) =
    let rest = digits_value (acc * 10 + (c - 48)) text in
    if leb 48 c && leb c 57 then rest else none

unfoldable pub unsigned : Bytes → Option ℕ
unfolding digits_value
unsigned [] = none
unsigned (c ∷ text) = digits_value 0 (c ∷ text)

-- An int of 64 bits; a number out of range is an error.
abbrev pub positive : Option ℕ → Option ℤ
positive none = none
positive (some n) = if ltb n (2 ^ 63) then some (pos n) else none

abbrev pub negative : Option ℕ → Option ℤ
negative none = none
negative (some n) =
    if n == 0 then some (pos 0) else if leb n (2 ^ 63) then some (negsuc (n - 1)) else none

unfoldable pub atoi : Bytes → Option ℤ
unfolding unsigned
atoi [] = none
atoi (c ∷ text) =
    if c == 45
    then negative (unsigned text)
    else if c == 43
    then positive (unsigned text)
    else positive (unsigned (c ∷ text))

-- A text that is a word: it is not empty and has no space.
abbrev pub NoSpace : Bytes → Type 0
NoSpace [] = Unit
NoSpace (c ∷ text) = (space_length (c ∷ text) ≡ 0) × NoSpace text

abbrev pub IsWord : Bytes → Type 0
IsWord [] = ⊥
IsWord (c ∷ word) = NoSpace (c ∷ word)

-- Words with one blank between them.
abbrev pub unwords : List Bytes → Bytes
unwords [] = []
unwords (word ∷ []) = word
unwords (word ∷ next ∷ words) = word ++ (32 ∷ unwords (next ∷ words))

-- A byte of ASCII ends a character.
space_length-append :
    (c : ℕ) (word text : Bytes) (x : ℕ)
    → x < 128
    → space_length (c ∷ word ++ x ∷ text) ≡ space_length (c ∷ word)
unfolding space_length two_space three_space
space_length-append c [] [] x below = ground arith
space_length-append c [] (y ∷ text) x below = ground arith
space_length-append c (d ∷ []) text x below = ground arith
space_length-append c (d ∷ e ∷ word) text x below = refl

fields_from-NoSpace :
    (word more text : Bytes) (x : ℕ)
    → x < 128
    → NoSpace more
    → fields_from 0 word (more ++ x ∷ text) ≡ fields_from 0 (word ++ more) (x ∷ text)
unfolding fields_from
fields_from-NoSpace word [] text x below plain =
    ap (λ t. fields_from 0 t (x ∷ text)) (sym (append-nil word))
fields_from-NoSpace word (c ∷ more) text x below plain =
    rw (fields_from, space_length-append c more text x below ∙ plain.0)
      (fields_from-NoSpace (word ++ c ∷ []) more text x below plain.1
        ∙ ap (λ t. fields_from 0 t (x ∷ text)) (append_assoc word (c ∷ []) more))

fields_from_end :
    (word more : Bytes) → NoSpace more → fields_from 0 word more ≡ flush (word ++ more) []
unfolding fields_from
fields_from_end word [] plain = ap (λ t. flush t []) (sym (append-nil word))
fields_from_end word (c ∷ more) plain =
    rw (fields_from, plain.0)
      (fields_from_end (word ++ c ∷ []) more plain.1
        ∙ ap (λ t. flush t []) (append_assoc word (c ∷ []) more))

ascii_space : (x : ℕ) (text : Bytes) → is_space x ≡ true → space_length (x ∷ text) ≡ 1
unfolding space_length
ascii_space x [] space = rw (space_length, space)
ascii_space x (y ∷ []) space = rw (space_length, space)
ascii_space x (y ∷ z ∷ text) space = rw (space_length, space)

-- A space of ASCII ends a word.
pub fields-append :
    (word text : Bytes) (c : ℕ)
    → IsWord word
    → is_space c ≡ true
    → fields (word ++ c ∷ text) ≡ word ∷ fields text
unfolding fields fields_from is_space
fields-append [] text c is_word space = elim is_word [ ]
fields-append (d ∷ word) text c is_word space =
    fields_from-NoSpace [] (d ∷ word) text c (ground arith) is_word
    ∙ rw (fields_from, ascii_space c text space)

pub fields_word : (word : Bytes) → IsWord word → fields word ≡ word ∷ []
unfolding fields
fields_word [] is_word = elim is_word [ ]
fields_word (d ∷ word) is_word = fields_from_end [] (d ∷ word) is_word

-- A text of ASCII without a space.
abbrev pub IsPlain : ℕ → Type 0
IsPlain c = (c < 128) × (is_space c ≡ false)

plain_byte : (c : ℕ) (text : Bytes) → IsPlain c → space_length (c ∷ text) ≡ 0
unfolding space_length two_space three_space
plain_byte c [] plain = ground arith
plain_byte c (d ∷ []) plain = ground arith
plain_byte c (d ∷ e ∷ text) plain = ground arith

pub plain-NoSpace : (text : Bytes) → All IsPlain text → NoSpace text
plain-NoSpace [] plain = tt
plain-NoSpace (c ∷ text) plain = (plain_byte c text plain.0, plain-NoSpace text plain.1)

-- Words with blanks between them are read as they are.
pub fields-unwords : (words : List Bytes) → All IsWord words → fields (unwords words) ≡ words
unfolding is_space fields fields_from
fields-unwords [] all = refl
fields-unwords (word ∷ []) all = fields_word word all.0
fields-unwords (word ∷ next ∷ words) all =
    fields-append word (unwords (next ∷ words)) 32 all.0 refl
    ∙ ap (λ (t : List Bytes). word ∷ t) (fields-unwords (next ∷ words) all.1)
