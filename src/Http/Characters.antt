-- ===== src/Http/Characters.antt =====
-- Characters and character tables of Http.Globals.h and Globals::Initialize (Http.Globals.cpp), and
-- ascii_encode (Basic.String.cpp, Basic.SingleByteEncoder.cpp).
use webel.Prelude.{ℕ, ◌+◌, ◌%◌, Bool, not, ◌&&◌, ◌||◌, List, [], ◌∷◌, leb, ◌==◌, if◌then◌else◌}

abbrev pub cr : ℕ
cr = 0x0D

abbrev pub lf : ℕ
lf = 0x0A

abbrev pub sp : ℕ
sp = 0x20

abbrev pub ht : ℕ
ht = 0x09

abbrev pub colon : ℕ
colon = b':'

-- CHAR, CTL, SEPARATOR and TOKEN, at a byte.
char : ℕ → Bool
char ch = leb ch 127

ctl : ℕ → Bool
ctl ch = leb ch 31 || ch == 127

separator : ℕ → Bool
separator ch =
    ch == b'('
    || ch == b')'
    || ch == b'<'
    || ch == b'>'
    || ch == b'@'
    || ch == b','
    || ch == b';'
    || ch == b':'
    || ch == b'\\'
    || ch == b'"'
    || ch == b'/'
    || ch == b'['
    || ch == b']'
    || ch == b'='
    || ch == b'{'
    || ch == b'}'
    || ch == sp
    || ch == ht

unfoldable pub token : ℕ → Bool
unfolding char ctl separator
token ch = char ch && not (ctl ch) && not (separator ch)

-- SingleByteEncoder::write_element over an encoding's index; `pointer` is codepoint_to_pointer.
unfoldable pub encode_element : (ℕ → ℕ) → ℕ → ℕ → ℕ
encode_element pointer replacement codepoint =
    if leb codepoint 0x7F
    then codepoint % 256
    else if pointer codepoint == 0
    then replacement
    else (pointer codepoint + 0x80) % 256

unfoldable pub ascii_encode : (ℕ → ℕ) → ℕ → List ℕ → List ℕ
ascii_encode pointer replacement [] = []
ascii_encode pointer replacement (c ∷ cs) =
    encode_element pointer replacement c ∷ ascii_encode pointer replacement cs
