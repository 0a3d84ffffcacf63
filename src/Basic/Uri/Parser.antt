-- ===== src/Basic/Uri/Parser.antt =====
-- Uri::Parse (Basic.Uri.cpp): what its loop holds between two code points, and how it moves. The
-- entries of parse_error in the debug log are left out.
pub mod Schemes
pub mod Relative
pub mod Hosts
pub mod Paths
pub mod Loop
pub mod Turns
use webel.Prelude.{
  ==_self, ==→eq, All, All-append, Bool, Bool-cases, List, Option, Option-cases, Outcome,
  Outcome-cases, Returns, Returns-returns, [], ap, append-nil, append_assoc, arith, drop,
  drop-append, false, fatal, get_elem?, if◌then◌else◌, inl, inr, leb, leb→le, length, length-append,
  le→leb, ltb, ltb→lt, map, ne→==, none, not, refl, replicate, returns, set, some, subst, suc, sym,
  take, take-append, true, zero, ℕ, ◌%◌, ◌&&◌, ◌*◌, ◌++◌, ◌+◌, ◌-◌, ◌/◌, ◌<◌, ◌==◌, ◌>>=◌, ◌^◌,
  ◌||◌, ◌↔◌, ◌∎, ◌∙◌, ◌∷◌, ◌≡◌, ◌≡⟨◌⟩◌, ◌≢◌, ◌≤◌, ◌⊎◌, two_pow_add, two_pow_le, two_pow_positive,
  Whenever, Whenever->>=, Whenever-returns, Whenever-any, Whenever-if, Whenever-option,
}
use webel.Basic.Utf8.Encoder.{eof}
use webel.Basic.Uri.{State, Uri}

pub record Parser : Type 0 where
  pub uri : Uri
  pub state : State
  pub buffer : List ℕ
  pub at_flag : Bool
  pub brackets_flag : Bool
  pub pointer : ℕ

-- One turn of the loop: it goes on, or Parse returns.
pub data Turn : Type 0 where
  goes_on : Parser → Turn
  ends : Bool → Uri → Turn

abbrev pub uint32_mod : ℕ
uint32_mod = 0x100000000

-- pointer -= count, pointer += 1 and pointer++ on a uint32.
unfoldable pub back : ℕ → ℕ → ℕ
back count pointer = (pointer + uint32_mod - count) % uint32_mod

unfoldable pub forward : ℕ → ℕ
forward pointer = (pointer + 1) % uint32_mod

-- The code point at the pointer and the two behind it.
pub record Look : Type 0 where
  pub codepoint : ℕ
  pub remaining_0 : ℕ
  pub remaining_1 : ℕ

abbrev or_else : ℕ → Option ℕ → ℕ
or_else default none = default
or_else default (some c) = c

unfoldable pub look : List ℕ → ℕ → Look
look input pointer =
    if ltb pointer (length input)
    then record {
      codepoint = or_else eof (get_elem? input pointer);
      remaining_0 = or_else 0xFFFFFFFE (get_elem? input (pointer + 1));
      remaining_1 = or_else 0xFFFFFFFE (get_elem? input (pointer + 2));
    }
    else record { codepoint = eof; remaining_0 = 0xFFFFFFFE; remaining_1 = 0xFFFFFFFE }

-- The state that follows on the same code point.
abbrev pub again : State → Parser → Parser
again state p = record p { state = state; pointer = back 1 p.pointer }

abbrev pub push : ℕ → Parser → Parser
push codepoint p = record p { buffer = p.buffer ++ codepoint ∷ [] }

-- A reference that the code reads through.
abbrev pub deref {ℓ} : {A : Type ℓ} → Option A → Outcome A
deref none = fatal
deref (some a) = returns a

abbrev pub is_separator : ℕ → Bool
is_separator c = c == eof || c == b'/' || c == b'\\' || c == b'?' || c == b'#'

abbrev pub is_white : ℕ → Bool
is_white c = c == 0x9 || c == 0xA || c == 0xD

abbrev pub is_slash : ℕ → Bool
is_slash c = c == b'/' || c == b'\\'
