-- ===== src/Basic/Uri/Progress.antt =====
-- How far a turn of Uri::Parse gets (Basic.Uri.cpp).
pub mod Opening
pub mod Termination
pub mod Ready
pub mod Safety
pub mod Hosts
use webel.Prelude.{
  ==_self, ==→eq, All, All-append, Bool, Bool-cases, List, Option, Option-cases, Outcome,
  Outcome-cases, Returns, Returns-returns, [], ap, append-nil, append_assoc, arith, drop,
  drop-append, false, fatal, get_elem?, if◌then◌else◌, inl, inr, leb, leb→le, length, length-append,
  le→leb, ltb, ltb→lt, map, ne→==, none, not, refl, replicate, returns, set, some, subst, suc, sym,
  take, take-append, true, zero, ℕ, ◌%◌, ◌&&◌, ◌*◌, ◌++◌, ◌+◌, ◌-◌, ◌/◌, ◌<◌, ◌==◌, ◌>>=◌, ◌^◌,
  ◌||◌, ◌↔◌, ◌∎, ◌∙◌, ◌∷◌, ◌≡◌, ◌≡⟨◌⟩◌, ◌≢◌, ◌≤◌, ◌⊎◌, two_pow_add, two_pow_le, two_pow_positive,
  Whenever, Whenever->>=, Whenever-returns, Whenever-any, Whenever-if, Whenever-option,
}
use webel.Basic.Uri.{
  State, scheme_start_state, scheme_state, scheme_data_state, no_scheme_state,
  relative_or_authority_state, relative_state, relative_slash_state, authority_first_slash_state,
  authority_second_slash_state, authority_ignore_slashes_state, authority_state, file_host_state,
  host_state, hostname_state, port_state, relative_path_start_state, relative_path_state,
  query_state, fragment_state, Uri, initialized, same_text, equals, equals_refs, equals_any_case,
  file_scheme, http_scheme, https_scheme, ports, find, scheme_port, is_relative_scheme,
  is_secure_scheme, is_http_scheme, is_ascii_digit, is_ascii_alpha, is_ascii_alphanumeric,
  is_ascii_hex_digit, one_of, is_url_codepoint, is_null_or_empty, port_number, get_port,
}
use webel.Basic.Uri.Parser.{
  Parser, Turn, goes_on, ends, uint32_mod, back, forward, Look, look, again, push, deref,
  is_separator, is_white, is_slash,
}

-- The number of a state. No turn goes back to a state of a smaller number.
abbrev pub code : State → ℕ
code scheme_start_state = 0
code scheme_state = 1
code scheme_data_state = 2
code no_scheme_state = 3
code relative_or_authority_state = 4
code relative_state = 5
code relative_slash_state = 6
code authority_first_slash_state = 7
code authority_second_slash_state = 8
code authority_ignore_slashes_state = 9
code authority_state = 10
code file_host_state = 11
code host_state = 12
code hostname_state = 13
code port_state = 14
code relative_path_start_state = 15
code relative_path_state = 16
code query_state = 17
code fragment_state = 18

-- The turns that are left, where the input has `n` code points.
abbrev pub weight : ℕ → State → ℕ → ℕ
weight n state pointer = (18 - code state) * (n + 2) + (n + 1 - pointer)

-- The buffer, as far as the authority reads it again.
abbrev pub Held : State → ℕ → ℕ → Type 0
Held scheme_start_state size pointer = size ≡ 0
Held no_scheme_state size pointer = size ≡ 0
Held relative_or_authority_state size pointer = size ≡ 0
Held relative_state size pointer = size ≡ 0
Held relative_slash_state size pointer = size ≡ 0
Held authority_first_slash_state size pointer = size ≡ 0
Held authority_second_slash_state size pointer = size ≡ 0
Held authority_ignore_slashes_state size pointer = size ≡ 0
Held authority_state size pointer = size ≤ pointer
Held state size pointer = Unit

abbrev pub AdvancesTo : ℕ → ℕ → Parser → Type 0
AdvancesTo n before p =
    (weight n p.state (forward p.pointer) < before)
    × (forward p.pointer ≤ n + 1)
    × Held p.state (length p.buffer) (forward p.pointer)

-- A turn that goes on leaves fewer turns than `before`.
abbrev pub Advances : ℕ → ℕ → Turn → Type 0
Advances n before (ends result uri) = Unit
Advances n before (goes_on p) = AdvancesTo n before p

pub forward-le : (n p : ℕ) → p ≤ n → n < 2 ^ 31 → forward p ≡ p + 1
unfolding forward
forward-le n p h k = omega arith

pub forward-back : (n k p : ℕ) → p ≤ n → n < 2 ^ 31 → k ≤ p + 1 → forward (back k p) ≡ p + 1 - k
unfolding forward back
forward-back n k p h g m = omega arith
