-- ===== src/Basic/Uri/Faults.antt =====
-- Uri::Parse without a base (Basic.Uri.cpp).
use webel.Prelude.{
  List, [], ap, arith, false, fatal, length, length-append, none, refl, returns, some, true, ℕ,
  ◌++◌, ◌<◌, ◌^◌, ◌∷◌, ◌≡◌,
}
use webel.Basic.Uri.{
  State, Uri, same_text, file_scheme, scheme_port, is_relative_scheme, is_ascii_digit,
  is_ascii_alpha, is_ascii_alphanumeric,
}
use webel.Basic.Uri.Parser.{goes_on, look, is_slash}
use webel.Basic.Uri.Parser.Relative.{
  is_no_drive_letter, begin_path, by_codepoint, in_relative_state,
}
use webel.Basic.Uri.Parser.Schemes.{behind_scheme, end_scheme, in_scheme_state}
use webel.Basic.Uri.Parser.Loop.{dispatch, turn, parse}
use webel.Basic.Uri.RoundTrip.{scheme_char}
use webel.Basic.Uri.RoundTrip.Leads.{Leads-fault, at, moved}
use webel.Basic.Uri.RoundTrip.Opening.{scheme_first, scheme_takes}
use webel.Basic.Uri.RoundTrip.Arrival.{Arrives-start, Arrives-char, Arrives-takes}

module _ (percent_format : ℕ → List ℕ) (input : List ℕ) (small : length input < 2 ^ 31) where
  file_ends :
      (uri : Uri) (i : ℕ)
      → (look input i).codepoint ≡ b':'
      → turn percent_format none none input (at State.scheme_state file_scheme uri i)
        ≡ returns (
            goes_on (
              at State.relative_state []
                (record uri { scheme = some file_scheme; relative_flag = true })
                i))
  unfolding turn dispatch in_scheme_state is_ascii_alphanumeric is_ascii_alpha is_ascii_digit
      end_scheme behind_scheme is_relative_scheme scheme_port same_text
  file_ends uri i e = rw e refl

  no_base :
      (uri : Uri) (i : ℕ)
      → is_slash (look input i).codepoint ≡ false
      → turn percent_format none none input
          (at State.relative_state [] (record uri { scheme = some file_scheme }) i)
        ≡ fatal
  unfolding turn dispatch in_relative_state by_codepoint begin_path is_no_drive_letter same_text
  no_base uri i e = ground arith

look-file :
    (rest : List ℕ) → (look (file_scheme ++ b':' ∷ rest) 5).codepoint ≡ (look rest 0).codepoint
unfolding look
look-file [] = refl
look-file (c ∷ cs) = ground arith

-- Without a base, a text that begins with the scheme `file` and a colon is a fault, a null reference
-- that is read, wherever no slash or backslash follows: also where nothing does.
pub parse-file :
    (percent_format : ℕ → List ℕ) (rest : List ℕ) (uri : Uri)
    → length rest < 2 ^ 30
    → is_slash (look rest 0).codepoint ≡ false
    → parse percent_format none none (file_scheme ++ b':' ∷ rest) uri ≡ fatal
parse-file f rest uri small no_slash =
    let input = file_scheme ++ b':' ∷ rest in
    let short : length input < 2 ^ 31 = omega arith in
    let c0 = at State.scheme_start_state [] uri 0 in
    let c1 = at State.scheme_state (b'f' ∷ []) uri 0 in
    let c2 = at State.scheme_state file_scheme uri 0 in
    let c3 =
      at State.relative_state [] (record uri { scheme = some file_scheme; relative_flag = true })
        0 in
    let text = b'i' ∷ b'l' ∷ b'e' ∷ b':' ∷ rest in
    let a1 =
      Arrives-char f input short uri b'f' text c0 c1 (Arrives-start f input short uri)
        (λ i q. scheme_first f input short uri b'f' i refl q) in
    let a2 =
      Arrives-takes f input short uri scheme_char (λ taken. at State.scheme_state taken uri 0)
        (b'f' ∷ []) (b'i' ∷ b'l' ∷ b'e' ∷ []) (b':' ∷ rest) (scheme_takes f input short uri)
        (refl, (refl, (refl, tt))) a1 in
    let (before, whole, leads) =
      Arrives-char f input short uri b':' rest c2 c3 a2 (file_ends f input short uri) in
    let five : length before ≡ 5 = omega (arith, ap length whole, length-append before rest) in
    Leads-fault f input short uri (moved c3 (length before)) leads (omega (arith, five)) (
      no_base f input short (record uri { relative_flag = true }) (length before)
        (rw (five, look-file rest) no_slash))
