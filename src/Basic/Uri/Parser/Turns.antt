-- ===== src/Basic/Uri/Parser/Turns.antt =====
-- The loop of Uri::Parse by its turns (Basic.Uri.cpp).
use webel.Prelude.{
  Bool, List, Option, Outcome, false, fatal, leb, length, refl, returns, suc, true, ℕ, ◌%◌, ◌^◌,
  ◌≡◌,
}
use webel.Basic.Uri.{State, Uri}
use webel.Basic.Uri.Parser.{Parser, Turn, goes_on, ends}
use webel.Basic.Uri.Parser.Loop.{advanced, turn, parse_loop}

module _ (percent_format : ℕ → List ℕ) (base : Option Uri) (override : Option State) where
  module _ (input : List ℕ) (spent : Outcome (Bool × Uri)) (p : Parser) (fuel : ℕ) where
    abbrev pub IsInside : Type 0
    IsInside = leb p.pointer (length input % 2 ^ 32) ≡ true

    abbrev looped : Outcome (Bool × Uri)
    looped = parse_loop percent_format base override input spent (suc fuel) p

    abbrev turned : Outcome Turn
    turned = turn percent_format base override input p

    pub parse_loop-goes_on :
        (q : Parser)
        → IsInside
        → turned ≡ returns (goes_on q)
        → looped ≡ parse_loop percent_format base override input spent fuel (advanced q)
    unfolding parse_loop
    parse_loop-goes_on q h e = rw (h, parse_loop) (rw e refl)

    pub parse_loop-ends :
        (result : Bool) (uri : Uri)
        → IsInside
        → turned ≡ returns (ends result uri)
        → looped ≡ returns (result, uri)
    unfolding parse_loop
    parse_loop-ends result uri h e = rw (h, parse_loop) (rw e refl)

    pub parse_loop-fatal : IsInside → turned ≡ fatal → looped ≡ fatal
    unfolding parse_loop
    parse_loop-fatal h e = rw (h, parse_loop) (rw e refl)

    pub parse_loop-outside :
        leb p.pointer (length input % 2 ^ 32) ≡ false → looped ≡ returns (true, p.uri)
    unfolding parse_loop
    parse_loop-outside h = rw (h, parse_loop) refl
