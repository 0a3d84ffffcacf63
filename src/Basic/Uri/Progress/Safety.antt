-- ===== src/Basic/Uri/Progress/Safety.antt =====
-- Uri::Parse against a base returns (Basic.Uri.cpp).
use webel.Prelude.{
  Bool, Bool-cases, List, Outcome, Returns, Returns-returns, arith, fatal, inl, inr, leb, length,
  none, refl, returns, some, suc, true, zero, ℕ, ◌%◌, ◌*◌, ◌+◌, ◌<◌, ◌^◌, ◌∙◌, ◌∷◌, ◌≡◌,
}
use webel.Basic.Uri.{fatal, fatal, fatal, fatal, State, Uri, is_some}
use webel.Basic.Uri.Parser.{Parser, Turn, goes_on, ends, look}
use webel.Basic.Uri.Parser.Loop.{advanced, turn, parse_loop, begun, parse}
use webel.Basic.Uri.Parser.Turns.{parse_loop-goes_on, parse_loop-ends, parse_loop-outside}
use webel.Basic.Uri.Progress.{weight, Held, AdvancesTo}
use webel.Basic.Uri.Progress.Termination.{weight-start, turn-Advances}
use webel.Basic.Uri.Progress.Ready.{IsInitialized, IsReady, IsReadyBehind, dispatch-IsReady}

module _ (percent_format : ℕ → List ℕ) (base : Uri)
    (has_base_scheme : is_some base.scheme ≡ true) where
  module _ (segment : List ℕ) (segments : List (List ℕ))
      (has_path : base.path ≡ segment ∷ segments) where
    module _ (input : List ℕ) (small : length input < 2 ^ 31) where
      abbrev size : ℕ
      size = length input

      abbrev loop : ℕ → Parser → Outcome (Bool × Uri)
      loop = parse_loop percent_format (some base) none input fatal

      turn-IsReady :
          (p : Parser)
          → IsReady p
          → Returns IsReadyBehind (turn percent_format (some base) none input p)
      unfolding turn
      turn-IsReady p (i, h) =
          dispatch-IsReady percent_format base has_base_scheme segment segments has_path p.state
            (look input p.pointer) p i h

      abbrev Ends : Outcome (Bool × Uri) → Type 0
      Ends o = (result : Bool × Uri) × (o ≡ returns result)

      after_turn :
          (fuel : ℕ) (p : Parser) (t : Turn)
          → leb p.pointer (length input % 2 ^ 32) ≡ true
          → turn percent_format (some base) none input p ≡ returns t
          → IsReadyBehind t
          → Held p.state (length p.buffer) p.pointer
          → ((q : Parser)
              → IsReady q
              → AdvancesTo size (weight size p.state p.pointer) q
              → Ends (loop fuel (advanced q)))
          → Ends (loop (suc fuel) p)
      after_turn fuel p (ends result uri) e t h k rest = (
        (result, uri),
        parse_loop-ends percent_format (some base) none input fatal p fuel result uri e t,
      )
      after_turn fuel p (goes_on q) e t h k rest =
          let (result, r) =
            rest q h (turn-Advances percent_format (some base) none input small p q e k t) in
          (result, parse_loop-goes_on percent_format (some base) none input fatal p fuel q e t ∙ r)

      parse_loop-returns :
          (fuel : ℕ) (p : Parser)
          → IsReady p
          → Held p.state (length p.buffer) p.pointer
          → weight size p.state p.pointer < fuel
          → Ends (loop fuel p)
      parse_loop-returns zero p i k w = absurd (omega arith)
      parse_loop-returns (suc fuel) p i k w =
          elim (Bool-cases (leb p.pointer (length input % 2 ^ 32))) [
            | inr e ↦ (
              (true, p.uri),
              parse_loop-outside percent_format (some base) none input fatal p fuel e,
            )
            | inl e ↦
                let (t, returned, behind) = Returns-returns IsReadyBehind _ (turn-IsReady p i) in
                after_turn fuel p t e returned behind k (λ q ready (lighter, inside, held).
                  parse_loop-returns fuel (advanced q) ready held (omega arith))
          ]

      -- Parse of any input of fewer than 2 ^ 31 code points, into a Uri that Initialize has set up
      -- and against a base that has a scheme and a path that is not empty, returns: the loop ends,
      -- no null reference is read, and no element is taken off an empty path.
      pub parse-returns :
          (uri : Uri)
          → IsInitialized uri
          → (result : Bool × Uri) × (parse percent_format (some base) none input uri
              ≡ returns result)
      unfolding parse
      parse-returns uri i =
          parse_loop-returns (suc (19 * (length input + 2)))
            (begun percent_format (some base) none input uri) (i, tt) refl
            (weight-start size State.scheme_start_state)
