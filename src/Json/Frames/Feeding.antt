-- ===== src/Json/Frames/Feeding.antt =====
-- Tokens that a frame is fed one by one (UnitStream::write_elements of Basic.IStream.h), and what a
-- frame does that passes them on to a frame it owns.
use webel.Prelude.{
  Bool, Bool-cases, List, [], false, inl, inr, refl, sym, true, ◌++◌, ◌∙◌, ◌∷◌, ◌≡◌, ◌⊎◌,
}
use webel.Json.Frames.{Run, written, throws, out_of_fuel, ◌>>◌}

module _ {S T : Type 0} (step : S → T → Run S) where
  unfoldable pub feed : S → List T → Run S
  feed s [] = written s
  feed s (t ∷ ts) = step s t >> λ s'. feed s' ts

  pub feed-written :
      (s s' : S) (t : T) (ts : List T) → step s t ≡ written s' → feed s (t ∷ ts) ≡ feed s' ts
  unfolding feed
  feed-written s s' t ts h = rw h refl

pub Run-cases :
    {A : Type 0} (r : Run A) → (r ≡ throws) ⊎ ((r ≡ out_of_fuel) ⊎ ((a : A) × (r ≡ written a)))
Run-cases throws = inl refl
Run-cases out_of_fuel = inr (inl refl)
Run-cases (written a) = inr (inr (a, refl))

pub >>-written : {A : Type 0} (r : Run A) → (r >> λ a. written a) ≡ r
>>-written throws = refl
>>-written out_of_fuel = refl
>>-written (written a) = refl

-- An ended frame is fed nothing.
module _ {C T : Type 0} (inner : C → T → Run C) (is_ended : C → Bool) where
  pub feed-ended :
      (ts : List T) (c c' : C)
      → ((d : C) (t : T) → is_ended d ≡ true → inner d t ≡ throws)
      → is_ended c ≡ true
      → feed inner c ts ≡ written c'
      → (ts ≡ []) × (c ≡ c')
  unfolding feed
  feed-ended [] c c' throwing h e = (refl, cc)
  feed-ended (t ∷ ts) c c' throwing h e = let f = throwing c t h in cc

-- A frame in a state in which it owns another one, `pending`: it passes each token on, and looks
-- at the inner frame behind it, `after`.
module _ {C P T : Type 0} (inner : C → T → Run C) (outer : P → T → Run P) (is_ended : C → Bool)
    (pending : C → P) (after : C → P) where
  -- The frames of this code: an ended frame throws, and the outer one waits for the inner one.
  abbrev pub PassesOn : Type 0
  PassesOn =
      ((c : C) (t : T) → is_ended c ≡ true → inner c t ≡ throws)
      × ((c : C) → is_ended c ≡ false → after c ≡ pending c)
      × ((c : C) (t : T) → outer (pending c) t ≡ (inner c t >> λ c'. written (after c')))

  pub feed-pending :
      (ts : List T) (c c' : C) (rest : List T)
      → PassesOn
      → is_ended c ≡ false
      → is_ended c' ≡ true
      → feed inner c ts ≡ written c'
      → feed outer (pending c) (ts ++ rest) ≡ feed outer (after c') rest
  unfolding feed
  feed-pending [] c c' rest p h k e = cc
  feed-pending (t ∷ ts) c c' rest (throwing, waits, passes) h k e = elim (Run-cases (inner c t)) [
    | inl f ↦ cc
    | inr (inl f) ↦ cc
    | inr (inr (d, f)) ↦ elim (Bool-cases (is_ended d)) [
      | inl g ↦
          let (nil, same) =
            feed-ended inner is_ended ts d c' throwing g
              (sym (feed-written inner c d t ts f) ∙ e) in
          rw (passes c t, f, nil, same) refl
      | inr g ↦
          rw (passes c t, f, waits d g)
            (feed-pending ts d c' rest (throwing, waits, passes) g k
              (sym (feed-written inner c d t ts f) ∙ e))
    ]
  ]
