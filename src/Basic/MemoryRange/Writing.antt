-- ===== src/Basic/MemoryRange/Writing.antt =====
-- The elements that are written to a MemoryRange (Basic.MemoryRange.cpp).
use webel.Prelude.{
  List, Outcome, [], append-nil, append_assoc, arith, returns, ℕ, ◌%◌, ◌++◌, ◌+◌, ◌-◌, ◌<◌, ◌>>=◌,
  ◌^◌, ◌∷◌, ◌≡◌, ◌≤◌,
}
use webel.Basic.MemoryRange.{MemoryRange, remaining, write_elements, write_element}

-- Elements written one by one.
unfoldable pub write_each : MemoryRange → List ℕ → Outcome MemoryRange
write_each m [] = returns m
write_each m (element ∷ elements) = write_element m element >>= λ m'. write_each m' elements

fits :
    (m : MemoryRange) → m.received ≤ m.count → m.count < 2 ^ 32 → remaining m ≡ m.count - m.received
fits m h k = omega arith

-- To write elements at once is to write them one by one, where no more have been received than the
-- range holds: the same elements are stored, and it is a fault for the one exactly where it is for
-- the other.
pub write_elements-write_each :
    (m : MemoryRange) (elements : List ℕ)
    → m.received ≤ m.count
    → m.count < 2 ^ 32
    → write_elements m elements ≡ write_each m elements
unfolding write_elements write_each write_element
write_elements-write_each m [] h k = ground (arith, append-nil m.bytes)
write_elements-write_each m (e ∷ es) h k = ground (
  arith,
  write_elements-write_each
      (record m { received = (m.received + 1) % 2 ^ 32; bytes = m.bytes ++ e ∷ [] }) es,
  append_assoc m.bytes (e ∷ []) es,
)
