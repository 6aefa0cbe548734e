-- ===== src/Tests/Wire.antt =====
-- A codec that satisfies the law: the instructions of a stack machine, in postfix order.
use decent_registry.Prelude.{
  ℕ, true, false, Option, none, some, List, [], ◌∷◌, ◌≡◌, refl, ◌∙◌, arith, if◌then◌else◌, ◌==◌,
}
use decent_registry.Cbor.{
  Bytes, Library, Value, null, bool, int, bytes, text, array, dict, Items, nil, cons, Entries, end,
  entry,
}
use decent_registry.Cbor.Codec.{IsCodec, is_ordered, items_ordered, entries_ordered}
use decent_registry.Tests.Toy.{toy}

abbrev step : ℕ → ℕ → List Value → Option (List Value)
step operation argument stack =
    if operation == 0
    then some (null ∷ stack)
    else if operation == 1
    then some (bool (argument == 1) ∷ stack)
    else if operation == 2
    then some (int argument ∷ stack)
    else if operation == 3
    then some (bytes [] ∷ stack)
    else if operation == 4
    then push_byte argument stack
    else if operation == 5
    then some (text [] ∷ stack)
    else if operation == 6
    then push_char argument stack
    else if operation == 7
    then some (Value.negative argument ∷ stack)
    else if operation == 8
    then some (array nil ∷ stack)
    else if operation == 9
    then push_item stack
    else if operation == 10
    then some (dict end ∷ stack)
    else push_entry stack
  where
    push_byte : ℕ → List Value → Option (List Value)
    push_byte x (bytes b ∷ st) = some (bytes (x ∷ b) ∷ st)
    push_byte x _ = none

    push_char : ℕ → List Value → Option (List Value)
    push_char x (text b ∷ st) = some (text (x ∷ b) ∷ st)
    push_char x _ = none

    push_item : List Value → Option (List Value)
    push_item (array vs ∷ v ∷ st) = some (array (cons v vs) ∷ st)
    push_item _ = none

    push_entry : List Value → Option (List Value)
    push_entry (dict d ∷ v ∷ k ∷ st) = some (dict (entry k v d) ∷ st)
    push_entry _ = none

abbrev run : Bytes → List Value → Option (List Value)
run (operation ∷ argument ∷ code) stack = elim (step operation argument stack) [
  | none ↦ none
  | some next ↦ run code next
]
run _ stack = some stack

abbrev code_bytes : Bytes → Bytes → Bytes
code_bytes [] code = 3 ∷ 0 ∷ code
code_bytes (x ∷ b) code = code_bytes b (4 ∷ x ∷ code)

abbrev code_text : Bytes → Bytes → Bytes
code_text [] code = 5 ∷ 0 ∷ code
code_text (x ∷ b) code = code_text b (6 ∷ x ∷ code)

unfoldable mutual
  pub code_value : Value → Bytes → Bytes
  code_value (bool true) code = 1 ∷ 1 ∷ code
  code_value (bool false) code = 1 ∷ 0 ∷ code
  code_value (int n) code = 2 ∷ n ∷ code
  code_value (Value.negative n) code = 7 ∷ n ∷ code
  code_value (bytes b) code = code_bytes b code
  code_value (text b) code = code_text b code
  code_value (array vs) code = code_items vs code
  code_value (dict d) code = code_entries d code
  code_value _ code = 0 ∷ 0 ∷ code

  pub code_items : Items → Bytes → Bytes
  code_items nil code = 8 ∷ 0 ∷ code
  code_items (cons v vs) code = code_value v (code_items vs (9 ∷ 0 ∷ code))

  pub code_entries : Entries → Bytes → Bytes
  code_entries end code = 10 ∷ 0 ∷ code
  code_entries (entry k v d) code = code_value k (code_value v (code_entries d (11 ∷ 0 ∷ code)))

abbrev value_of : Option (List Value) → Option Value
value_of (some (v ∷ [])) = some v
value_of _ = none

abbrev pub wire_dumps : Value → Bytes
wire_dumps v = code_value v []

-- The other packages are those of the other tests.
abbrev pub wire : Library
wire = record toy { loads = λ b. value_of (run b []); dumps = λ v. some (wire_dumps v) }

run-code_bytes :
    (b code : Bytes) (st : List Value) → run (code_bytes b code) st ≡ run code (bytes b ∷ st)
run-code_bytes [] code st = refl
run-code_bytes (x ∷ b) code st = run-code_bytes b (4 ∷ x ∷ code) st

run-code_text :
    (b code : Bytes) (st : List Value) → run (code_text b code) st ≡ run code (text b ∷ st)
run-code_text [] code st = refl
run-code_text (x ∷ b) code st = run-code_text b (6 ∷ x ∷ code) st

mutual
  unfolding code_value is_ordered

  run-code_value :
      (v : Value) (code : Bytes) (st : List Value)
      → is_ordered v ≡ true
      → run (code_value v code) st ≡ run code (v ∷ st)
  run-code_value null code st h = refl
  run-code_value (bool true) code st h = refl
  run-code_value (bool false) code st h = refl
  run-code_value (int n) code st h = refl
  run-code_value (Value.negative n) code st h = refl
  run-code_value (Value.float n b) code st h = absurd cc
  run-code_value (bytes b) code st h = run-code_bytes b code st
  run-code_value (text b) code st h = run-code_text b code st
  run-code_value (array vs) code st h = run-code_items vs code st h
  run-code_value (dict d) code st h = run-code_entries d code st h
  run-code_value (Value.other n) code st h = absurd cc

  run-code_items :
      (vs : Items) (code : Bytes) (st : List Value)
      → items_ordered vs ≡ true
      → run (code_items vs code) st ≡ run code (array vs ∷ st)
  run-code_items nil code st h = refl
  run-code_items (cons v vs) code st h =
      run-code_value v (code_items vs (9 ∷ 0 ∷ code)) st (ground arith)
      ∙ run-code_items vs (9 ∷ 0 ∷ code) (v ∷ st) (ground arith)

  run-code_entries :
      (d : Entries) (code : Bytes) (st : List Value)
      → entries_ordered d ≡ true
      → run (code_entries d code) st ≡ run code (dict d ∷ st)
  run-code_entries end code st h = refl
  run-code_entries (entry (int k) v d) code st h =
      run-code_value v (code_entries d (11 ∷ 0 ∷ code)) (int k ∷ st) (ground arith)
      ∙ run-code_entries d (11 ∷ 0 ∷ code) (v ∷ int k ∷ st) (ground arith)
  run-code_entries (entry k v d) code st h = absurd (ground arith)

pub wire-IsCodec : IsCodec wire
wire-IsCodec = record {
  loads-dumps =
      λ v b h wrote. let same : b ≡ wire_dumps v = cc in rw (same, run-code_value v [] [] h);
}
