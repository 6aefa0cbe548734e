-- ===== src/Provider/Chars.antt =====
-- The character classes of provider_schema.py and the methods of `str` that it uses.
use decent_registry.Prelude.{
  ℕ, ◌+◌, ◌-◌, ◌*◌, Bool, true, false, ◌&&◌, ◌||◌, not, Option, none, some, List, [], ◌∷◌, leb,
  ◌==◌, if◌then◌else◌, length, drop,
}
use decent_registry.Cbor.{Text, Bytes}

abbrev pub is_digit : ℕ → Bool
is_digit c = leb b'0' c && leb c b'9'

abbrev pub is_upper : ℕ → Bool
is_upper c = leb b'A' c && leb c b'Z'

abbrev pub is_lower : ℕ → Bool
is_lower c = leb b'a' c && leb c b'z'

abbrev pub is_alnum : ℕ → Bool
is_alnum c = is_upper c || is_lower c || is_digit c

unfoldable pub hex_digit : ℕ → Bool
hex_digit c = is_digit c || (leb b'A' c && leb c b'F') || (leb b'a' c && leb c b'f')

-- `c in codes`
unfoldable pub one_of : List ℕ → ℕ → Bool
one_of [] c = false
one_of (x ∷ xs) c = c == x || one_of xs c

unfoldable pub unreserved : ℕ → Bool
unfolding one_of
unreserved c = is_alnum c || one_of (b'-' ∷ b'.' ∷ b'_' ∷ b'~' ∷ []) c

-- `!$&'()*+,;=`
unfoldable pub sub_delimiter : ℕ → Bool
unfolding one_of
sub_delimiter c = c == b'!' || c == b'$' || (leb b'&' c && leb c b',') || c == b';' || c == b'='

-- `_URI_PCHAR`
unfoldable pub pchar : ℕ → Bool
unfolding unreserved sub_delimiter
pchar c = unreserved c || sub_delimiter c || c == b':' || c == b'@' || c == b'%'

-- `_URI_ALLOWED`
unfoldable pub uri_allowed : ℕ → Bool
unfolding pchar
uri_allowed c = pchar c || c == b'/' || c == b'?' || c == b'#' || c == b'[' || c == b']'

abbrev pub all_chars : (ℕ → Bool) → Text → Bool
all_chars p [] = true
all_chars p (c ∷ s) = p c && all_chars p s

abbrev pub count : ℕ → Text → ℕ
count c [] = 0
count c (x ∷ s) = (if x == c then 1 else 0) + count c s

abbrev pub starts_with : Text → Text → Bool
starts_with [] s = true
starts_with (x ∷ p) [] = false
starts_with (x ∷ p) (y ∷ s) = x == y && starts_with p s

abbrev pub is_nil : Text → Bool
is_nil [] = true
is_nil (_ ∷ _) = false

-- What stands before the first `c`, whether there is one, and what stands after it.
unfoldable pub partition : ℕ → Text → Text × Bool × Text
partition c [] = ([], false, [])
partition c (x ∷ s) =
    let rest = partition c s in if x == c then ([], true, s) else (x ∷ rest.0, rest.1, rest.2)

-- The same at the last `c`; the whole text is last where there is none.
unfoldable pub rpartition : ℕ → Text → Text × Bool × Text
rpartition c [] = ([], false, [])
rpartition c (x ∷ s) =
    let rest = rpartition c s in
    if rest.1
    then (x ∷ rest.0, true, rest.2)
    else if x == c
    then ([], true, s)
    else ([], false, x ∷ s)

-- `s.partition("%25")`
unfoldable pub partition_zone : Text → Text × Bool × Text
partition_zone [] = ([], false, [])
partition_zone (x ∷ s) =
    let rest = partition_zone s in
    if starts_with (b'%' ∷ b'2' ∷ b'5' ∷ []) (x ∷ s)
    then ([], true, drop 2 s)
    else (x ∷ rest.0, rest.1, rest.2)

abbrev pub lower : ℕ → ℕ
lower c = if is_upper c then c + 32 else c

abbrev two_hex_follow : Text → Bool
two_hex_follow (a ∷ b ∷ s) = hex_digit a && hex_digit b
two_hex_follow _ = false

-- `_valid_uri_component`
unfoldable pub valid_uri_component : Text → (ℕ → Bool) → Bool
valid_uri_component [] allowed = true
valid_uri_component (c ∷ s) allowed =
    (allowed c || (c == b'%' && two_hex_follow s)) && valid_uri_component s allowed

-- `_BAD_PERCENT_ESCAPE_RE.search`
unfoldable pub bad_percent_escape : Text → Bool
bad_percent_escape [] = false
bad_percent_escape (c ∷ s) = (c == b'%' && not (two_hex_follow s)) || bad_percent_escape s

-- `_OBJECT_HASH_RE.fullmatch`
unfoldable pub object_hash_shape : Text → Bool
unfolding hex_digit
object_hash_shape s = length s == 64 && all_chars hex_digit s

abbrev hex_value : ℕ → ℕ
hex_value c = if is_digit c then c - b'0' else if is_upper c then c - 55 else c - 87

abbrev is_space : ℕ → Bool
is_space c = c == 32 || (leb 9 c && leb c 13)

-- `bytes.fromhex`, which skips white space between bytes.
unfoldable pub from_hex : Text → Option Bytes
unfolding hex_digit
from_hex [] = some []
from_hex (a ∷ []) = if is_space a then some [] else none
from_hex (a ∷ b ∷ s) =
    let skipped = from_hex (b ∷ s) in
    let rest = from_hex s in
    if is_space a
    then skipped
    else if hex_digit a && hex_digit b
    then elim rest [ none ↦ none | some r ↦ some ((hex_value a * 16 + hex_value b) ∷ r) ]
    else none
