-- ===== src/Prelude/Text.antt =====
-- What the program uses of Rust's `str`: its UTF-8, `split`, `strip_prefix`, `contains` and the
-- parsing of a `usize`.
use Prim.Native.Nat.{ℕ, ◌+◌, ◌-◌, ◌*◌, ◌/◌, ◌%◌, ◌^◌}
use Prim.Native.Char.{Char, code}
use Prim.Native.String.{String, [], ◌∷◌, ◌++◌}
use text.Mathlib.Text.{◌==◌ as str_eq}
use mathlib.Core.Bool.{Bool, true, false, ◌&&◌, ◌||◌}
use mathlib.Core.Option.{Option, none, some}
use mathlib.Core.Path.{◌≡◌, refl}
use mathlib.Core.Logic.{inl, inr}
use mathlib.Core.List
use mathlib.Core.List.{List}
use mdb_embedded.Prelude.Tests.{Bool-cases, leb, ltb, ◌==◌, if◌then◌else◌}

-- The UTF-8 of one character, and of a text: `as_bytes`.
unfoldable pub encode_utf8 : ℕ → List ℕ
encode_utf8 c =
    if ltb c 0x80
    then List.◌∷◌ c List.[]
    else if ltb c 0x800
    then List.◌∷◌ (0xc0 + c / 64) (List.◌∷◌ (0x80 + c % 64) List.[])
    else if ltb c 0x10000
    then List.◌∷◌ (0xe0 + c / 4096)
        (List.◌∷◌ (0x80 + c / 64 % 64) (List.◌∷◌ (0x80 + c % 64) List.[]))
    else List.◌∷◌ (0xf0 + c / 262144) (
        List.◌∷◌ (0x80 + c / 4096 % 64)
          (List.◌∷◌ (0x80 + c / 64 % 64) (List.◌∷◌ (0x80 + c % 64) List.[])))

unfoldable pub as_bytes : String → List ℕ
unfolding encode_utf8
as_bytes [] = List.[]
as_bytes (c ∷ s) = List.◌++◌ (encode_utf8 (code c)) (as_bytes s)

-- One more character before the first piece.
abbrev pub push_first : Char → List String → List String
push_first c List.[] = List.◌∷◌ (c ∷ []) List.[]
push_first c (List.◌∷◌ p ps) = List.◌∷◌ (c ∷ p) ps

-- `s.split('.')`: never empty.
unfoldable pub split_dots : String → List String
split_dots [] = List.◌∷◌ [] List.[]
split_dots (c ∷ s) =
    let rest = split_dots s in if code c == b'.' then List.◌∷◌ [] rest else push_first c rest

-- `parts.join(".")`
unfoldable pub join_dots : List String → String
join_dots List.[] = []
join_dots (List.◌∷◌ p List.[]) = p
join_dots (List.◌∷◌ p (List.◌∷◌ q ps)) = p ++ ("." ++ join_dots (List.◌∷◌ q ps))

-- `s.starts_with(t)` and what follows the prefix: `s.strip_prefix(t)`
unfoldable pub strip_prefix : String → String → Option String
strip_prefix s [] = some s
strip_prefix [] (d ∷ t) = none
strip_prefix (c ∷ s) (d ∷ t) =
    let rest = strip_prefix s t in if code c == code d then rest else none

abbrev pub has_prefix : String → String → Bool
has_prefix s t = elim (strip_prefix s t) [ none ↦ false | some _ ↦ true ]

-- `s.contains(t)`
unfoldable pub contains_str : String → String → Bool
unfolding strip_prefix
contains_str [] t = has_prefix [] t
contains_str (c ∷ s) t = has_prefix (c ∷ s) t || contains_str s t

-- The digits of `s.parse::<usize>()`, from the value read so far.
unfoldable pub parse_digits : ℕ → String → Option ℕ
parse_digits n [] = some n
parse_digits n (c ∷ s) =
    let d = code c - b'0' in
    let m = n * 10 + d in
    let rest = parse_digits m s in
    if leb b'0' (code c) && leb (code c) b'9' && ltb m (2 ^ 64) then rest else none

-- `s.parse::<usize>()` on a 64-bit target: an optional `+`, then at least one digit.
unfoldable pub parse_usize : String → Option ℕ
unfolding parse_digits
parse_usize [] = none
parse_usize (c ∷ s) =
    if code c == b'+'
    then if str_eq s "" then none else parse_digits 0 s
    else parse_digits 0 (c ∷ s)

-- The text without its last byte, which has to be a character of its own.
unfoldable pub drop_last_byte : String → Option String
drop_last_byte [] = none
drop_last_byte (c ∷ []) = if ltb (code c) 0x80 then some [] else none
drop_last_byte (c ∷ d ∷ s) = elim (drop_last_byte (d ∷ s)) [ none ↦ none | some t ↦ some (c ∷ t) ]

-- A text has at least one piece.
pub split_dots-ne-nil :
    (s : String) → (p : String) × (ps : List String) × (split_dots s ≡ List.◌∷◌ p ps)
unfolding split_dots
split_dots-ne-nil [] = ([], List.[], refl)
split_dots-ne-nil (c ∷ s) =
    let (p, ps, e) = split_dots-ne-nil s in
    elim (Bool-cases (code c == b'.')) [
      | inl dot ↦ ([], split_dots s, rw dot)
      | inr other ↦ (c ∷ p, ps, rw (other, e))
    ]
