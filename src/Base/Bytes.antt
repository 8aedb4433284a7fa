-- ===== src/Base/Bytes.antt =====
-- Go strings as their bytes, and what the program uses of the package strings.
use Prim.Native.Char.{code}
use Prim.Native.String.{String}
use airjail.Base.Tests.{leb, if◌then◌else◌}
use airjail.Base.Lists.{length, take, drop}
use airjail.Base.Equality.{◌==◌, nat_eq, list_eq}
use Prim.Native.Nat.{ℕ, suc, ◌+◌, ◌-◌}
use mathlib.Core.Bool.{Bool, true, false, ◌&&◌, ◌||◌}
use mathlib.Core.Option.{Option, none, some}
use mathlib.Core.Option
use mathlib.Core.List.{List, [], ◌∷◌, ◌++◌, map}

abbrev pub Bytes : Type 0
Bytes = List ℕ

-- the code points of a literal; these are its bytes when the text is ASCII
abbrev pub codes : String → Bytes
codes String.[] = []
codes (String.◌∷◌ c s) = code c ∷ codes s

unfoldable pub has_prefix : Bytes → Bytes → Bool
has_prefix s [] = true
has_prefix [] (c ∷ p) = false
has_prefix (d ∷ s) (c ∷ p) = d == c && has_prefix s p

unfoldable pub has_suffix : Bytes → Bytes → Bool
has_suffix s t = leb (length t) (length s) && drop (length s - length t) s == t

unfoldable pub trim_prefix : Bytes → Bytes → Bytes
unfolding has_prefix
trim_prefix s p = if has_prefix s p then drop (length p) s else s

unfoldable pub trim_suffix : Bytes → Bytes → Bytes
unfolding has_suffix
trim_suffix s t = if has_suffix s t then take (length s - length t) s else s

-- strings.IndexByte, with `none` for -1
unfoldable pub index_byte : Bytes → ℕ → Option ℕ
index_byte [] c = none
index_byte (d ∷ s) c = if d == c then some 0 else Option.map suc (index_byte s c)

-- strings.LastIndexByte
unfoldable pub last_index_byte : Bytes → ℕ → Option ℕ
last_index_byte [] c = none
last_index_byte (d ∷ s) c = elim (last_index_byte s c) [
  | some i ↦ some (suc i)
  | none ↦ if d == c then some 0 else none
]

-- strings.Count of a one-byte text
unfoldable pub count_byte : Bytes → ℕ → ℕ
count_byte [] c = 0
count_byte (d ∷ s) c = if d == c then suc (count_byte s c) else count_byte s c

-- the text up to the first separator and the text behind it: strings.Cut, where there is one
unfoldable pub cut : Bytes → ℕ → Option (Bytes × Bytes)
cut [] c = none
cut (d ∷ s) c = if d == c then some ([], s) else Option.map (λ p. (d ∷ p.0, p.1)) (cut s c)

-- strings.Split by one byte; `first` is the part that is being read
unfoldable pub split_from : Bytes → Bytes → ℕ → List Bytes
split_from first [] c = first ∷ []
split_from first (d ∷ s) c = elim (d == c) [
  | true ↦ first ∷ split_from [] s c
  | false ↦ split_from (first ++ d ∷ []) s c
]

unfoldable pub split : Bytes → ℕ → List Bytes
unfolding split_from
split s c = split_from [] s c

-- strings.ToLower on ASCII text
unfoldable pub lower_byte : ℕ → ℕ
lower_byte c = if leb b'A' c && leb c b'Z' then c + 32 else c

unfoldable pub to_lower : Bytes → Bytes
unfolding lower_byte
to_lower = map lower_byte

-- strings.Contains
unfoldable pub occurs : Bytes → Bytes → Bool
unfolding has_prefix
occurs p [] = has_prefix [] p
occurs p (c ∷ s) = has_prefix (c ∷ s) p || occurs p s
