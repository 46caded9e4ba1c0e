-- ===== src/Prelude/Bytes.antt =====
-- Texts as bytes: Go's strings, strings.CutPrefix and hmac.Equal.
use Prim.Native.Char.{code}
use Prim.Native.Nat.{ℕ, ◌+◌, ◌/◌, ◌%◌}
use Prim.Native.String.{String}
use mathlib.Core.Path.{◌≡◌, refl, subst}
use mathlib.Core.Logic.{inl, inr}
use mathlib.Core.Bool.{Bool, true, false, ◌&&◌}
use mathlib.Core.Option.{Option, none, some}
use mathlib.Core.List.{List, [], ◌∷◌, ◌++◌}
use native.Mathlib.Omega.{arith}
use zagforge_mvp.Prelude.Tests.{Bool-cases, ltb, ◌==◌, ==_refl, ==_iff, if◌then◌else◌}

abbrev pub Bytes : Type 0
Bytes = List ℕ

-- the UTF-8 bytes of a code point in front of a text
abbrev pub utf8 : ℕ → Bytes → Bytes
utf8 c rest =
    if ltb c 128
    then c ∷ rest
    else if ltb c 2048
    then (192 + c / 64) ∷ (128 + c % 64) ∷ rest
    else if ltb c 65536
    then (224 + c / 4096) ∷ (128 + (c / 64) % 64) ∷ (128 + c % 64) ∷ rest
    else (240 + c / 262144)
      ∷ (128 + (c / 4096) % 64)
      ∷ (128 + (c / 64) % 64)
      ∷ (128 + c % 64)
      ∷ rest

-- the bytes of a Go string
unfoldable pub bytes_of : String → Bytes
bytes_of String.[] = []
bytes_of (String.◌∷◌ c s) = utf8 (code c) (bytes_of s)

-- strings.CutPrefix(s, prefix)
unfoldable pub cut_prefix : Bytes → Bytes → Option Bytes
cut_prefix [] s = some s
cut_prefix (p ∷ ps) [] = none
cut_prefix (p ∷ ps) (c ∷ s) = let rest = cut_prefix ps s in if p == c then rest else none

-- strings.CutPrefix on texts that are not taken apart otherwise
unfoldable pub cut_text : String → String → Option String
cut_text String.[] s = some s
cut_text (String.◌∷◌ p ps) String.[] = none
cut_text (String.◌∷◌ p ps) (String.◌∷◌ c s) =
    let rest = cut_text ps s in if code p == code c then rest else none

pub cut_prefix_sound : (p s : Bytes) {rest : Bytes} → cut_prefix p s ≡ some rest → s ≡ p ++ rest
unfolding cut_prefix
cut_prefix_sound [] s h = ground arith
cut_prefix_sound (p ∷ ps) [] h = absurd (ground arith)
cut_prefix_sound (p ∷ ps) (c ∷ s) {rest} h = elim (Bool-cases (p == c)) [
  | inl e ↦
      let same : p ≡ c = (==_iff p c).0 e in
      let tail : s ≡ ps ++ rest =
        cut_prefix_sound ps s
          (subst (λ b. (if b then cut_prefix ps s else none) ≡ some rest) e h) in
      cc
  | inr e ↦ absurd (ground arith)
]

-- hmac.Equal
unfoldable pub bytes_eq : Bytes → Bytes → Bool
bytes_eq [] [] = true
bytes_eq [] (y ∷ ys) = false
bytes_eq (x ∷ xs) [] = false
bytes_eq (x ∷ xs) (y ∷ ys) = x == y && bytes_eq xs ys

pub bytes_eq_refl : (s : Bytes) → bytes_eq s s ≡ true
unfolding bytes_eq
bytes_eq_refl [] = refl
bytes_eq_refl (c ∷ s) = rw (==_refl c) (bytes_eq_refl s)

pub bytes_eq_sound : (s t : Bytes) → bytes_eq s t ≡ true → s ≡ t
unfolding bytes_eq
bytes_eq_sound [] [] h = refl
bytes_eq_sound [] (y ∷ ys) h = ground arith
bytes_eq_sound (x ∷ xs) [] h = ground arith
bytes_eq_sound (x ∷ xs) (y ∷ ys) h = elim (Bool-cases (x == y)) [
  | inl e ↦
      let same : x ≡ y = (==_iff x y).0 e in
      let rest : xs ≡ ys = bytes_eq_sound xs ys (subst (λ b. (b && bytes_eq xs ys) ≡ true) e h) in
      cc
  | inr e ↦ absurd (ground arith)
]
