-- ===== src/Base/Partition.antt =====
-- Cutting a text at the first place where another stands, as `partition` and `split` of Python do.
use Prim.Native.Nat.{ℕ}
use Prim.Native.Char.{Char, code}
use Prim.Native.String.append
use mathlib.Core.Path.{◌≡◌, sym, ap, ap₂, ◌∙◌}
use mathlib.Core.Logic.{inl, inr}
use mathlib.Core.Bool.{Bool, true, false}
use mathlib.Core.Option.{Option, none, some}
use native.Mathlib.Omega.{arith}
use text.Mathlib.TextEquality.{Char-path}
use approvo.Base.Tests.{◌==◌, ==→eq, ==_refl, if◌then◌else◌, Bool-cases, Option-cases, some_inj}
use approvo.Base.Text.{String, append_text}

-- `text.removeprefix(prefix)`, if the prefix is there
unfoldable pub without_prefix : String → String → Option String
without_prefix String.[] s = some s
without_prefix (String.◌∷◌ p ps) String.[] = none
without_prefix (String.◌∷◌ p ps) (String.◌∷◌ c cs) =
    let rest = without_prefix ps cs in if code p == code c then rest else none

abbrev pub starts_with : String → String → Bool
starts_with prefix s = elim (without_prefix prefix s) [ none ↦ false | some rest ↦ true ]

abbrev pub cons_first : Char → Option (String × String) → Option (String × String)
cons_first c none = none
cons_first c (some (before, after)) = some (String.◌∷◌ c before, after)

abbrev cut_or : Option String → Option (String × String) → Option (String × String)
cut_or none later = later
cut_or (some rest) later = some ("", rest)

-- `text.partition(sep)` for a separator that is not empty; none if it does not stand in the text.
unfoldable pub partition : String → String → Option (String × String)
partition sep String.[] = none
partition sep (String.◌∷◌ c cs) =
    cut_or (without_prefix sep (String.◌∷◌ c cs)) (cons_first c (partition sep cs))

without_prefix_sound :
    (prefix s : String) {rest : String}
    → without_prefix prefix s ≡ some rest
    → s ≡ append_text prefix rest
unfolding without_prefix
without_prefix_sound String.[] s {rest} h = some_inj h ∙ sym (append.nil rest)
without_prefix_sound (String.◌∷◌ p ps) String.[] h = cc
without_prefix_sound (String.◌∷◌ p ps) (String.◌∷◌ c cs) {rest} h =
    elim (Bool-cases (code p == code c)) [
      | inl same ↦
          ap₂ String.◌∷◌ (sym (Char-path p c (==→eq (code p) (code c) same)))
            (without_prefix_sound ps cs (rw same at h))
          ∙ sym (append.cons p ps rest)
      | inr other ↦ absurd (ground (arith, other, h))
    ]

without_prefix-append :
    (prefix rest : String) → without_prefix prefix (append_text prefix rest) ≡ some rest
unfolding without_prefix
without_prefix-append String.[] rest = ap some (append.nil rest)
without_prefix-append (String.◌∷◌ p ps) rest =
    ap (without_prefix (String.◌∷◌ p ps)) (append.cons p ps rest)
    ∙ rw (==_refl (code p)) (without_prefix-append ps rest)

cons_first_sound :
    (c : Char) (o : Option (String × String)) {before after : String}
    → cons_first c o ≡ some (before, after)
    → (x : String) × (o ≡ some (x, after)) × (before ≡ String.◌∷◌ c x)
cons_first_sound c none h = cc
cons_first_sound c (some (x, y)) h = (x, cc, cc)

-- The two sides of a cut, with the separator between them, are the text.
pub partition_sound :
    (sep s : String) {before after : String}
    → partition sep s ≡ some (before, after)
    → s ≡ append_text before (append_text sep after)
unfolding partition
partition_sound sep String.[] h = cc
partition_sound sep (String.◌∷◌ c cs) {before} {after} h =
    let later = cons_first c (partition sep cs) in
    elim (Option-cases (without_prefix sep (String.◌∷◌ c cs))) [
      | inr (rest, there) ↦
          let e = some_inj (sym (ap (λ o. cut_or o later) there) ∙ h) in
          without_prefix_sound sep (String.◌∷◌ c cs) there
          ∙ sym (append.nil (append_text sep rest))
          ∙ ap₂ (λ a b. append_text a (append_text sep b)) (ap (λ p. p.0) e) (ap (λ p. p.1) e)
      | inl absent ↦
          let (x, found, made) =
            cons_first_sound c (partition sep cs) (sym (ap (λ o. cut_or o later) absent) ∙ h) in
          ap (String.◌∷◌ c) (partition_sound sep cs found)
          ∙ sym (append.cons c x (append_text sep after))
          ∙ ap (λ a. append_text a (append_text sep after)) (sym made)
    ]

-- No character of the text has this code point.
abbrev pub Lacks : ℕ → String → Type 0
Lacks n String.[] = Unit
Lacks n (String.◌∷◌ c s) = ((code c == n) ≡ false) × Lacks n s

partition-here :
    (first : Char) (sep s rest : String)
    → without_prefix (String.◌∷◌ first sep) s ≡ some rest
    → partition (String.◌∷◌ first sep) s ≡ some ("", rest)
unfolding partition
partition-here first sep String.[] rest h = absurd (unfold without_prefix in cc)
partition-here first sep (String.◌∷◌ c cs) rest h =
    ap (λ o. cut_or o (cons_first c (partition (String.◌∷◌ first sep) cs))) h

without_prefix-other :
    (first c : Char) (sep s : String)
    → (code c == code first) ≡ false
    → without_prefix (String.◌∷◌ first sep) (String.◌∷◌ c s) ≡ none
unfolding without_prefix
without_prefix-other first c sep s h = ground arith

partition-later :
    (first c : Char) (sep s : String)
    → (code c == code first) ≡ false
    → partition (String.◌∷◌ first sep) (String.◌∷◌ c s)
      ≡ cons_first c (partition (String.◌∷◌ first sep) s)
unfolding partition
partition-later first c sep s h =
    ap (λ o. cut_or o (cons_first c (partition (String.◌∷◌ first sep) s)))
      (without_prefix-other first c sep s h)

-- Two texts that are joined by a separator whose first character the first one lacks are cut apart again.
pub partition-append :
    (first : Char) (sep before after : String)
    → Lacks (code first) before
    → partition
        (String.◌∷◌ first sep)
        (append_text before (append_text (String.◌∷◌ first sep) after))
      ≡ some (before, after)
partition-append first sep String.[] after lacks =
    ap (partition (String.◌∷◌ first sep)) (append.nil _)
    ∙ partition-here first sep _ after (without_prefix-append (String.◌∷◌ first sep) after)
partition-append first sep (String.◌∷◌ c cs) after lacks =
    let joined = append_text cs (append_text (String.◌∷◌ first sep) after) in
    let step : partition (String.◌∷◌ first sep) (String.◌∷◌ c joined)
        ≡ cons_first c (partition (String.◌∷◌ first sep) joined) =
      partition-later first c sep joined lacks.0 in
    ap (partition (String.◌∷◌ first sep)) (append.cons c cs _)
    ∙ step
    ∙ ap (cons_first c) (partition-append first sep cs after lacks.1)
