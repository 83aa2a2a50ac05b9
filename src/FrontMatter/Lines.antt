-- ===== src/FrontMatter/Lines.antt =====
-- Lines that keep their ends: joining them gives the text back, and a finished line splits it.
use dockb.Prelude.{
  String, ◌≡◌, refl, sym, ap, ◌∙◌, inl, inr, Bool, true, false, not, ◌&&◌, List, [], ◌∷◌, ◌++◌,
  arith, eqb, if◌then◌else◌, eqb_iff, Bool-cases,
}
use dockb.Prelude.Text.{append, append_assoc}
use Prim.Native.Char.{Char, code}
use Prim.Native.String.{[] as []ˢ, ◌∷◌ as ◌∷ˢ◌}
use dockb.FrontMatter.{is_break, before_newline, onto_first, split_lines, join}

join-onto_first : (c : Char) (ls : List String) → join (onto_first c ls) ≡ c ∷ˢ join ls
unfolding join
join-onto_first c [] = refl
join-onto_first c (l ∷ ls) = refl

pub join-split_lines : (s : String) → join (split_lines s) ≡ s
unfolding join split_lines
join-split_lines []ˢ = refl
join-split_lines (c ∷ˢ s) = ground (arith, join-split_lines s, join-onto_first c (split_lines s))

pub join-append : (xs ys : List String) → join (xs ++ ys) ≡ append (join xs) (join ys)
unfolding join
join-append [] ys = refl
join-append (x ∷ xs) ys =
    ap (append x) (join-append xs ys) ∙ sym (append_assoc x (join xs) (join ys))

-- The text is empty, or its last character is a newline.
abbrev pub is_ended : String → Bool
is_ended []ˢ = true
is_ended (c ∷ˢ []ˢ) = eqb (code c) 10
is_ended (c ∷ˢ d ∷ˢ s) = is_ended (d ∷ˢ s)

first_line :
    (c : Char) (ls : List String) → (l : String) × (ls' : List String) × (onto_first c ls ≡ l ∷ ls')
first_line c [] = (c ∷ˢ []ˢ, [], refl)
first_line c (l ∷ ls) = (c ∷ˢ l, ls, refl)

onto_first-append :
    (c : Char) (l : String) (ls ms xs : List String)
    → xs ≡ l ∷ ls
    → onto_first c (xs ++ ms) ≡ onto_first c xs ++ ms
onto_first-append c l ls ms xs e = rw e refl

split_nonempty :
    (c : Char) (s : String) → (l : String) × (ls : List String) × (split_lines (c ∷ˢ s) ≡ l ∷ ls)
unfolding split_lines
split_nonempty c s = elim (Bool-cases (is_break (code c) && not (before_newline (code c) s))) [
  | inl ends ↦ (c ∷ˢ []ˢ, split_lines s, rw ends refl)
  | inr goes_on ↦ rw goes_on (first_line c (split_lines s))
]

line-append :
    (b : Bool) (c : Char) (l : String) (ls xs ys ms : List String)
    → xs ≡ l ∷ ls
    → ys ≡ xs ++ ms
    → (if b then (c ∷ˢ []ˢ) ∷ ys else onto_first c ys)
      ≡ (if b then (c ∷ˢ []ˢ) ∷ xs else onto_first c xs) ++ ms
line-append true c l ls xs ys ms e f = rw f refl
line-append false c l ls xs ys ms e f = rw (f, e) refl

no_return : (t : String) → before_newline 10 t ≡ false
no_return []ˢ = refl
no_return (d ∷ˢ t) = refl

pub split_lines-append :
    (s t : String) → is_ended s ≡ true → split_lines (append s t) ≡ split_lines s ++ split_lines t
unfolding split_lines
split_lines-append []ˢ t h = refl
split_lines-append (c ∷ˢ []ˢ) t h =
    let newline : code c ≡ 10 = ground (arith, eqb_iff (code c) 10) in
    rw (newline, no_return t) refl
split_lines-append (c ∷ˢ d ∷ˢ s) t h =
    let (l, ls, e) = split_nonempty d s in
    let ih = split_lines-append (d ∷ˢ s) t h in
    line-append (is_break (code c) && not (before_newline (code c) (d ∷ˢ s))) c l ls
      (split_lines (d ∷ˢ s)) (split_lines (append (d ∷ˢ s) t)) (split_lines t) e ih
