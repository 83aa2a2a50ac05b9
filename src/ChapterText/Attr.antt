-- ===== src/ChapterText/Attr.antt =====
-- The attributes of a tag, looked up.
use dockb.Prelude.{
  String, ◌≡◌, refl, sym, ap, ◌∙◌, inl, inr, Bool, true, false, ◌&&◌, Option, none, some, arith,
  Bool-cases,
}
use Prim.Native.Char.{Char}
use Prim.Native.String.{[] as []ˢ, ◌∷◌ as ◌∷ˢ◌}
use dockb.Prelude.Text.{append, append_assoc}
use dockb.ChapterText.{after, behind_word, attr_from}
use dockb.ChapterText.Span.{Lacks, after-append, until_char-append}

-- A name with its quotes does not begin in a text that has no `=`, up to the quote behind it.
after-miss :
    (n u s : String)
    → Lacks b'"' n
    → Lacks b'"' u
    → Lacks b'=' u
    → after (append n "=\"") (append u ("\"" ∷ˢ s)) ≡ none
unfolding after
after-miss []ˢ []ˢ s hn hu he = refl
after-miss []ˢ (c ∷ˢ u) s hn hu he = ground (arith, he)
after-miss (m ∷ˢ n) []ˢ s hn hu he = ground (arith, hn)
after-miss (m ∷ˢ n) (c ∷ˢ u) s hn hu he = ground (
  arith,
  hn,
  hu,
  he,
  after-miss n u s (ground (arith, hn)) (ground (arith, hu)) (ground (arith, he)),
)

abbrev pub is_none : Option String → Bool
is_none none = true
is_none (some s) = false

-- The name with its quotes does not begin in the first text, with the second behind it.
abbrev pub clear_of : String → String → String → Bool
clear_of n []ˢ s = true
clear_of n (c ∷ˢ u) s = is_none (after (append n "=\"") (c ∷ˢ append u s)) && clear_of n u s

module _ (is_word : Char → Bool) (unescape : String → String) where
  abbrev pub last_of : Option Char → String → Option Char
  last_of prev []ˢ = prev
  last_of prev (c ∷ˢ u) = last_of (some c) u

  attr_from-step :
      (n : String) (prev : Option Char) (c : Char) (s : String)
      → after (append n "=\"") (c ∷ˢ s) ≡ none
      → attr_from is_word unescape n prev (c ∷ˢ s) ≡ attr_from is_word unescape n (some c) s
  unfolding attr_from
  attr_from-step n prev c s h = elim (Bool-cases (behind_word is_word unescape prev)) [
    | inl e ↦ rw (attr_from, e) refl
    | inr e ↦ rw (attr_from, e, h) refl
  ]

  pub attr_from-skip :
      (n : String) (prev : Option Char) (u s : String)
      → clear_of n u s ≡ true
      → attr_from is_word unescape n prev (append u s)
        ≡ attr_from is_word unescape n (last_of prev u) s
  attr_from-skip n prev []ˢ s h = refl
  attr_from-skip n prev (c ∷ˢ u) s h =
      attr_from-step n prev c (append u s) (ground (arith, h))
      ∙ attr_from-skip n (some c) u s (ground (arith, h))

  pub attr_from-hit :
      (c : Char) (m : String) (prev : Option Char) (t s : String)
      → behind_word is_word unescape prev ≡ false
      → Lacks b'"' t
      → attr_from is_word unescape
          (c ∷ˢ m)
          prev
          (c ∷ˢ append m (append "=\"" (append t ("\"" ∷ˢ s))))
        ≡ some (unescape t)
  unfolding attr_from
  attr_from-hit c m prev t s hb ht =
      let found : after (c ∷ˢ append m "=\"") (c ∷ˢ append m (append "=\"" (append t ("\"" ∷ˢ s))))
          ≡ some (append t ("\"" ∷ˢ s)) =
        ap (after (c ∷ˢ append m "=\"")) (sym (append_assoc (c ∷ˢ m) "=\"" (append t ("\"" ∷ˢ s))))
        ∙ (after-append (append (c ∷ˢ m) "=\"") (append t ("\"" ∷ˢ s))) in
      rw (attr_from, hb, found, until_char-append b'"' t s "\"" ht refl) refl

pub clear_of-value :
    (n u s : String) → Lacks b'"' n → Lacks b'"' u → Lacks b'=' u → clear_of n u ("\"" ∷ˢ s) ≡ true
clear_of-value n []ˢ s hn hu he = refl
clear_of-value n (c ∷ˢ u) s hn hu he =
    let miss : after (append n "=\"") (c ∷ˢ append u ("\"" ∷ˢ s)) ≡ none =
      after-miss n (c ∷ˢ u) s hn hu he in
    rw (miss, clear_of-value n u s hn (ground (arith, hu)) (ground (arith, he))) refl
