-- ===== src/ChapterText/Span.antt =====
-- The span of a paragraph, read back.
use dockb.Prelude.{
  ℕ, String, ◌≡◌, refl, ap, inl, inr, Bool, true, false, not, none, some, arith, eqb, Bool-cases,
}
use Prim.Native.Char.{Char, code}
use Prim.Native.String.{[] as []ˢ, ◌∷◌ as ◌∷ˢ◌}
use dockb.Prelude.Text.{append}
use dockb.Prelude.Decimal.{all_chars}
use dockb.ChapterText.{escape_char, escape_html, after, until_char, until_text}

-- The character does not stand in the text.
abbrev pub Lacks : ℕ → String → Type 0
Lacks m s = all_chars (λ c. not (eqb c m)) s ≡ true

pub all_chars-append :
    (p : ℕ → Bool) (s t : String)
    → all_chars p s ≡ true
    → all_chars p t ≡ true
    → all_chars p (append s t) ≡ true
all_chars-append p []ˢ t hs ht = ht
all_chars-append p (c ∷ˢ s) t hs ht = ground (arith, all_chars-append p s t)

escape_char-holds :
    (p : ℕ → Bool) (c : Char)
    → all_chars p "&amp;&lt;&gt;&quot;&#x27;" ≡ true
    → (eqb (code c) b'<' ≡ false
        → eqb (code c) b'>' ≡ false
        → eqb (code c) b'"' ≡ false
        → p (code c) ≡ true)
    → all_chars p (escape_char c) ≡ true
unfolding escape_char
escape_char-holds p c h own = elim (Bool-cases (eqb (code c) b'&')) [
  | inl e1 ↦ rw (escape_char, e1) (ground (arith, h))
  | inr e1 ↦ elim (Bool-cases (eqb (code c) b'<')) [
    | inl e2 ↦ rw (escape_char, e1, e2) (ground (arith, h))
    | inr e2 ↦ elim (Bool-cases (eqb (code c) b'>')) [
      | inl e3 ↦ rw (escape_char, e1, e2, e3) (ground (arith, h))
      | inr e3 ↦ elim (Bool-cases (eqb (code c) b'"')) [
        | inl e4 ↦ rw (escape_char, e1, e2, e3, e4) (ground (arith, h))
        | inr e4 ↦ elim (Bool-cases (eqb (code c) 39)) [
          | inl e5 ↦ rw (escape_char, e1, e2, e3, e4, e5) (ground (arith, h))
          | inr e5 ↦
              rw (escape_char, e1, e2, e3, e4, e5)
                (let mine : p (code c) ≡ true = own e2 e3 e4 in ground (arith, mine))
        ]
      ]
    ]
  ]
]

-- What `escape` takes out of a text.
pub escaped_gt : (s : String) → Lacks b'>' (escape_html s)
unfolding escape_html
escaped_gt []ˢ = refl
escaped_gt (c ∷ˢ s) =
    all_chars-append (λ d. not (eqb d b'>')) (escape_char c) (escape_html s)
      (escape_char-holds (λ d. not (eqb d b'>')) c refl (λ e2 e3 e4. ap not e3)) (escaped_gt s)

pub escaped_lt : (s : String) → Lacks b'<' (escape_html s)
unfolding escape_html
escaped_lt []ˢ = refl
escaped_lt (c ∷ˢ s) =
    all_chars-append (λ d. not (eqb d b'<')) (escape_char c) (escape_html s)
      (escape_char-holds (λ d. not (eqb d b'<')) c refl (λ e2 e3 e4. ap not e2)) (escaped_lt s)

pub escaped_quote : (s : String) → Lacks b'"' (escape_html s)
unfolding escape_html
escaped_quote []ˢ = refl
escaped_quote (c ∷ˢ s) =
    all_chars-append (λ d. not (eqb d b'"')) (escape_char c) (escape_html s)
      (escape_char-holds (λ d. not (eqb d b'"')) c refl (λ e2 e3 e4. ap not e4)) (escaped_quote s)

pub escaped_eq : (s : String) → Lacks b'=' s → Lacks b'=' (escape_html s)
unfolding escape_html
escaped_eq []ˢ h = refl
escaped_eq (c ∷ˢ s) h =
    all_chars-append (λ d. not (eqb d b'=')) (escape_char c) (escape_html s)
      (escape_char-holds (λ d. not (eqb d b'=')) c refl (λ e2 e3 e4. ground (arith, h)))
      (escaped_eq s (ground (arith, h)))

pub after-append : (p s : String) → after p (append p s) ≡ some s
unfolding after
after-append []ˢ s = refl
after-append (c ∷ˢ p) s = ground (arith, after-append p s)

pub until_char-append :
    (m : ℕ) (t r : String) (x : Char)
    → Lacks m t
    → eqb (code x) m ≡ true
    → until_char m (append t (x ∷ˢ r)) ≡ some (t, r)
unfolding until_char
until_char-append m []ˢ r x h e = rw (until_char, e) refl
until_char-append m (c ∷ˢ t) r x h e =
    let other : eqb (code c) m ≡ false = ground (arith, h) in
    rw (until_char, other, until_char-append m t r x (ground (arith, h)) e) refl

pub until_text-append :
    (t : String) → Lacks b'<' t → until_text "</span>" (append t "</span>") ≡ some (t, []ˢ)
unfolding until_text after
until_text-append []ˢ h = refl
until_text-append (c ∷ˢ t) h =
    let other : after "</span>" (c ∷ˢ append t "</span>") ≡ none = ground (arith, h) in
    rw (until_text, other, until_text-append t (ground (arith, h))) refl
