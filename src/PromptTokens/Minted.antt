-- ===== src/PromptTokens/Minted.antt =====
-- A token from its mint to its expiry.
use dockb.Prelude.{
  ℕ, ◌+◌, ◌<◌, String, ◌≡◌, refl, sym, ap, ap₂, ◌∙◌, inl, inr, Bool, true, false, ◌||◌, Option,
  none, some, List, [], ◌∷◌, arith, ◌==◌, eq_refl, leb, eqb, Bool-cases, All,
}
use dockb.Prelude.Text.{strip, is_empty}
use dockb.Prelude.Decimal.{decimal, number, number-decimal, all_chars, decimal-decimal}
use dockb.PromptTokens.{
  Live, Issuer, valid, malformed, characters, parse, is_ascii, dotted, entry, prune, token_of,
  add_live, mint, check_fields, answer, prompt_id_of, account_in, check, verify, account_of,
}
use dockb.PromptTokens.Fields.{dot_free, decimal-dot_free, parse-dotted}
use dockb.PromptTokens.Verified.{entry-add_live_self, entry-add_live_other, entry-prune}

module _ (mac : String → String → String) (is_digit : String → Bool)
    (int_of : String → Option ℕ) where
  -- What the code relies on: the digest is 64 ASCII characters without a dot, and `isdigit` and
  -- `int` read what `str` writes of a number.
  pub record Documented : Type 0 where
    pub mac_length : (key signed : String) → characters (mac key signed) ≡ 64
    pub mac_ascii : (key signed : String) → all_chars is_ascii (mac key signed) ≡ true
    pub mac_dots : (key signed : String) → dot_free (mac key signed) ≡ true
    pub digits : (n : ℕ) → is_digit (decimal n) ≡ true
    pub reads : (n : ℕ) → int_of (decimal n) ≡ some n

  -- A token of a live entry is valid until its expiry.
  check_live :
      (n now : ℕ) (p : String) (live : Live) (issuer : Issuer)
      → Documented
      → is_empty p ≡ false
      → entry (decimal n) p issuer ≡ some live
      → now < n
      → check mac is_digit int_of (token_of mac (decimal n) p live.secret) now issuer ≡ valid
  unfolding check
  check_live n now p live issuer doc named kept before =
      let e = decimal n in
      let m = mac live.secret (dotted e p) in
      let fields =
        parse-dotted e p m (decimal-dot_free e (decimal-decimal n)) named
          (doc.mac_dots live.secret (dotted e p)) in
      let early : leb n now ≡ false = ground (arith, before) in
      let sized : eqb (characters m) 64 ≡ true =
        ground (arith, doc.mac_length live.secret (dotted e p)) in
      ap (λ o. elim o [ none ↦ malformed | some x ↦ check_fields mac is_digit int_of x now issuer ])
        fields
      ∙ rw
          (
            doc.digits n,
            sized,
            doc.reads n,
            early,
            kept,
            doc.mac_ascii live.secret (dotted e p),
            eq_refl m,
          )
          refl

  -- The mints after one, each with its time.
  pub record Mint : Type 0 where
    pub id : String
    pub account : String
    pub secret : String
    pub at : ℕ

  abbrev pub mint_next : ℕ → Mint → Issuer → Issuer
  mint_next ttl m issuer = elim (mint mac ttl m.id m.account m.secret m.at issuer) [
    | none ↦ issuer
    | some (token, issuer') ↦ issuer'
  ]

  abbrev pub mint_all : ℕ → List Mint → Issuer → Issuer
  mint_all ttl [] issuer = issuer
  mint_all ttl (m ∷ ms) issuer = mint_all ttl ms (mint_next ttl m issuer)

  abbrev pub Later : String → ℕ → Mint → Type 0
  Later p n m = ((m.id == p) ≡ false) × (m.at < n)

  entry-mint_next :
      (ttl n : ℕ) (p : String) (m : Mint) (issuer : Issuer)
      → Later p n m
      → entry (decimal n) p (mint_next ttl m issuer) ≡ entry (decimal n) p issuer
  unfolding mint
  entry-mint_next ttl n p m issuer (apart, early) =
      let e' = decimal (m.at + ttl) in
      let live : Live = record { secret = m.secret; account = strip m.account } in
      let stays =
        entry-add_live_other (decimal n) e' p m.id live (prune m.at issuer)
          (ground (arith, apart)) in
      let before : m.at < number (decimal n) = rw (number-decimal n) early in
      elim (Bool-cases (is_empty m.account || is_empty (strip m.account))) [
        | inl refused ↦ rw (mint_next, mint, refused) refl
        | inr taken ↦
            rw (mint_next, mint, taken) (stays ∙ entry-prune (decimal n) p m.at issuer before)
      ]

  entry-mint_all :
      (ttl n : ℕ) (p : String) (ms : List Mint) (issuer : Issuer)
      → All (Later p n) ms
      → entry (decimal n) p (mint_all ttl ms issuer) ≡ entry (decimal n) p issuer
  entry-mint_all ttl n p [] issuer h = refl
  entry-mint_all ttl n p (m ∷ ms) issuer h =
      entry-mint_all ttl n p ms (mint_next ttl m issuer) h.1 ∙ entry-mint_next ttl n p m issuer h.0

  mint_done :
      (ttl now : ℕ) (p account secret token : String) (issuer issuer' : Issuer)
      → mint mac ttl p account secret now issuer ≡ some (token, issuer')
      → (token ≡ token_of mac (decimal (now + ttl)) p secret)
        × (entry (decimal (now + ttl)) p issuer'
            ≡ some (record { secret = secret; account = strip account }))
  unfolding mint
  mint_done ttl now p account secret token issuer issuer' h =
      let e = decimal (now + ttl) in
      let live : Live = record { secret = secret; account = strip account } in
      elim (Bool-cases (is_empty account || is_empty (strip account))) [
        | inl refused ↦ absurd (ground (arith, (rw (mint, refused) at h)))
        | inr taken ↦
            let made : some (token_of mac e p secret, add_live e p live (prune now issuer))
                ≡ some (token, issuer') =
              rw (mint, taken) at h in
            (
              ap (λ o. elim o [ none ↦ token | some x ↦ x.0 ]) (sym made),
              ap (λ o. elim o [ none ↦ none | some x ↦ entry e p x.1 ]) (sym made)
                  ∙ entry-add_live_self e p live (prune now issuer),
            )
      ]

  -- A minted token, whatever is minted after it for other prompts, names its prompt and its
  -- account until its expiry, given a digest of 64 ASCII characters without a dot.
  pub verify-mint :
      (ttl now later : ℕ) (p account secret token : String) (issuer issuer' : Issuer)
      (ms : List Mint)
      → Documented
      → mint mac ttl p account secret now issuer ≡ some (token, issuer')
      → is_empty p ≡ false
      → All (Later p (now + ttl)) ms
      → later < now + ttl
      → (verify mac is_digit int_of token later (mint_all ttl ms issuer') ≡ inr (some p))
        × (account_of mac is_digit int_of token later (mint_all ttl ms issuer')
            ≡ inr (some (strip account)))
  unfolding mint verify account_of prompt_id_of
  verify-mint ttl now later p account secret token issuer issuer' ms doc minted named others
        before =
      let e = decimal (now + ttl) in
      let live : Live = record { secret = secret; account = strip account } in
      let after = mint_all ttl ms issuer' in
      let (built, kept') = mint_done ttl now p account secret token issuer issuer' minted in
      let kept : entry e p after ≡ some live =
        entry-mint_all ttl (now + ttl) p ms issuer' others ∙ kept' in
      let ok =
        ap (λ x. check mac is_digit int_of x later after) built
        ∙ check_live (now + ttl) later p live after doc named kept before in
      let m = mac secret (dotted e p) in
      let fields =
        ap parse built
        ∙ parse-dotted e p m (decimal-dot_free e (decimal-decimal (now + ttl))) named
            (doc.mac_dots secret (dotted e p)) in
      (
        ap₂ answer ok (ap some (rw (prompt_id_of, fields) refl)),
        ap₂ answer ok (ap (λ o. account_in o after) fields ∙ rw (account_in, kept) refl),
      )
