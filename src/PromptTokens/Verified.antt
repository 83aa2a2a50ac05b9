-- ===== src/PromptTokens/Verified.antt =====
-- Which tokens the issuer accepts.
use dockb.Prelude.{
  ℕ, ◌<◌, String, ◌≡◌, refl, sym, ap, ap₂, ◌∙◌, inl, inr, Bool, false, ◌&&◌, Option, none, some, [],
  ◌∷◌, arith, ◌==◌, eq_iff, eq_refl, leb, eqb, if◌then◌else◌, Bool-cases, Option-cases, keep_if,
}
use dockb.Prelude.Decimal.{number, all_chars}
use dockb.Dict
use dockb.Dict.{Dict, get-set, get-set_self}
use dockb.PromptTokens.{
  Live, Issuer, Check, valid, malformed, expired, no_live_entry, mac_mismatch, value_error,
  type_error, characters, parse, is_ascii, compare_digest, dotted, entry, prune, prompts_of,
  token_of, add_live, compared, check_fields, answer, prompt_id_of, account_in, check, verify,
  account_of,
}
use dockb.PromptTokens.Fields.{parse-Spelled}

get-prune :
    (e : String) (now : ℕ) (issuer : Issuer)
    → Dict.get e (prune now issuer) ≡ (if leb (number e) now then none else Dict.get e issuer)
unfolding prune keep_if Dict.get
get-prune e now [] = ground arith
get-prune e now ((k, d) ∷ issuer) = ground (arith, get-prune e now issuer, eq_iff k e)

pub entry-prune :
    (e p : String) (now : ℕ) (issuer : Issuer)
    → now < number e
    → entry e p (prune now issuer) ≡ entry e p issuer
unfolding entry
entry-prune e p now issuer h = ground (arith, get-prune e now issuer, h)

prompts_of-set :
    (e e' : String) (d : Dict Live) (issuer : Issuer)
    → prompts_of e (Dict.set e' d issuer) ≡ (if e' == e then d else prompts_of e issuer)
prompts_of-set e e' d issuer = ground (arith, get-set e' e d issuer)

pub entry-add_live_self :
    (e p : String) (live : Live) (issuer : Issuer)
    → entry e p (add_live e p live issuer) ≡ some live
unfolding entry
entry-add_live_self e p live issuer =
    let d = Dict.set p live (prompts_of e issuer) in
    ap (Dict.get p) (prompts_of-set e e d issuer ∙ rw (eq_refl e) refl)
    ∙ get-set_self p live (prompts_of e issuer)

pub entry-add_live_other :
    (e e' p p' : String) (live : Live) (issuer : Issuer)
    → (e' == e) && (p' == p) ≡ false
    → entry e p (add_live e' p' live issuer) ≡ entry e p issuer
unfolding entry
entry-add_live_other e e' p p' live issuer h =
    let d = Dict.set p' live (prompts_of e' issuer) in
    let at = prompts_of-set e e' d issuer in
    elim (Bool-cases (e' == e)) [
      | inr other ↦ ap (Dict.get p) (at ∙ rw other refl)
      | inl same ↦
          let apart : (p' == p) ≡ false = ground (arith, h, same) in
          let e_same : e' ≡ e = (eq_iff e' e).0 same in
          ap (Dict.get p) (at ∙ rw same refl)
          ∙ get-set p' p live (prompts_of e' issuer)
          ∙ rw apart (ap (λ x. Dict.get p (prompts_of x issuer)) e_same)
    ]

module _ (mac : String → String → String) (is_digit : String → Bool)
    (int_of : String → Option ℕ) where
  -- A token of a live entry, at a time before its expiry.
  pub record Issued (token prompt_id : String) (live : Live) (now : ℕ) (issuer : Issuer)
      : Type 0 where
    pub expiry : String
    pub until : ℕ
    pub built : token ≡ token_of mac expiry prompt_id live.secret
    pub kept : entry expiry prompt_id issuer ≡ some live
    pub read : int_of expiry ≡ some until
    pub before : now < until

  -- The fields of a token that is valid.
  record Passed (fields : String × String × String) (now : ℕ) (issuer : Issuer) : Type 0 where
    live : Live
    until : ℕ
    kept : entry fields.0 fields.1 issuer ≡ some live
    read : int_of fields.0 ≡ some until
    before : now < until
    same : mac live.secret (dotted fields.0 fields.1) ≡ fields.2

  compared-valid : (a b : String) → compared (compare_digest a b) ≡ valid → a ≡ b
  compared-valid a b h = (eq_iff a b).0 (elim (Bool-cases (all_chars is_ascii b)) [
    | inl ascii ↦ ground (arith, h, ascii)
    | inr other ↦ ground (arith, h, other)
  ])

  check_fields-Passed :
      (fields : String × String × String) (now : ℕ) (issuer : Issuer)
      → check_fields mac is_digit int_of fields now issuer ≡ valid
      → Passed fields now issuer
  check_fields-Passed (e, p, m) now issuer h =
      elim (Bool-cases (is_digit e && eqb (characters m) 64)) [
        | inr bad ↦ absurd (ground (arith, h, bad))
        | inl good ↦ elim (Option-cases (int_of e)) [
          | inl raises ↦ absurd (ground (arith, h, good, raises))
          | inr (until, read) ↦ elim (Bool-cases (leb until now)) [
            | inl late ↦ absurd (ground (arith, h, good, read, late))
            | inr early ↦ elim (Option-cases (entry e p issuer)) [
              | inl gone ↦ absurd (ground (arith, h, good, read, early, gone))
              | inr (live, kept) ↦ record {
                live = live;
                until = until;
                kept = kept;
                read = read;
                before = ground (arith, early);
                same =
                    compared-valid (mac live.secret (dotted e p)) m
                      (ground (arith, h, good, read, early, kept));
              }
            ]
          ]
        ]
      ]

  answer-valid :
      (c : Check) (accepted : Option String) (p : String)
      → answer c accepted ≡ inr (some p)
      → (c ≡ valid) × (accepted ≡ some p)
  answer-valid valid accepted p h = (refl, ground arith)
  answer-valid malformed accepted p h = cc
  answer-valid expired accepted p h = cc
  answer-valid no_live_entry accepted p h = cc
  answer-valid mac_mismatch accepted p h = cc
  answer-valid value_error accepted p h = cc
  answer-valid type_error accepted p h = cc

  -- An accepted token is the one that the issuer would build of the prompt that is answered and a
  -- live entry, before its expiry, and its account is that of the entry.
  pub verify-Issued :
      (token prompt_id : String) (now : ℕ) (issuer : Issuer)
      → verify mac is_digit int_of token now issuer ≡ inr (some prompt_id)
      → (live : Live) × Issued token prompt_id live now issuer
        × (account_of mac is_digit int_of token now issuer ≡ inr (some live.account))
  unfolding verify account_of check prompt_id_of
  verify-Issued token prompt_id now issuer h =
      let (ok, named) = answer-valid (check mac is_digit int_of token now issuer) _ prompt_id h in
      elim (Option-cases (parse token)) [
        | inl bad ↦ absurd (ground (arith, (rw (check, bad) at ok)))
        | inr ((e, p, m), fields) ↦
            let passed = check_fields-Passed (e, p, m) now issuer (rw (check, fields) at ok) in
            let spelled : token ≡ dotted e (dotted p m) = rw fields at (parse-Spelled token) in
            let same : p ≡ prompt_id =
              let at : prompt_id_of token ≡ p = rw (prompt_id_of, fields) refl in
              sym at ∙ ap (λ o. elim o [ none ↦ p | some x ↦ x ]) named in
            let live = passed.live in
            (
              live,
              record {
                expiry = e;
                until = passed.until;
                built =
                    spelled
                    ∙ ap (λ x. dotted e (dotted p x)) (sym passed.same)
                    ∙ ap (λ x. token_of mac e x live.secret) same;
                kept = ap (λ x. entry e x issuer) (sym same) ∙ passed.kept;
                read = passed.read;
                before = passed.before;
              },
              ap₂ answer ok
                  (ap (λ o. account_in o issuer) fields ∙ rw (account_in, passed.kept) refl),
            )
      ]
