-- ===== src/PromptTokens/Tests.antt =====
-- An issuer with a five-second life, and a digest of one letter.
use dockb.Prelude.{
  ℕ, String, ◌≡◌, refl, ap, inr, Bool, Option, none, some, List, [], ◌∷◌, arith, if◌then◌else◌,
  keep_if,
}
use dockb.Prelude.Text.{strip, lstrip, rstrip, is_space}
use dockb.Prelude.Decimal.{
  decimal, digits, digit, number, number-decimal, all_chars, is_decimal, decimal-decimal,
}
use dockb.Dict
use dockb.PromptTokens
use dockb.PromptTokens.{
  Live, Issuer, partition, rpartition, entry, prune, token_of, mint, check, prompt_id_of, verify,
  account_of,
}
use dockb.PromptTokens.Verified.{Issued, verify-Issued}
use dockb.PromptTokens.Minted.{Documented, Mint, mint_all, verify-mint}

abbrev mac : String → String → String
mac key signed = "aaaaaaaaaaaaaaaaaaaaaaaaaaaaaaaaaaaaaaaaaaaaaaaaaaaaaaaaaaaaaaaa"

abbrev is_digit : String → Bool
is_digit s = all_chars is_decimal s

abbrev int_of : String → Option ℕ
int_of s = if all_chars is_decimal s then some (number s) else none

documented : Documented mac is_digit int_of
documented = record {
  mac_length = λ key signed. refl;
  mac_ascii = λ key signed. refl;
  mac_dots = λ key signed. refl;
  digits = λ n. decimal-decimal n;
  reads = λ n. rw (decimal-decimal n) (ap some (number-decimal n));
}

abbrev issuer : Issuer
issuer = ("12", ("a.b", record { secret = "k"; account = "me" }) ∷ []) ∷ []

abbrev others : List (Mint mac is_digit int_of)
others = record { id = "other"; account = "you"; secret = "l"; at = 11 } ∷ []

verify-mint_example :
    (verify mac is_digit int_of
        (token_of mac "12" "a.b" "k")
        11
        (mint_all mac is_digit int_of 5 others issuer)
      ≡ inr (some "a.b"))
    × (account_of mac is_digit int_of
          (token_of mac "12" "a.b" "k")
          11
          (mint_all mac is_digit int_of 5 others issuer)
        ≡ inr (some "me"))
unfolding mint prune strip lstrip rstrip is_space decimal digits digit Dict.set Dict.get keep_if
verify-mint_example =
    verify-mint mac is_digit int_of 5 7 11 "a.b" " me " "k" (token_of mac "12" "a.b" "k") [] issuer
      others documented refl refl ((refl, omega arith), tt) (omega arith)

verify-Issued_example :
    (live : Live) × Issued mac is_digit int_of (token_of mac "12" "a.b" "k") "a.b" live 11 issuer
    × (account_of mac is_digit int_of (token_of mac "12" "a.b" "k") 11 issuer
        ≡ inr (some live.account))
unfolding verify check prompt_id_of PromptTokens.parse partition rpartition entry Dict.get
verify-Issued_example =
    verify-Issued mac is_digit int_of (token_of mac "12" "a.b" "k") "a.b" 11 issuer refl
