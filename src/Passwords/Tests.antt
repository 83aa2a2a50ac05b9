-- ===== src/Passwords/Tests.antt =====
-- A toy hasher that meets the laws, and the policy at concrete passwords.
use Prim.Native.String.compare
use text.Mathlib.Text.{is_eq}
use Prim.Native.String.{◌++◌ as str_append, ◌∷◌ as ◌∷ˢ◌}
use dockb.Prelude.{◌≡◌, refl, ap, false, some, ◌==◌, eq_refl}
use dockb.Passwords.{Hasher, too_short, check_policy}

-- not a secure hash: it shows that the laws can be met
abbrev pub toy_hasher : Hasher
toy_hasher = record {
  keyed = λ pepper password. str_append pepper password;
  hash = λ salt k. "$" ∷ˢ k;
  verify = λ stored k. some (stored == ("$" ∷ˢ k));
  verify-hash = λ salt k. ap some (eq_refl ("$" ∷ˢ k));
  hash-not-empty = λ salt k i. is_eq (compare.cons-nil "$" k i);
}

too_short_at_eleven : check_policy "elevenchars" false ≡ some too_short
unfolding check_policy
too_short_at_eleven = refl
