-- ===== src/Config/Expands.antt =====
-- What expandEnv does to a reference.
use sms_gate.Prelude.{
  All, ◌≡◌, ◌<◌, refl, sym, ap, ◌∙◌, true, false, some, [], ◌∷◌, ◌++◌, ltb, ◌==◌, length, arith,
}
use sms_gate.Prelude.Text.{codes}
use sms_gate.Config.{
  Text, Environment, outside, in_name, is_name_char, emit, substitute, expand_from, expand_env,
}

append_assoc : (xs ys zs : Text) → (xs ++ ys) ++ zs ≡ xs ++ (ys ++ zs)
append_assoc [] ys zs = refl
append_assoc (x ∷ xs) ys zs = ap (◌∷◌ x) (append_assoc xs ys zs)

append-nil : (xs : Text) → xs ++ [] ≡ xs
append-nil [] = refl
append-nil (x ∷ xs) = ap (◌∷◌ x) (append-nil xs)

module _ (env : Environment) where
  expand_from-outside :
      (pre s : Text)
      → All (λ c. (c == b'$') ≡ false) pre
      → expand_from env outside (pre ++ s) ≡ emit pre (expand_from env outside s)
  unfolding expand_from
  expand_from-outside [] s h = refl
  expand_from-outside (c ∷ pre) s (hc, h) = rw (hc, expand_from-outside pre s h) refl

  expand_from-in_name :
      (acc name post : Text)
      → All (λ c. is_name_char c ≡ true) name
      → 0 < length (acc ++ name)
      → expand_from env (in_name acc) (name ++ b'}' ∷ post)
        ≡ substitute (env (acc ++ name)) (acc ++ name) (expand_from env outside post)
  unfolding expand_from
  expand_from-in_name acc [] post h some_char =
      let full : ltb 0 (length acc) ≡ true = ground (arith, rw (append-nil acc) at some_char) in
      rw (append-nil acc, full) refl
  expand_from-in_name acc (c ∷ name) post (hc, h) some_char =
      let moved = append_assoc acc (c ∷ []) name in
      rw (hc, sym moved) (expand_from-in_name (acc ++ c ∷ []) name post h (rw moved some_char))

  -- A reference to a variable that is set, after any text without `$`, is replaced by the variable's
  -- value, which is not expanded again; what follows is expanded on its own.
  pub expand_env-reference :
      (pre name post value : Text)
      → All (λ c. (c == b'$') ≡ false) pre
      → All (λ c. is_name_char c ≡ true) name
      → 0 < length name
      → env name ≡ some value
      → expand_env env (pre ++ (codes "${" ++ (name ++ b'}' ∷ post)))
        ≡ emit pre (emit value (expand_env env post))
  unfolding expand_env expand_from substitute
  expand_env-reference pre name post value plain chars some_char e =
      expand_from-outside pre (codes "${" ++ (name ++ b'}' ∷ post)) plain
      ∙ ap (λ x. emit pre x) (rw (expand_from-in_name [] name post chars some_char, e) refl)
