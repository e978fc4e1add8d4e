-- ===== src/Policy/Engine/Paths.antt =====
-- The path prefixes of a policy.
use hyproxy.Base.{
  ◌≡◌, refl, ◌↔◌, ◌⊎◌, inl, inr, true, ◌∷◌, [], ◌++◌, Text, text_eq, text_eq_iff, starts_with,
  starts_with_rest, starts_with-append, drop_while_end, arith, ◌==◌, Bool-cases, ◌≢◌, append_assoc,
  ◌∙◌,
}
use hyproxy.Policy.Engine.{under_prefix}

abbrev pub strip_slashes : Text → Text
strip_slashes = drop_while_end (λ c. c == b'/')

strip_slashes-slash : strip_slashes (b'/' ∷ []) ≡ []
unfolding drop_while_end
strip_slashes-slash = refl

below→under : (p r : Text) → starts_with (p ++ b'/' ∷ []) (p ++ b'/' ∷ r) ≡ true
below→under p r = rw (← append_assoc p (b'/' ∷ []) r) (starts_with-append (p ++ b'/' ∷ []) r)

-- A prefix with no slash at its end, which is not the root, admits itself and what lies below it at a
-- segment boundary, and nothing else.
pub under_prefix_iff :
    (path prefix : Text)
    → strip_slashes prefix ≡ prefix
    → prefix ≢ b'/' ∷ []
    → (under_prefix path prefix ≡ true)
      ↔ ((path ≡ prefix) ⊎ ((r : Text) × (path ≡ prefix ++ b'/' ∷ r)))
unfolding under_prefix
under_prefix_iff path prefix bare not_root = (forward, backward)
  where
    forward :
        under_prefix path prefix ≡ true
        → (path ≡ prefix) ⊎ ((r : Text) × (path ≡ prefix ++ b'/' ∷ r))
    forward h = elim (Bool-cases (text_eq path prefix)) [
      | inl e ↦ inl ((text_eq_iff path prefix).0 e)
      | inr e ↦
          let below : starts_with (prefix ++ b'/' ∷ []) path ≡ true =
            ground (arith, text_eq_iff prefix (b'/' ∷ []), bare) in
          let (r, eq) = starts_with_rest (prefix ++ b'/' ∷ []) path below in
          inr (r, eq ∙ append_assoc prefix (b'/' ∷ []) r)
    ]

    backward :
        (path ≡ prefix) ⊎ ((r : Text) × (path ≡ prefix ++ b'/' ∷ r))
        → under_prefix path prefix ≡ true
    backward (inl e) = ground (arith, text_eq_iff path prefix)
    backward (inr (r, e)) = rw (e, bare) (ground (arith, below→under prefix r))
