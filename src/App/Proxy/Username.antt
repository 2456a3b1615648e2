-- ===== src/App/Proxy/Username.antt =====
-- A user name that is decorated twice.
use digital_ocean_bot.Prelude.{
  ℕ, ◌≡◌, refl, ap, subst, ◌⊎◌, inl, inr, Bool, true, false, ◌&&◌, not, List, [], ◌∷◌, ◌++◌, arith,
  ◌==◌, Bool-cases,
}
use digital_ocean_bot.App.Proxy.{
  Adapter, generic, suffix_session, SessionRequest, underscore, cut, parts, join, decorate,
  username,
}

unfoldable pub ends_in_underscore : List ℕ → Bool
ends_in_underscore [] = false
ends_in_underscore (a ∷ []) = a == underscore
ends_in_underscore (a ∷ b ∷ s) = ends_in_underscore (b ∷ s)

-- No two underscores in a row and none at the end.
is_clean : List ℕ → Bool
is_clean [] = true
is_clean (a ∷ []) = not (a == underscore)
is_clean (a ∷ b ∷ s) = not (a == underscore && b == underscore) && is_clean (b ∷ s)

cut-append_clean : (s t : List ℕ) → is_clean s ≡ true → cut (s ++ underscore ∷ underscore ∷ t) ≡ s
unfolding cut is_clean
cut-append_clean [] t h = refl
cut-append_clean (a ∷ []) t h = ground arith
cut-append_clean (a ∷ b ∷ s) t h = ground (arith, cut-append_clean (b ∷ s) t)

cut_clean : (s : List ℕ) → is_clean s ≡ true → cut s ≡ s
unfolding cut is_clean
cut_clean [] h = refl
cut_clean (a ∷ []) h = refl
cut_clean (a ∷ b ∷ s) h = ground (arith, cut_clean (b ∷ s))

cut_head : (b : ℕ) (s : List ℕ) → (cut (b ∷ s) ≡ []) ⊎ ((r' : List ℕ) × (cut (b ∷ s) ≡ b ∷ r'))
unfolding cut
cut_head b [] = inr ([], refl)
cut_head b (c ∷ s) = elim (Bool-cases (b == underscore && c == underscore)) [
  | inl e ↦ inl (rw e refl)
  | inr e ↦ inr (cut (c ∷ s), rw e refl)
]

-- What `cut` leaves is clean, but for an underscore at the end.
is_clean-cons :
    (a b : ℕ) (r : List ℕ)
    → (a == underscore && b == underscore) ≡ false
    → (ends_in_underscore (b ∷ r) ≡ false → is_clean (b ∷ r) ≡ true)
    → ends_in_underscore (a ∷ b ∷ r) ≡ false
    → is_clean (a ∷ b ∷ r) ≡ true
unfolding ends_in_underscore is_clean
is_clean-cons a b r apart ih h = ground (arith, ih h)

is_clean-cut : (s : List ℕ) → ends_in_underscore (cut s) ≡ false → is_clean (cut s) ≡ true
unfolding cut is_clean ends_in_underscore
is_clean-cut [] h = refl
is_clean-cut (a ∷ []) h = ground arith
is_clean-cut (a ∷ b ∷ s) h = elim (Bool-cases (a == underscore && b == underscore)) [
  | inl e ↦ rw e refl
  | inr e ↦
      let ends : ends_in_underscore (a ∷ cut (b ∷ s)) ≡ false = rw e at h in
      elim (cut_head b s) [
        | inl empty ↦
            let alone : ends_in_underscore (a ∷ []) ≡ false = rw empty at ends in
            rw (e, empty) (ground arith)
        | inr (r, found) ↦
            let ih : ends_in_underscore (b ∷ r) ≡ false → is_clean (b ∷ r) ≡ true =
              subst (λ k. ends_in_underscore k ≡ false → is_clean k ≡ true) (found)
                (is_clean-cut (b ∷ s)) in
            let tail : ends_in_underscore (a ∷ b ∷ r) ≡ false = rw found at ends in
            rw (e, found) (is_clean-cons a b r e ih tail)
      ]
]

cut-append :
    (s t : List ℕ)
    → ends_in_underscore (cut s) ≡ false
    → cut (cut s ++ underscore ∷ underscore ∷ t) ≡ cut s
cut-append s t h = cut-append_clean (cut s) t (is_clean-cut s h)

cut-decorate :
    (s : List ℕ) (ps : List (List ℕ))
    → ends_in_underscore (cut s) ≡ false
    → cut (decorate (cut s) ps) ≡ cut s
unfolding decorate
cut-decorate s [] h = cut_clean (cut s) (is_clean-cut s h)
cut-decorate s (p ∷ ps) h = cut-append s (join (p ∷ ps)) h

-- A user name that an adapter has built serves as the base of another one like the name that it
-- was built from: what the first request added is cut off again. For the base's part in front of
-- its first two underscores this supposes that it does not end in an underscore.
pub username-username :
    (a : Adapter) (r earlier : SessionRequest)
    → ends_in_underscore (cut earlier.base_username) ≡ false
    → username a (record r { base_username = username a earlier })
      ≡ username a (record r { base_username = earlier.base_username })
unfolding username
username-username generic r earlier h = refl
username-username suffix_session r earlier h =
    ap (λ b. decorate b (parts r)) (cut-decorate earlier.base_username (parts earlier) h)
