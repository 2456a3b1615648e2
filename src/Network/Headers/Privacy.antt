-- ===== src/Network/Headers/Privacy.antt =====
-- What the transport of privacy.go leaves of a request's headers.
use digital_ocean_bot.Prelude.{
  ◌≡◌, refl, sym, subst, inl, inr, Bool, true, false, ◌||◌, [], ◌∷◌, arith, if◌then◌else◌,
  Bool-cases,
}
use digital_ocean_bot.Network.Headers.{
  Name, Header, same_name, canonical, remove, del, is_blocked, has_forbidden_outbound_header,
  strip_names, privacy_headers,
}

pub has_name : Name → Header → Bool
has_name k [] = false
has_name k ((m, v) ∷ h) = same_name m k || has_name k h

same_name_refl : (n : Name) → same_name n n ≡ true
unfolding same_name
same_name_refl [] = refl
same_name_refl (a ∷ s) = ground (arith, same_name_refl s)

same_name_eq : (m n : Name) → same_name m n ≡ true → m ≡ n
unfolding same_name
same_name_eq [] [] e = refl
same_name_eq (a ∷ s) (b ∷ t) e = ground (arith, same_name_eq s t)
same_name_eq [] (b ∷ t) e = ground arith
same_name_eq (a ∷ s) [] e = ground arith

remove-has_name : (n : Name) (h : Header) → has_name n (remove n h) ≡ false
unfolding remove has_name
remove-has_name n [] = refl
remove-has_name n ((m, v) ∷ h) = ground (arith, remove-has_name n h)

-- Nothing is added by a removal.
remove_absent : (n k : Name) (h : Header) → has_name k h ≡ false → has_name k (remove n h) ≡ false
unfolding remove has_name
remove_absent n k [] a = refl
remove_absent n k ((m, v) ∷ h) a = ground (arith, remove_absent n k h)

strip_names_absent :
    (k : Name) (names clone : Header)
    → has_name k clone ≡ false
    → has_name k (strip_names names clone) ≡ false
unfolding strip_names
strip_names_absent k [] clone a = a
strip_names_absent k ((n, v) ∷ names) clone a = elim (Bool-cases (is_blocked n)) [
  | inl blocked ↦
      rw blocked (strip_names_absent k names (del n clone) (remove_absent (canonical n) k clone a))
  | inr fine ↦ rw fine (strip_names_absent k names clone a)
]

-- Every entry stands under a name in canonical form, as Set and Add put it.
unfoldable pub AllCanonical : Header → Type 0
AllCanonical [] = Unit {0}
AllCanonical ((n, v) ∷ h) = (canonical n ≡ n) × AllCanonical h

strip_names-has_name :
    (k : Name) (names clone : Header)
    → is_blocked k ≡ true
    → AllCanonical names
    → has_name k names ≡ true
    → has_name k (strip_names names clone) ≡ false
unfolding strip_names has_name AllCanonical
strip_names-has_name k [] clone b c e = ground arith
strip_names-has_name k ((n, v) ∷ names) clone b c e = elim (Bool-cases (same_name n k)) [
  | inl same ↦
      let eq = same_name_eq n k same in
      rw (eq, b)
        (strip_names_absent k names (del k clone) (
          subst (λ x. has_name k (remove x clone) ≡ false)
            (sym (subst (λ x. canonical x ≡ x) eq c.0)) (remove-has_name k clone)))
  | inr differ ↦
      let later : has_name k names ≡ true = ground arith in
      strip_names-has_name k names (if is_blocked n then del n clone else clone) b c.1 later
]

found :
    (h : Header)
    → has_forbidden_outbound_header h ≡ true
    → (k : Name) × (is_blocked k ≡ true) × (has_name k h ≡ true)
unfolding has_forbidden_outbound_header has_name
found [] e = ground arith
found ((n, v) ∷ h) e = elim (Bool-cases (is_blocked n)) [
  | inl b ↦ (n, b, ground (arith, same_name_refl n))
  | inr fine ↦ let (k, b, i) = found h (ground arith) in (k, b, ground arith)
]

-- A request whose header names are all in canonical form leaves the privacy transport with no
-- forbidden header.
pub has_forbidden_outbound_header-privacy_headers :
    (h : Header) → AllCanonical h → has_forbidden_outbound_header (privacy_headers h) ≡ false
unfolding privacy_headers
has_forbidden_outbound_header-privacy_headers h c =
    elim (Bool-cases (has_forbidden_outbound_header (strip_names h h))) [
      | inl bad ↦
          let (k, b, i) = found (strip_names h h) bad in
          elim (Bool-cases (has_name k h)) [
            | inl inside ↦ let gone = strip_names-has_name k h h b c inside in ground arith
            | inr outside ↦ let gone = strip_names_absent k h h outside in ground arith
          ]
      | inr fine ↦ fine
    ]
