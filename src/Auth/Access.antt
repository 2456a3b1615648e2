-- ===== src/Auth/Access.antt =====
-- Whom the middleware of internal/adminapi/auth.go lets pass.
use digital_ocean_bot.Prelude.{
  ℕ, String, ◌≡◌, refl, ◌⊎◌, inl, inr, Bool, true, false, ◌&&◌, ◌||◌, not, some, arith, str_eq,
  Bool-cases,
}
use digital_ocean_bot.Prelude.Int.{ℤ, ◌≤ℤ◌, ltb_ℤ}
use digital_ocean_bot.Sql.{scan_row, Result-cases, scan_row-ok}
use digital_ocean_bot.Auth.{
  let_in, Role, admin, operator, User, Session, Principal, World, Crypto, fault, tick, find_session,
  principal_of, admit, authenticate, require, can_write,
}

-- A session of an enabled user that has not expired, and whose role may write where it must.
pub record Granted (crypto : Crypto) (w : World) (token : String) (write : Bool) (p : Principal)
    : Type 0 where
  pub session : Session
  pub user : User
  pub found : find_session w (crypto.hash token) ≡ some (session, user)
  pub enabled : user.enabled ≡ true
  pub alive : w.sql.clock ≤ℤ session.expires_at
  pub may_write : (write ≡ false) ⊎ (user.role ≡ admin) ⊎ (user.role ≡ operator)
  pub named : p ≡ principal_of user session.id

can_write-cases : (r : Role) → can_write r ≡ true → (r ≡ admin) ⊎ (r ≡ operator)
unfolding can_write
can_write-cases Role.admin h = inl refl
can_write-cases Role.operator h = inr refl
can_write-cases Role.viewer h = absurd (ground arith)
can_write-cases (Role.other_role t) h = absurd (ground arith)

not_late : (now at : ℤ) → ltb_ℤ at now ≡ false → now ≤ℤ at
not_late now at h = ground arith

not_granted : (n : ℕ) (p : Principal) → ◌≡◌ {A = Principal ⊎ ℕ} (inr n) (inl p) → ⊥
not_granted n p h = cc

inl_injective : (p q : Principal) → ◌≡◌ {A = Principal ⊎ ℕ} (inl q) (inl p) → p ≡ q
inl_injective p q h = cc

writer :
    (write : Bool) (r : Role)
    → (write && not (can_write r)) ≡ false
    → (write ≡ false) ⊎ (r ≡ admin) ⊎ (r ≡ operator)
writer false r h = inl refl
writer true r h = inr (can_write-cases r (ground arith))

module _ (crypto : Crypto) where
  -- What holds of a session that is admitted and whose principal is let in.
  admit-Granted :
      (w : World) (token : String) (write : Bool) (p : Principal) (s : Session) (u : User)
      → find_session w (crypto.hash token) ≡ some (s, u)
      → (let_in write (admit crypto (tick w) (s, u))).1 ≡ inl p
      → Granted crypto w token write p
  unfolding admit
  admit-Granted w token write p s u found h =
      elim (Bool-cases (not u.enabled || ltb_ℤ s.expires_at w.sql.clock)) [
        | inl refused ↦ absurd (not_granted 401 p (rw (refused, admit) at h))
        | inr fine ↦ elim (Bool-cases (write && not (can_write u.role))) [
          | inl reader ↦ absurd (not_granted 403 p (rw (fine, admit, reader) at h))
          | inr may ↦
              let same : inl (principal_of u s.id) ≡ inl p = rw (fine, admit, may) at h in
              record {
                session = s;
                user = u;
                found = found;
                enabled = ground arith;
                alive = not_late w.sql.clock s.expires_at (ground arith);
                may_write = writer write u.role may;
                named = inl_injective p (principal_of u s.id) same;
              }
        ]
      ]

  -- Whenever the middleware calls a handler with a principal, the token's hash is that of a
  -- session whose user is enabled and which has not expired, the principal is that user's with
  -- that session, and if the route writes, the user is an admin or an operator.
  pub require-Granted :
      (w : World) (token : String) (write : Bool) (p : Principal)
      → (require crypto w token write).1 ≡ inl p
      → Granted crypto w token write p
  unfolding require authenticate
  require-Granted w token write p h = elim (Bool-cases (str_eq token "")) [
    | inl empty ↦ absurd (not_granted 401 p (rw (empty, require, authenticate) at h))
    | inr given ↦ elim (Result-cases (scan_row (fault w) (find_session w (crypto.hash token)))) [
      | inr (e, lost) ↦ absurd (not_granted 401 p (rw (given, require, authenticate, lost) at h))
      | inl ((s, u), row) ↦
          admit-Granted w token write p s u
            (scan_row-ok (fault w) (find_session w (crypto.hash token)) (s, u) row)
            (rw (given, require, authenticate, row) at h)
    ]
  ]
