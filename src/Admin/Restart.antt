-- ===== src/Admin/Restart.antt =====
-- server/admin.go: the password of the dashboard over a restart.
use nvda_remote_go.Prelude.{
  bytes_eq_refl, ◌≡◌, refl, Bytes, Bool, true, false, some, [], ◌∷◌, ◌++◌, is_empty, Option-cases,
  inl, inr,
}
use nvda_remote_go.Admin.Account.{
  Account, Crypt, set_admin_password, load_admin_password, check_admin_credentials, admin_username,
}

-- A new process finds the file, and nothing in memory.
abbrev pub restarted : Account → Account
restarted a = record a { password_hash = []; sessions = [] }

module _ (crypt : Crypt) where
  -- What the code relies on of bcrypt: a hash matches its password, and has no blank at its ends.
  pub record IsBcrypt : Type 0 where
    pub matches : (p h : Bytes) → crypt.generate p ≡ some h → crypt.compare h p ≡ true
    pub not_empty : (p h : Bytes) → crypt.generate p ≡ some h → is_empty h ≡ false
    pub is_trimmed : (p h : Bytes) → crypt.generate p ≡ some h → crypt.trim_space (h ++ 10 ∷ []) ≡ h

  -- A password that was set, with a file to keep it, is the administrator's password when the server
  -- starts again.
  pub load-set_admin_password :
      (writable : Bool) (p : Bytes) (a : Account)
      → IsBcrypt
      → a.has_file ≡ true
      → (set_admin_password crypt writable p a).1 ≡ true
      → check_admin_credentials crypt admin_username p
          (load_admin_password crypt (restarted (set_admin_password crypt writable p a).0))
        ≡ true
  unfolding set_admin_password load_admin_password check_admin_credentials
  load-set_admin_password false p a c file ok = elim (Option-cases (crypt.generate p)) [
    | inl failed ↦ absurd (let no = rw failed at ok in cc)
    | inr (h, hashed) ↦ absurd (let no = rw (hashed, file) at ok in cc)
  ]
  load-set_admin_password true p a c file ok = elim (Option-cases (crypt.generate p)) [
    | inl failed ↦ absurd (let no = rw failed at ok in cc)
    | inr (h, hashed) ↦
        rw (hashed, file, c.is_trimmed p h hashed, c.not_empty p h hashed, c.matches p h hashed)
          (rw (bytes_eq_refl admin_username, c.not_empty p h hashed) refl)
  ]
