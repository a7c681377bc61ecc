-- ===== src/Profile/Password.antt =====
-- profile.service.ts, `changePassword`.
use node_vms.Prelude.{ℕ, ◌≡◌, ◌≢◌, inl, inr, true, none, arith, Listed, Option-cases}
use node_vms.Schema.{User}
use node_vms.Database.Client.{Client}
use node_vms.Database.Errors.{ok}
use node_vms.Database.Action.{Db}
use node_vms.Database.Pairs.{Listed-update_elim}
use node_vms.Auth.Crypto.{Bcrypt}
use node_vms.Profile.{
  ChangePasswordDto, is_live, has_key, with_hash, find_active_user, change_password,
}

module _ (c : Client) (b : Bcrypt) (salt user_id : ℕ) (dto : ChangePasswordDto) (s : Db)
    (done : (change_password c b salt user_id dto s).0 ≡ ok tt) where
  -- The rows of the table afterwards, by their keys.
  rehashed :
      (v : User)
      → Listed v (c.update (has_key user_id) (with_hash (b.hash salt dto.new_password)) s.users)
      → v.id ≡ user_id
      → b.compare dto.new_password v.password ≡ true
  rehashed =
      Listed-update_elim c (λ v. v.id ≡ user_id → b.compare dto.new_password v.password ≡ true)
        (has_key user_id) (with_hash (b.hash salt dto.new_password)) s.users
        (λ a m k e. b.compare-hash salt dto.new_password) (λ a m k e. absurd (ground arith))

  -- An accepted change of password names a live account whose stored password is the given current
  -- one, gives a new password that differs from it, and afterwards bcrypt accepts the new password
  -- for the account.
  pub change_password_sound :
      (u : User) × Listed u s.users
      × (u.id ≡ user_id)
      × (u.deleted_at ≡ none)
      × (b.compare dto.current_password u.password ≡ true)
      × (dto.current_password ≢ dto.new_password)
      × ((v : User)
          → Listed v (change_password c b salt user_id dto s).1.users
          → v.id ≡ user_id
          → b.compare dto.new_password v.password ≡ true)
  unfolding change_password find_active_user
  change_password_sound = elim (Option-cases (c.find_first (is_live user_id) s.users)) [
    | inl e ↦ absurd (ground arith)
    | inr (u, e) ↦
        let (m, k) = c.find_first-some _ _ u e in
        (
          u,
          m,
          ground arith,
          ground arith,
          ground arith,
          λ same. ground arith,
          λ v n i. let r = rehashed v in ground (arith, r),
        )
  ]
