-- ===== src/AdminApplications/Coherence.antt =====
-- admin-applications.service.ts: whether accounts are active and whether they are approved.
use node_vms.Prelude.{
  ℕ, ◌≡◌, refl, ◌↔◌, inl, inr, Bool, true, false, arith, All, Listed, Option-cases,
}
use node_vms.Schema.{User, Role, ApprovalStatus, approved, rejected, suspended}
use node_vms.Database.Client.{Client}
use node_vms.Database.Errors.{ok}
use node_vms.Database.Action.{Db}
use node_vms.Database.Lookup.{All-update}
use node_vms.Database.Pairs.{Listed-update_elim}
use node_vms.AdminApplications.{
  is_admin_user, has_user_id, decided, with_password, decide, approve, reject, suspend, reactivate,
  reset_admin_password,
}

-- A row of an administrator, deleted or not.
abbrev pub IsCoherent : User → Type 0
IsCoherent u =
    u.role ≡ Role.admin → (u.is_active ≡ true) ↔ (u.approval_status ≡ ApprovalStatus.approved)

abbrev pub Coherent : Db → Type 0
Coherent s = All IsCoherent s.users

module _ (c : Client) (user_id : ℕ) (s : Db) where
  decide-Coherent :
      (tenant_id : ℕ) (status : ApprovalStatus) (active : Bool)
      → (active ≡ true) ↔ (status ≡ ApprovalStatus.approved)
      → Coherent s
      → Coherent (decide c user_id tenant_id status active s).1
  unfolding decide
  decide-Coherent tenant_id status active k h =
      let new =
        All-update c IsCoherent (has_user_id user_id) (decided status active) s.users (λ u _ _ _. k)
          h in
      ground (arith, new)

  pub approve-Coherent : Coherent s → Coherent (approve c user_id s).1
  unfolding approve
  approve-Coherent h = elim (Option-cases (c.find_first (is_admin_user user_id) s.users)) [
    | inl e ↦ ground (arith, h)
    | inr (u, e) ↦
        ground (arith, h, decide-Coherent u.tenant_id approved true (λ _. refl, λ _. refl) h)
  ]

  pub suspend-Coherent : Coherent s → Coherent (suspend c user_id s).1
  unfolding suspend
  suspend-Coherent h = elim (Option-cases (c.find_first (is_admin_user user_id) s.users)) [
    | inl e ↦ ground (arith, h)
    | inr (u, e) ↦
        ground (arith, h, decide-Coherent u.tenant_id suspended false (λ x. cc, λ x. cc) h)
  ]

  pub reactivate-Coherent : Coherent s → Coherent (reactivate c user_id s).1
  unfolding reactivate
  reactivate-Coherent h = elim (Option-cases (c.find_first (is_admin_user user_id) s.users)) [
    | inl e ↦ ground (arith, h)
    | inr (u, e) ↦
        ground (arith, h, decide-Coherent u.tenant_id approved true (λ _. refl, λ _. refl) h)
  ]

  rejected-Coherent :
      Coherent s → All IsCoherent (c.update (has_user_id user_id) (decided rejected false) s.users)
  rejected-Coherent =
      All-update c IsCoherent (has_user_id user_id) (decided rejected false) s.users
        (λ u _ _ _. (λ x. cc, λ x. cc))

  pub reject-Coherent : Coherent s → Coherent (reject c user_id s).1
  unfolding reject
  reject-Coherent h = ground (arith, rejected-Coherent h)

  pub reset_admin_password-Coherent :
      (hash : ℕ) → Coherent s → Coherent (reset_admin_password c user_id hash s).1
  unfolding reset_admin_password
  reset_admin_password-Coherent hash h =
      let new =
        All-update c IsCoherent (has_user_id user_id) (with_password hash) s.users (λ u k _. k) h in
      ground (arith, new)

-- No row with the key is active once its suspension has been answered.
pub suspend_deactivates :
    (c : Client) (user_id : ℕ) (s : Db) (u : User)
    → (suspend c user_id s).0 ≡ ok u
    → (x : User) → Listed x (suspend c user_id s).1.users
    → x.id ≡ user_id
    → x.is_active ≡ false
unfolding suspend decide
suspend_deactivates c user_id s u h x m e =
    let q =
      Listed-update_elim c (λ y. y.id ≡ user_id → y.is_active ≡ false) (has_user_id user_id)
        (decided suspended false) s.users (λ a n k _. refl) (λ a n k e. absurd (ground arith)) x in
    ground (arith, q)
