-- ===== src/Drivers/Outcomes.antt =====
-- drivers.service.ts: what a request cannot touch, and the numbers of deleted drivers.
use node_vms.Prelude.{
  ℕ, Bool, true, true≢false, All-Listed, ◌↔◌, ◌≡◌, ◌≢◌, refl, ap, ◌∙◌, subst, ◌⊎◌, inl, inr, false,
  none, some, arith, Listed, Bool-cases, Option-cases, ◌==◌,
}
use node_vms.Schema.{Driver}
use node_vms.Database.Client.{Client}
use node_vms.Database.Errors.{Result, ok, err, conflict, unique_violation}
use node_vms.Database.Action.{Db, put_drivers}
use node_vms.Database.Pairs.{Listed-update, Listed-changed}
use node_vms.EntityValidator.{
  is_tenant_driver, phone_taken, license_taken, assert_phone_unique, assert_license_unique,
  assert_branch_exists,
}
use node_vms.Drivers.{
  CreateDriverDto, UpdateDriverDto, new_driver, has_driver_key, edited, create_row, create, update,
  remove,
}
use node_vms.Drivers.Distinct.{DistinctDrivers}
use node_vms.Drivers.Edits.{update_cases, update_row_cases}

abbrev retired : ℕ → Driver → Driver
retired now d = record d { deleted_at = some now }

module _ (c : Client) (now tenant_id id : ℕ) (dto : UpdateDriverDto) (s : Db) where
  update_written :
      ((update c tenant_id id dto s).1.drivers ≡ s.drivers)
      ⊎ ((update c tenant_id id dto s).1.drivers
          ≡ c.update (has_driver_key id) (edited dto) s.drivers)
  update_written = elim (update_cases c tenant_id id dto s) [
    | inl e ↦ inl (ap (λ t. t.drivers) e)
    | inr e ↦ elim (update_row_cases c tenant_id id dto s) [
      | inl f ↦ inl (ap (λ t. t.drivers) (e ∙ f))
      | inr (free, f) ↦ inr (ap (λ t. t.drivers) (e ∙ f))
    ]
  ]

  remove_written :
      ((remove c now tenant_id id s).1.drivers ≡ s.drivers)
      ⊎ ((remove c now tenant_id id s).1.drivers
          ≡ c.update (has_driver_key id) (retired now) s.drivers)
  unfolding remove
  remove_written = ground arith

  missing_keeps :
      c.find_first (is_tenant_driver tenant_id id) s.drivers ≡ none
      → ((update c tenant_id id dto s).1 ≡ s) × ((remove c now tenant_id id s).1 ≡ s)
  unfolding update remove
  missing_keeps e = ground arith

  -- Changing or removing a driver, accepted or refused, leaves the rows of other tenants as they
  -- are, if driver ids are keys.
  other_tenants_kept :
      DistinctDrivers s
      → (d : Driver) → Listed d s.drivers
      → d.tenant_id ≢ tenant_id
      → Listed d (update c tenant_id id dto s).1.drivers
        × Listed d (remove c now tenant_id id s).1.drivers
  other_tenants_kept h d m other =
      elim (Option-cases (c.find_first (is_tenant_driver tenant_id id) s.drivers)) [
        | inl e ↦ let (u, r) = missing_keeps e in rw (u, r) (m, m)
        | inr (x, e) ↦
            let (mx, kx) = c.find_first-some _ _ x e in
            let miss : has_driver_key id d ≡ false = elim (Bool-cases (has_driver_key id d)) [
              | inl k ↦ let same = (h d x m mx).key (ground arith) in absurd (other (ground arith))
              | inr k ↦ k
            ] in
            (
              elim update_written [
                | inl w ↦ rw w m
                | inr w ↦ rw w (
                    subst (λ y. Listed y (c.update (has_driver_key id) (edited dto) s.drivers))
                      (rw miss refl)
                      (Listed-changed c (has_driver_key id) (edited dto) s.drivers d m))
              ],
              elim remove_written [
                | inl w ↦ rw w m
                | inr w ↦ rw w (
                    subst (λ y. Listed y (c.update (has_driver_key id) (retired now) s.drivers))
                      (rw miss refl)
                      (Listed-changed c (has_driver_key id) (retired now) s.drivers d m))
              ],
            )
      ]

  -- Whatever a change request says, every row afterwards has the key, the tenant, the login and the
  -- deletion mark of a row before it.
  pub update_keeps_owner :
      (b : Driver)
      → Listed b (update c tenant_id id dto s).1.drivers
      → (a : Driver) × Listed a s.drivers
        × (b.id ≡ a.id)
        × (b.tenant_id ≡ a.tenant_id)
        × (b.user_id ≡ a.user_id)
        × (b.deleted_at ≡ a.deleted_at)
  update_keeps_owner b m = elim update_written [
    | inl w ↦ (b, rw w at m, refl, refl, refl, refl)
    | inr w ↦
        let (a, n, e) = Listed-update c (has_driver_key id) (edited dto) s.drivers b (rw w at m) in
        (a, n, ground arith, ground arith, ground arith, ground arith)
  ]

-- Some driver, deleted or not, has the value in the column.
abbrev pub Has : (Driver → ℕ) → ℕ → Db → Type 0
Has column value s = (d : Driver) × Listed d s.drivers × (column d ≡ value)

-- Some driver that is not deleted has the value in the column.
abbrev pub HasLive : (Driver → ℕ) → ℕ → Db → Type 0
HasLive column value s =
    (d : Driver) × Listed d s.drivers × ((column d ≡ value) × (d.deleted_at ≡ none))

-- The four answers to a request to create a driver, and when they are given.
pub data Answered (c : Client) (id tenant_id : ℕ) (dto : CreateDriverDto) (s : Db)
    (r : Result Driver × Db) : Type 0 where
  phone_in_use :
      HasLive (λ d. d.phone) dto.phone s
      → r ≡ (err (conflict "Phone number is already in use"), s)
      → Answered c id tenant_id dto s r
  license_in_use :
      ¬ HasLive (λ d. d.phone) dto.phone s
      → HasLive (λ d. d.license_no) dto.license_no s
      → r ≡ (err (conflict "License number is already in use"), s)
      → Answered c id tenant_id dto s r
  held_by_deleted :
      ¬ HasLive (λ d. d.phone) dto.phone s
      → ¬ HasLive (λ d. d.license_no) dto.license_no s
      → Has (λ d. d.phone) dto.phone s ⊎ Has (λ d. d.license_no) dto.license_no s
      → r ≡ (err unique_violation, s)
      → Answered c id tenant_id dto s r
  created :
      ¬ Has (λ d. d.phone) dto.phone s
      → ¬ Has (λ d. d.license_no) dto.license_no s
      → r ≡ (
        ok (new_driver id tenant_id dto),
        put_drivers (c.insert (new_driver id tenant_id dto) s.drivers) s,
      )
      → Answered c id tenant_id dto s r

module _ (c : Client) (p : Driver → Bool) (s : Db) (P : Driver → Type 0)
    (same : (d : Driver) → (p d ≡ true) ↔ P d) where
  found-P :
      (d : Driver) → c.find_first p s.drivers ≡ some d → (e : Driver) × Listed e s.drivers × P e
  found-P d e = let (m, k) = c.find_first-some _ _ d e in (d, m, (same d).0 k)

  missing-P : c.find_first p s.drivers ≡ none → ¬ ((e : Driver) × Listed e s.drivers × P e)
  missing-P e (d, m, k) =
      true≢false ((same d).1 k) (All-Listed _ s.drivers (c.find_first-none _ _ e) m)

module _ (c : Client) (id tenant_id : ℕ) (dto : CreateDriverDto) (s : Db) where
  phone_live :
      (d : Driver)
      → (phone_taken dto.phone none d ≡ true) ↔ ((d.phone ≡ dto.phone) × (d.deleted_at ≡ none))
  phone_live d = (λ h. (ground arith, ground arith), λ h. ground arith)

  license_live :
      (d : Driver)
      → (license_taken dto.license_no none d ≡ true)
        ↔ ((d.license_no ≡ dto.license_no) × (d.deleted_at ≡ none))
  license_live d = (λ h. (ground arith, ground arith), λ h. ground arith)

  phone_any : (d : Driver) → ((d.phone == dto.phone) ≡ true) ↔ (d.phone ≡ dto.phone)
  phone_any d = (λ h. ground arith, λ h. ground arith)

  license_any :
      (d : Driver) → ((d.license_no == dto.license_no) ≡ true) ↔ (d.license_no ≡ dto.license_no)
  license_any d = (λ h. ground arith, λ h. ground arith)

  -- A request to create a driver without a login and without a branch is answered in one of four
  -- ways. If a driver that is not deleted, of whatever tenant, has the phone number, it is refused
  -- for the phone number; else if one has the licence, it is refused for the licence; else if a
  -- deleted driver has the number or the licence, the service's checks pass and the database refuses
  -- the row; else the row is added. A refusal leaves the tables as they were.
  pub create-Answered :
      dto.user_id ≡ none
      → dto.branch_id ≡ none
      → Answered c id tenant_id dto s (create c id tenant_id dto s)
  unfolding create create_row assert_phone_unique assert_license_unique assert_branch_exists
  create-Answered no_user no_branch =
      elim (Option-cases (c.find_first (phone_taken dto.phone none) s.drivers)) [
        | inr (d, e) ↦ phone_in_use (found-P c _ s _ phone_live d e) (ground arith)
        | inl e ↦
            let no_phone = missing-P c _ s _ phone_live e in
            elim (Option-cases (c.find_first (license_taken dto.license_no none) s.drivers)) [
              | inr (d, f) ↦
                  license_in_use no_phone (found-P c _ s _ license_live d f) (ground arith)
              | inl f ↦
                  let no_license = missing-P c _ s _ license_live f in
                  elim (Option-cases
                    (c.find_first (λ (x : Driver). x.phone == dto.phone) s.drivers)) [
                      | inr (d, g) ↦
                          held_by_deleted no_phone no_license (inl (found-P c _ s _ phone_any d g))
                            (ground arith)
                      | inl g ↦
                          elim (Option-cases (
                            c.find_first (λ (x : Driver). x.license_no == dto.license_no)
                              s.drivers)) [
                                | inr (d, h) ↦
                                    held_by_deleted no_phone no_license
                                      (inr (found-P c _ s _ license_any d h)) (ground arith)
                                | inl h ↦
                                    created (missing-P c _ s _ phone_any g)
                                      (missing-P c _ s _ license_any h) (ground arith)
                              ]
                    ]
            ]
      ]
