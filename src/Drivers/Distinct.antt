-- ===== src/Drivers/Distinct.antt =====
-- drivers.service.ts: the unique columns, and `create`.
use node_vms.Prelude.{
  ℕ, ◌≡◌, ◌≢◌, refl, sym, ap, ◌⊎◌, inl, inr, false, none, some, arith, All, All-Listed,
  Option-cases, ◌==◌, is_just,
}
use node_vms.Schema.{Driver}
use node_vms.Database.Client.{Client}
use node_vms.Database.Action.{Db, put_drivers}
use node_vms.Database.Pairs.{Pairs, Pairs-insert}
use node_vms.EntityValidator.{
  assert_phone_unique, assert_license_unique, assert_user_exists, assert_user_not_already_driver,
  assert_branch_exists,
}
use node_vms.Drivers.{CreateDriverDto, new_driver, create_row, create}

-- Two rows of the driver table, deleted or not: the id is a key, and so are the phone number, the
-- licence and the linked account, where there is one.
pub record Distinct (a b : Driver) : Type 0 where
  pub key : a.id ≡ b.id → a ≡ b
  pub phone : a.id ≢ b.id → a.phone ≢ b.phone
  pub license : a.id ≢ b.id → a.license_no ≢ b.license_no
  pub login : a.id ≢ b.id → (k : ℕ) → a.user_id ≡ some k → b.user_id ≢ some k

abbrev pub DistinctDrivers : Db → Type 0
DistinctDrivers s = Pairs Distinct s.drivers

pub Distinct-of_eq : {a b : Driver} → a ≡ b → Distinct a b
Distinct-of_eq e = record {
  key = λ _. e;
  phone = λ ne. absurd (ne (ap (λ x. x.id) e));
  license = λ ne. absurd (ne (ap (λ x. x.id) e));
  login = λ ne. absurd (ne (ap (λ x. x.id) e));
}

module _ (c : Client) (id tenant_id : ℕ) (dto : CreateDriverDto) (s : Db) where
  -- What the database has made sure of where it has written the row.
  abbrev Unused : Type 0
  Unused =
      (c.find_first (λ d. d.phone == dto.phone) s.drivers ≡ none)
      × (c.find_first (λ d. d.license_no == dto.license_no) s.drivers ≡ none)
      × ((k : ℕ) → dto.user_id ≡ some k → c.find_first (λ d. is_just d.user_id k) s.drivers ≡ none)

  create_row_cases :
      ((create_row c id tenant_id dto s).1 ≡ s)
      ⊎ (Unused
          × ((create_row c id tenant_id dto s).1
              ≡ put_drivers (c.insert (new_driver id tenant_id dto) s.drivers) s))
  unfolding create_row
  create_row_cases = elim (Option-cases dto.user_id) [
    | inl e ↦ ground arith
    | inr (k, e) ↦ ground arith
  ]

  create_cases :
      ((create c id tenant_id dto s).1 ≡ s)
      ⊎ ((create c id tenant_id dto s).1 ≡ (create_row c id tenant_id dto s).1)
  unfolding create assert_phone_unique assert_license_unique assert_user_exists
      assert_user_not_already_driver assert_branch_exists
  create_cases = ground arith

  new-Distinct :
      (a : Driver)
      → a.id ≢ id
      → (a.phone == dto.phone) ≡ false
      → (a.license_no == dto.license_no) ≡ false
      → ((k : ℕ) → dto.user_id ≡ some k → is_just a.user_id k ≡ false)
      → Distinct a (new_driver id tenant_id dto) × Distinct (new_driver id tenant_id dto) a
  new-Distinct a ne p l u = (
    record {
      key = λ e. absurd (ne e);
      phone = λ _ e. ground arith;
      license = λ _ e. ground arith;
      login = λ _ k e f. let g = u k f in ground arith;
    },
    record {
      key = λ e. absurd (ne (sym e));
      phone = λ _ e. ground arith;
      license = λ _ e. ground arith;
      login = λ _ k e f. let g = u k e in ground arith;
    },
  )

  written-Distinct :
      Unused
      → All (λ d. d.id ≢ id) s.drivers
      → DistinctDrivers s
      → DistinctDrivers (put_drivers (c.insert (new_driver id tenant_id dto) s.drivers) s)
  written-Distinct (p, l, u) fresh h =
      Pairs-insert c Distinct (new_driver id tenant_id dto) s.drivers (Distinct-of_eq refl)
        (λ a m.
          new-Distinct a (All-Listed _ s.drivers fresh m)
            (All-Listed _ s.drivers (c.find_first-none _ _ p) m)
            (All-Listed _ s.drivers (c.find_first-none _ _ l) m)
            (λ k e. All-Listed _ s.drivers (c.find_first-none _ _ (u k e)) m))
        h

  -- If no two drivers have one phone number, one licence or one login, creating a driver under a
  -- fresh id, or being refused, leaves none that do.
  create-Distinct :
      All (λ d. d.id ≢ id) s.drivers
      → DistinctDrivers s
      → DistinctDrivers (create c id tenant_id dto s).1
  create-Distinct fresh h = elim create_cases [
    | inl e ↦ rw e h
    | inr e ↦ elim create_row_cases [
      | inl f ↦ rw (e, f) h
      | inr (unused, f) ↦ rw (e, f) (written-Distinct unused fresh h)
    ]
  ]
