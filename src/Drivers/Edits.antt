-- ===== src/Drivers/Edits.antt =====
-- drivers.service.ts: `update` against the unique columns.
use node_vms.Prelude.{
  ℕ, ◌≡◌, ◌≢◌, sym, ap, ◌⊎◌, inl, inr, true, false, none, some, arith, All-Listed, Listed,
  Bool-cases, Option-cases, get_or,
}
use node_vms.Schema.{Driver}
use node_vms.Database.Client.{Client}
use node_vms.Database.Action.{Db, put_drivers}
use node_vms.Database.Pairs.{Pairs-update, changed}
use node_vms.EntityValidator.{assert_phone_unique, assert_license_unique, assert_branch_exists}
use node_vms.Drivers.{
  UpdateDriverDto, has_driver_key, edited, other_phone, other_license, update_driver_row, update,
}
use node_vms.Drivers.Distinct.{Distinct, Distinct-of_eq, DistinctDrivers}

module _ (c : Client) (tenant_id id : ℕ) (dto : UpdateDriverDto) (s : Db) where
  abbrev pub Available : Type 0
  Available =
      ((p : ℕ) → dto.phone ≡ some p → c.find_first (other_phone id p) s.drivers ≡ none)
      × ((l : ℕ) → dto.license_no ≡ some l → c.find_first (other_license id l) s.drivers ≡ none)

  pub update_row_cases :
      ((update_driver_row c id dto s).1 ≡ s)
      ⊎ (Available
          × ((update_driver_row c id dto s).1
              ≡ put_drivers (c.update (has_driver_key id) (edited dto) s.drivers) s))
  unfolding update_driver_row
  update_row_cases = elim (Option-cases dto.phone) [
    | inl e ↦ elim (Option-cases dto.license_no) [
      | inl f ↦ ground arith
      | inr (l, f) ↦ ground arith
    ]
    | inr (p, e) ↦ elim (Option-cases dto.license_no) [
      | inl f ↦ ground arith
      | inr (l, f) ↦ ground arith
    ]
  ]

  pub update_cases :
      ((update c tenant_id id dto s).1 ≡ s)
      ⊎ ((update c tenant_id id dto s).1 ≡ (update_driver_row c id dto s).1)
  unfolding update assert_phone_unique assert_license_unique assert_branch_exists
  update_cases = ground arith

  abbrev after : Driver → Driver
  after = changed (has_driver_key id) (edited dto)

  -- The edited row beside another one.
  edited-Distinct :
      (a b : Driver)
      → has_driver_key id a ≡ true
      → has_driver_key id b ≡ false
      → ((p : ℕ) → dto.phone ≡ some p → other_phone id p b ≡ false)
      → ((l : ℕ) → dto.license_no ≡ some l → other_license id l b ≡ false)
      → Distinct a b × Distinct b a
      → Distinct (edited dto a) b × Distinct b (edited dto a)
  edited-Distinct a b ka kb p l (h, g) =
      let ne : a.id ≢ b.id = λ e. ground arith in
      let phones : get_or dto.phone a.phone ≢ b.phone = elim (Option-cases dto.phone) [
        | inl e ↦ let q = h.phone ne in ground arith
        | inr (k, e) ↦ let q = p k e in λ f. ground arith
      ] in
      let licenses : get_or dto.license_no a.license_no ≢ b.license_no =
        elim (Option-cases dto.license_no) [
          | inl e ↦ let q = h.license ne in ground arith
          | inr (k, e) ↦ let q = l k e in λ f. ground arith
        ] in
      (
        record {
          key = λ e. absurd (ne e);
          phone = λ _. phones;
          license = λ _. licenses;
          login = λ _. h.login ne;
        },
        record {
          key = λ e. absurd (ne (sym e));
          phone = λ _ e. phones (sym e);
          license = λ _ e. licenses (sym e);
          login = λ _. g.login (λ e. ne (sym e));
        },
      )

  after-Distinct :
      Available
      → DistinctDrivers s
      → (a b : Driver) → Listed a s.drivers
      → Listed b s.drivers
      → Distinct (after a) (after b)
  after-Distinct (p, l) h a b m n =
      let free_phone = λ (x : Driver) (i : Listed x s.drivers) (k : ℕ) (e : dto.phone ≡ some k).
        All-Listed _ s.drivers (c.find_first-none _ _ (p k e)) i in
      let free_license =
        λ (x : Driver) (i : Listed x s.drivers) (k : ℕ) (e : dto.license_no ≡ some k).
          All-Listed _ s.drivers (c.find_first-none _ _ (l k e)) i in
      elim (Bool-cases (has_driver_key id a)) [
        | inl x ↦ elim (Bool-cases (has_driver_key id b)) [
          | inl y ↦ Distinct-of_eq (ap after ((h a b m n).key (ground arith)))
          | inr y ↦
              rw (x, y)
                (edited-Distinct a b x y (free_phone b n) (free_license b n)
                  (h a b m n, h b a n m)).0
        ]
        | inr x ↦ elim (Bool-cases (has_driver_key id b)) [
          | inl y ↦
              rw (x, y)
                (edited-Distinct b a y x (free_phone a m) (free_license a m)
                  (h b a n m, h a b m n)).1
          | inr y ↦ rw (x, y) (h a b m n)
        ]
      ]

  -- If no two drivers have one phone number, one licence or one login, changing a driver, or being
  -- refused, leaves none that do.
  pub update-Distinct : DistinctDrivers s → DistinctDrivers (update c tenant_id id dto s).1
  update-Distinct h = elim update_cases [
    | inl e ↦ rw e h
    | inr e ↦ elim update_row_cases [
      | inl f ↦ rw (e, f) h
      | inr (free, f) ↦
          rw (e, f)
            (Pairs-update c Distinct (has_driver_key id) (edited dto) s.drivers
              (λ a b m n _. after-Distinct free h a b m n) h)
    ]
  ]
