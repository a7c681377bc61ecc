-- ===== src/Tests/Trips.antt =====
-- trips.service.ts on the example fleet.
use node_vms.Prelude.{
  ◌≢◌, ◌≡◌, refl, ◌⊎◌, inl, inr, none, some, arith, [], ◌∷◌, Listed, ap, sym, ◌∙◌,
}
use mathlib.Core.List.{Memᴰ}
use node_vms.Schema.{Driver, Trip, Vehicle, VehicleStatus, Role}
use node_vms.Database.Lists.{lists}
use node_vms.Database.Errors.{ok}
use node_vms.Database.Action.{Db}
use node_vms.Trips.{UpdateTripDto, start_trip, end_trip, update_trip, new_trip, ended}
use node_vms.Trips.Fleet.{Consistent, IsActive, started}
use node_vms.Trips.History.{Step, Reach, Reach-Consistent}
use node_vms.Trips.Outcomes.{
  IsDriverOf, IsUnderWay, start_accepts_second_trip, end_trip_undoes_start,
}
use node_vms.Tests.Data.{fleet, run, past_run, car, ann, ann_drives}

abbrev costs : UpdateTripDto
costs = record { toll_cost = some 30; police_cost = none; income = some 900; distance = some 120 }

pub two_rows {ℓ} : {A : Type ℓ} (x y a : A) → Listed a (x ∷ (y ∷ [])) → (a ≡ x) ⊎ (a ≡ y)
two_rows x y a (Memᴰ.head e) = inl e
two_rows x y a (Memᴰ.tail (Memᴰ.head e)) = inr e
two_rows x y a (Memᴰ.tail (Memᴰ.tail m)) = elim m [ ]

same_trip : (a b : Trip) → Listed a fleet.trips → Listed b fleet.trips → a.id ≡ b.id → a ≡ b
same_trip a b m n e = elim (two_rows run past_run a m) [
  | inl p ↦ elim (two_rows run past_run b n) [ inl q ↦ p ∙ sym q | inr q ↦ absurd (ground arith) ]
  | inr p ↦ elim (two_rows run past_run b n) [ inl q ↦ absurd (ground arith) | inr q ↦ p ∙ sym q ]
]

same_vehicle :
    (v w : Vehicle) → Listed v fleet.vehicles → Listed w fleet.vehicles → v.id ≡ w.id → v ≡ w
same_vehicle v w m n e =
    let cases = two_rows (car 1 VehicleStatus.available) (car 2 VehicleStatus.on_trip) in
    elim (cases v m) [
      | inl p ↦ elim (cases w n) [ inl q ↦ p ∙ sym q | inr q ↦ absurd (ground arith) ]
      | inr p ↦ elim (cases w n) [ inl q ↦ absurd (ground arith) | inr q ↦ p ∙ sym q ]
    ]

active_trip : (a : Trip) → Listed a fleet.trips → IsActive a → a ≡ run
active_trip a m k = elim (two_rows run past_run a m) [ inl p ↦ p | inr p ↦ absurd (ground arith) ]

busy_vehicle :
    (v : Vehicle)
    → Listed v fleet.vehicles
    → (v.status ≡ VehicleStatus.on_trip → v.id ≡ 2) × (v.id ≡ 2 → v.status ≡ VehicleStatus.on_trip)
busy_vehicle v m =
    elim (two_rows (car 1 VehicleStatus.available) (car 2 VehicleStatus.on_trip) v m) [
      | inl p ↦ (λ e. ground arith, λ e. ground arith)
      | inr p ↦ (λ e. ground arith, λ e. ground arith)
    ]

pub fleet-Consistent : Consistent fleet
fleet-Consistent = record {
  trip_key = same_trip;
  vehicle_key = same_vehicle;
  single = λ a b m n k l e. active_trip a m k ∙ sym (active_trip b n l);
  driving = λ t v m n k e. let p = active_trip t m k in (busy_vehicle v n).1 (ground arith);
  busy = λ v n e. let p = (busy_vehicle v n).0 e in (run, Memᴰ.head refl, (refl, refl), sym p);
}

-- A trip starts, its costs are noted, and it ends.
Reach-Consistent_example :
    Consistent
      (end_trip lists 40 92 7 30 costs Role.driver
        (update_trip lists 92 7 costs (start_trip lists 92 25 1 7 30 fleet).1).1).1
Reach-Consistent_example =
    Reach-Consistent lists
      (Reach.next
        (Reach.next
          (Reach.next Reach.here
            (Step.starts 92 25 1 7 30 (λ e. ground arith, (λ e. ground arith, tt)) refl))
          (Step.updates 92 7 costs refl))
        (Step.ends 40 92 7 30 costs Role.driver refl))
      fleet-Consistent

one_driver : (e : Driver) → Listed e fleet.drivers → IsDriverOf 7 30 e → e ≡ ann
one_driver e (Memᴰ.head p) h = p
one_driver e (Memᴰ.tail m) h = elim m [ ]

start_accepts_second_trip_example :
    (trip : Trip) × (s' : Db) × (start_trip lists 92 25 1 7 30 fleet ≡ (ok trip, s'))
    × Listed trip s'.trips
    × IsUnderWay 3 trip
    × Listed run s'.trips
    × (run.id ≢ trip.id)
start_accepts_second_trip_example =
    start_accepts_second_trip lists fleet 92 25 1 7 30 ann ann_drives
      (car 1 VehicleStatus.available) run (Memᴰ.head refl) (refl, refl, refl) one_driver
      (Memᴰ.head refl) (refl, refl, refl) (Memᴰ.head refl)
      (refl, refl, refl, omega arith, inr (60, refl, omega arith)) (Memᴰ.head refl) refl refl refl
      refl (λ w m e. same_vehicle w _ m (Memᴰ.head refl) e)
      (λ v t h. ground arith, (λ v t h. ground arith, tt))
      (λ e. ground arith, (λ e. ground arith, tt))

abbrev garage : Db
garage = record fleet { vehicles = car 1 VehicleStatus.available ∷ []; trips = past_run ∷ [] }

only_car : (w : Vehicle) → Listed w garage.vehicles → w.status ≡ VehicleStatus.available
only_car w (Memᴰ.head e) = ap (λ x. x.status) e
only_car w (Memᴰ.tail m) = elim m [ ]

end_trip_undoes_start_example :
    let trip = new_trip 92 7 1 3 25 in
    let end_ = end_trip lists 40 92 7 99 costs Role.employee (started lists trip garage) in
    (end_.0 ≡ ok (ended 40 costs trip)) × (end_.1.vehicles ≡ garage.vehicles)
end_trip_undoes_start_example =
    end_trip_undoes_start lists garage (new_trip 92 7 1 3 25) (car 1 VehicleStatus.available) ann
      (Memᴰ.head refl) refl (Memᴰ.head refl) refl (λ e. ground arith, tt) (refl, refl) 40 99 costs
      Role.employee refl (λ w m e. only_car w m)
